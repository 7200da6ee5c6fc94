-- ===== src/Grounding.antt =====
-- src/memoryos_lite/curator/grounding.py: a quote is accepted as an exact substring of the cited
-- text, or as the one place where it stands up to case and whitespace. The proofs are below.
pub mod Normal
pub mod Spans
use memry_os_lite.Prelude.{
  ℕ, zero, suc, ◌+◌, ◌-◌, ltb, ◌==◌, if◌then◌else◌, Bool, true, false, ◌&&◌, ◌||◌, not, Option,
  none, some, List, [], ◌∷◌, ◌++◌, length, take, drop, any, Text, is_space, strip_prefix, is_prefix,
  occurs, get, Dict,
}
use memry_os_lite.Unicode.{Unicode, casefold}

abbrev pub min_quote_chars : ℕ
min_quote_chars = 8

abbrev flush : Text → List Text → List Text
flush [] ws = ws
flush (c ∷ w) ws = (c ∷ w) ∷ ws

-- `text.split()`; `w` is the word that is being read
pub words : Text → Text → List Text
words w [] = flush w []
words w (c ∷ s) = elim (is_space c) [ true ↦ flush w (words [] s) | false ↦ words (w ++ c ∷ []) s ]

-- `" ".join(ws)`
pub join : List Text → Text
join [] = []
join (w ∷ []) = w
join (w ∷ v ∷ ws) = w ++ 32 ∷ join (v ∷ ws)

unfoldable pub normalize_text : Unicode → Text → Text
unfolding words join
normalize_text u text = casefold u (join (words [] text))

-- `content[start:stop]`
abbrev pub slice : Text → ℕ → ℕ → Text
slice s start stop = take (stop - start) (drop start s)

-- `set(spans)`
pub unique : List (ℕ × ℕ) → List (ℕ × ℕ)
unique [] = []
unique (p ∷ ps) =
    let rest = unique ps in if any (λ q. p.0 == q.0 && p.1 == q.1) rest then rest else p ∷ rest

-- The text of the only span.
pub only_span : Text → List (ℕ × ℕ) → Option Text
only_span content ((start, stop) ∷ []) = some (slice content start stop)
only_span content _ = none

module _ (u : Unicode) where
  -- The loops of `_match_from`: `content` from `index` on, and `target` from `position` on. In a run
  -- of whitespace (the inner loop) `in_run` holds, and the rest of the run is passed over.
  pub match_loop : Bool → ℕ → Text → Text → Option ℕ
  match_loop in_run index [] [] = some index
  match_loop in_run index [] (t ∷ target) = none
  match_loop in_run index (c ∷ content) target = elim (in_run && is_space c) [
    | true ↦ match_loop true (suc index) content target
    | false ↦ elim target [
      | [] ↦ some index
      | t ∷ target' ↦ elim (is_space c) [
        | true ↦ elim (t == 32) [
          | true ↦ match_loop true (suc index) content target'
          | false ↦ none
        ]
        | false ↦ elim (strip_prefix (u.fold c) (t ∷ target')) [
          | none ↦ none
          | some rest ↦ match_loop false (suc index) content rest
        ]
      ]
    ]
  ]

  unfoldable pub match_from : ℕ → Text → Text → Option ℕ
  unfolding match_loop
  match_from start content target = match_loop false start content target

  -- What the round at `start` adds to `spans`.
  pub span_at : ℕ → ℕ → Text → Text → List (ℕ × ℕ)
  unfolding match_from strip_prefix
  span_at start first content target =
      if is_space first || not (is_prefix (u.fold first) target)
      then []
      else elim (match_from start (first ∷ content) target) [
        | none ↦ []
        | some stop ↦ (start, stop) ∷ []
      ]

  -- The loop of `normalized_spans`, from `start` on.
  pub spans_from : ℕ → Text → Text → List (ℕ × ℕ)
  unfolding span_at
  spans_from start [] target = []
  spans_from start (first ∷ content) target =
      span_at start first content target ++ spans_from (suc start) content target

  unfoldable pub normalized_spans : Text → Text → List (ℕ × ℕ)
  unfolding spans_from
  normalized_spans content [] = []
  normalized_spans content (t ∷ target) = spans_from 0 content (t ∷ target)

  unfoldable pub repair_quote : Text → Text → Option Text
  unfolding normalized_spans unique only_span normalize_text occurs
  repair_quote content quote =
      if ltb (length quote) min_quote_chars
      then none
      else if occurs quote content
      then some quote
      else only_span content (unique (normalized_spans content (normalize_text u quote)))
