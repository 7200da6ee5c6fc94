-- ===== src/Grounding/Spans.antt =====
-- The spans that `normalized_spans` finds, and the quote that `repair_quote` returns.
use memry_os_lite.Prelude.{
  ℕ, zero, suc, ◌+◌, ◌-◌, ◌≤◌, ◌≡◌, ◌≢◌, ◌⊎◌, refl, ap, ◌∙◌, sym, arith, Bool, true, false, not,
  ◌&&◌, ◌||◌, some, List, [], ◌∷◌, ◌++◌, append_assoc, append-nil, take, drop, any, All, All-append,
  Text, is_space, strip_prefix, append_of_strip_prefix, is_prefix, occurs, IsSpanOf,
  IsSpanOf-occurs, take-append-drop, ◌==◌, if◌then◌else◌, Bool-cases, Option-cases, inl, inr,
  length,
}
use memry_os_lite.Unicode.{Unicode, FoldLaws}
use memry_os_lite.Grounding.{
  normalize_text, slice, match_loop, span_at, spans_from, normalized_spans, unique, only_span,
  repair_quote, min_quote_chars,
}
use memry_os_lite.Grounding.Normal.{
  squeeze, normalize_text-squeeze, ends_blank, ends_blank-blank, ends_blank-squeeze,
}

pub slice-IsSpanOf : (s : Text) (start stop : ℕ) → IsSpanOf (slice s start stop) s
slice-IsSpanOf s start stop = (
  take start s,
  drop (stop - start) (drop start s),
  sym (
      ap (λ r. take start s ++ r) (take-append-drop (stop - start) (drop start s))
      ∙ take-append-drop start s),
)

drop-suc : (n : ℕ) (s : Text) {c : ℕ} {r : Text} → drop n s ≡ c ∷ r → drop (suc n) s ≡ r
drop-suc zero (d ∷ s) h = ground arith
drop-suc zero [] h = cc
drop-suc (suc n) [] h = cc
drop-suc (suc n) (d ∷ s) {c} {r} h = drop-suc n s {c = c} h

module _ (u : Unicode) where
  -- What `match_loop` compares with its target: a run of whitespace is one blank.
  collapse : Bool → Text → Text
  collapse in_run [] = []
  collapse in_run (c ∷ s) = elim (is_space c) [
    | true ↦ (if in_run then collapse true s else 32 ∷ collapse true s)
    | false ↦ u.fold c ++ collapse false s
  ]

  abbrev Collapses : Bool → ℕ → Text → Text → ℕ → Type 0
  Collapses in_run i s t j = (n : ℕ) × (j ≡ i + n) × (collapse in_run (take n s) ≡ t)

  Collapses-run :
      (c i : ℕ) (s t : Text) {j : ℕ}
      → is_space c ≡ true
      → Collapses true (suc i) s t j
      → Collapses true i (c ∷ s) t j
  unfolding collapse
  Collapses-run c i s t e (n, p, q) = (suc n, omega arith, rw (e, collapse) q)

  Collapses-blank :
      (c i x : ℕ) (s t : Text) {j : ℕ}
      → is_space c ≡ true
      → (x == 32) ≡ true
      → Collapses true (suc i) s t j
      → Collapses false i (c ∷ s) (x ∷ t) j
  unfolding collapse
  Collapses-blank c i x s t e b (n, p, q) =
      let blank : 32 ≡ x = ground arith in (suc n, omega arith, rw (e, collapse) (cc (q, blank)))

  Collapses-solid :
      (in_run : Bool) (c i : ℕ) (s t rest : Text) {j : ℕ}
      → is_space c ≡ false
      → strip_prefix (u.fold c) t ≡ some rest
      → Collapses false (suc i) s rest j
      → Collapses in_run i (c ∷ s) t j
  unfolding collapse
  Collapses-solid in_run c i s t rest e b (n, p, q) =
      (suc n, omega arith, rw (e, collapse, q) (sym (append_of_strip_prefix (u.fold c) t b)))

  match_loop-solid :
      (in_run : Bool) (i c x j : ℕ) (s t : Text)
      → is_space c ≡ false
      → match_loop u in_run i (c ∷ s) (x ∷ t) ≡ some j
      → (rest : Text) × (strip_prefix (u.fold c) (x ∷ t) ≡ some rest)
        × (match_loop u false (suc i) s rest ≡ some j)
  unfolding match_loop
  match_loop-solid in_run i c x j s t e h = elim (Option-cases (strip_prefix (u.fold c) (x ∷ t))) [
    | inl b ↦ absurd (ground arith)
    | inr (rest, b) ↦ (rest, b, ground arith)
  ]

  match_loop-collapse :
      (in_run : Bool) (i : ℕ) (s t : Text) {j : ℕ}
      → match_loop u in_run i s t ≡ some j
      → Collapses in_run i s t j
  unfolding match_loop collapse
  match_loop-collapse in_run i [] [] h = (0, ground arith, refl)
  match_loop-collapse in_run i [] (x ∷ t) h = cc
  match_loop-collapse true i (c ∷ s) [] {j} h = elim (Bool-cases (is_space c)) [
    | inl e ↦ Collapses-run c i s [] e (match_loop-collapse true (suc i) s [] (ground arith))
    | inr e ↦ (0, ground arith, refl)
  ]
  match_loop-collapse false i (c ∷ s) [] h = (0, ground arith, refl)
  match_loop-collapse true i (c ∷ s) (x ∷ t) {j} h = elim (Bool-cases (is_space c)) [
    | inl e ↦
        Collapses-run c i s (x ∷ t) e (match_loop-collapse true (suc i) s (x ∷ t) (ground arith))
    | inr e ↦
        let (rest, b, k) = match_loop-solid true i c x j s t e h in
        Collapses-solid true c i s (x ∷ t) rest e b (match_loop-collapse false (suc i) s rest k)
  ]
  match_loop-collapse false i (c ∷ s) (x ∷ t) {j} h = elim (Bool-cases (is_space c)) [
    | inl e ↦ elim (Bool-cases (x == 32)) [
      | inl b ↦ Collapses-blank c i x s t e b (match_loop-collapse true (suc i) s t (ground arith))
      | inr b ↦ absurd (ground arith)
    ]
    | inr e ↦
        let (rest, b, k) = match_loop-solid false i c x j s t e h in
        Collapses-solid false c i s (x ∷ t) rest e b (match_loop-collapse false (suc i) s rest k)
  ]

  -- `collapse` says at once what `squeeze` says when the next word begins.
  abbrev Within : Text → Text → Type 0
  Within s r = (tail : Text) × ((tail ≡ []) ⊎ (tail ≡ 32 ∷ [])) × (s ≡ r ++ tail)

  Within-cons : (x : ℕ) (s r : Text) → Within s r → Within (x ∷ s) (x ∷ r)
  Within-cons x s r (tail, k, e) = (tail, k, ap (◌∷◌ x) e)

  Within-append : (w s r : Text) → Within s r → Within (w ++ s) (w ++ r)
  Within-append w s r (tail, k, e) = (tail, k, ap (λ y. w ++ y) e ∙ sym (append_assoc w r tail))

  collapse-Within :
      (s : Text)
      → Within (collapse false s) (squeeze u true false s)
        × Within (32 ∷ collapse true s) (squeeze u true true s)
  unfolding collapse squeeze
  collapse-Within [] = (([], inl refl, refl), (32 ∷ [], inr refl, refl))
  collapse-Within (c ∷ s) =
      let ih = collapse-Within s in
      elim (Bool-cases (is_space c)) [
        | inl e ↦ rw (e, collapse, squeeze) (ih.1, ih.1)
        | inr e ↦
            let word = Within-append (u.fold c) (collapse false s) (squeeze u true false s) ih.0 in
            rw (e, collapse, squeeze) (word, Within-cons 32 _ _ word)
      ]

  squeeze-first :
      (c : ℕ) (s : Text)
      → is_space c ≡ false
      → squeeze u false false (c ∷ s) ≡ squeeze u true false (c ∷ s)
  unfolding squeeze
  squeeze-first c s e = rw (e, squeeze) refl

  squeeze-collapse :
      (n c : ℕ) (s t : Text)
      → is_space c ≡ false
      → t ≢ []
      → ends_blank t ≡ false
      → collapse false (take n (c ∷ s)) ≡ t
      → squeeze u false false (take n (c ∷ s)) ≡ t
  unfolding collapse
  squeeze-collapse zero c s t e ne h k = absurd (ne (sym k))
  squeeze-collapse (suc n) c s t e ne h k = go (collapse-Within (c ∷ take n s)).0
    where
      go :
          Within (collapse false (c ∷ take n s)) (squeeze u true false (c ∷ take n s))
          → squeeze u false false (c ∷ take n s) ≡ t
      go (tail, inl nil, q) =
          squeeze-first c (take n s) e
          ∙ (sym (append-nil _)
              ∙ (ap (λ y. squeeze u true false (c ∷ take n s) ++ y) (sym nil) ∙ (sym q ∙ k)))
      go (tail, inr blank, q) =
          let whole : t ≡ squeeze u true false (c ∷ take n s) ++ 32 ∷ [] =
            sym k ∙ (q ∙ ap (λ y. squeeze u true false (c ∷ take n s) ++ y) blank) in
          absurd (cc (whole, h, ends_blank-blank (squeeze u true false (c ∷ take n s))))

  -- The span of `p` in `s` has the normal form `t`.
  abbrev HasNormal : Text → Text → ℕ × ℕ → Type 0
  HasNormal s t p = normalize_text u (slice s p.0 p.1) ≡ t

  module _ (s t : Text) (some_target : t ≢ []) (trimmed : ends_blank t ≡ false) where
    slice-HasNormal :
        (i j c : ℕ) (r : Text)
        → drop i s ≡ c ∷ r
        → is_space c ≡ false
        → match_loop u false i (c ∷ r) t ≡ some j
        → FoldLaws u
        → HasNormal s t (i, j)
    slice-HasNormal i j c r at e found laws =
        let (n, stop, same) = match_loop-collapse false i (c ∷ r) t found in
        let span : slice s i j ≡ take n (c ∷ r) =
          rw (at, stop) (ap (λ m. take m (c ∷ r)) (omega arith)) in
        normalize_text-squeeze u laws (slice s i j)
        ∙ (ap (squeeze u false false) span ∙ squeeze-collapse n c r t e some_target trimmed same)

    span_at-cases :
        (i c : ℕ) (r : Text)
        → (span_at u i c r t ≡ [])
          ⊎ ((j : ℕ) × (is_space c ≡ false)
              × (match_loop u false i (c ∷ r) t ≡ some j)
              × (span_at u i c r t ≡ (i, j) ∷ []))
    unfolding span_at
    span_at-cases i c r = elim (Bool-cases (is_space c || not (is_prefix (u.fold c) t))) [
      | inl e ↦ inl (rw (e, span_at) refl)
      | inr e ↦ elim (Option-cases (match_loop u false i (c ∷ r) t)) [
        | inl missing ↦ inl (rw (e, span_at, missing) refl)
        | inr (j, found) ↦ inr (j, ground arith, found, rw (e, span_at, found) refl)
      ]
    ]

    span_at-HasNormal :
        (i c : ℕ) (r : Text)
        → drop i s ≡ c ∷ r
        → FoldLaws u
        → All (HasNormal s t) (span_at u i c r t)
    span_at-HasNormal i c r at laws = elim (span_at-cases i c r) [
      | inl e ↦ rw e tt
      | inr (j, e, found, one) ↦ rw one (slice-HasNormal i j c r at e found laws, tt)
    ]

    spans_from-HasNormal :
        (i : ℕ) (r : Text) → drop i s ≡ r → FoldLaws u → All (HasNormal s t) (spans_from u i r t)
    unfolding spans_from
    spans_from-HasNormal i [] at laws = tt
    spans_from-HasNormal i (c ∷ r) at laws =
        All-append (HasNormal s t) (span_at u i c r t) (spans_from u (suc i) r t)
          (span_at-HasNormal i c r at laws) (spans_from-HasNormal (suc i) r (drop-suc i s at) laws)

All-unique : (P : ℕ × ℕ → Type 0) (ps : List (ℕ × ℕ)) → All P ps → All P (unique ps)
unfolding unique
All-unique P [] h = tt
All-unique P (p ∷ ps) h = elim (Bool-cases (any (λ q. p.0 == q.0 && p.1 == q.1) (unique ps))) [
  | inl e ↦ rw (e, unique) (All-unique P ps h.1)
  | inr e ↦ rw (e, unique) (h.0, All-unique P ps h.1)
]

only_span-All :
    (P : ℕ × ℕ → Type 0) (s : Text) (ps : List (ℕ × ℕ)) {g : Text}
    → only_span s ps ≡ some g
    → All P ps
    → (p : ℕ × ℕ) × (g ≡ slice s p.0 p.1) × P p
unfolding only_span
only_span-All P s [] h all = cc
only_span-All P s ((i, j) ∷ []) h all = ((i, j), ground arith, all.0)
only_span-All P s (p ∷ q ∷ ps) h all = cc

-- What `repair_quote` promises of a grounded quote: it is a span of the content, it has the normal
-- form of the quote that was sent, and that quote had at least `min_quote_chars` characters.
pub record IsGrounded (u : Unicode) (content quote grounded : Text) : Type 0 where
  pub span : IsSpanOf grounded content
  pub same : normalize_text u grounded ≡ normalize_text u quote
  pub long : min_quote_chars ≤ length quote

module _ (u : Unicode) (laws : FoldLaws u) where
  normalized_spans-HasNormal :
      (s t : Text) → ends_blank t ≡ false → All (HasNormal u s t) (normalized_spans u s t)
  unfolding normalized_spans
  normalized_spans-HasNormal s [] trimmed = tt
  normalized_spans-HasNormal s (x ∷ t) trimmed =
      spans_from-HasNormal u s (x ∷ t) (λ e. cc) trimmed 0 s refl laws

  only_span_of :
      (content quote : Text) {g : Text}
      → occurs quote content ≡ false
      → repair_quote u content quote ≡ some g
      → only_span content (unique (normalized_spans u content (normalize_text u quote))) ≡ some g
  unfolding repair_quote
  only_span_of content quote e h = ground arith

  -- Whatever `repair_quote` returns is a verbatim span of the content and equals the quote that
  -- was sent up to case and whitespace, and the quote sent is long enough.
  pub repair_quote-IsGrounded :
      (content quote : Text) {g : Text}
      → repair_quote u content quote ≡ some g
      → IsGrounded u content quote g
  unfolding repair_quote
  repair_quote-IsGrounded content quote {g} h = elim (Bool-cases (occurs quote content)) [
    | inl e ↦
        let same : quote ≡ g = ground arith in
        record {
          span = rw (← same) (IsSpanOf-occurs quote content e);
          same = ap (normalize_text u) (sym same);
          long = ground arith;
        }
    | inr e ↦
        let trimmed : ends_blank (normalize_text u quote) ≡ false =
          rw (normalize_text-squeeze u laws quote) (ends_blank-squeeze u laws false false quote) in
        let (p, sliced, same) =
          only_span-All (HasNormal u content (normalize_text u quote)) content _
            (only_span_of content quote e h)
            (All-unique _ _
              (normalized_spans-HasNormal content (normalize_text u quote) trimmed)) in
        record {
          span = rw sliced (slice-IsSpanOf content p.0 p.1);
          same = rw sliced same;
          long = ground arith;
        }
  ]
