-- ===== src/Supersede.antt =====
-- memoryos_eval/memory/retrieval/supersede.py: the quotes that ground only superseded memories, and
-- the evidence that holds one of them.
pub mod Marks
use memry_os_lite.Prelude.{
  ℕ, Text, codes, Bool, true, false, not, ◌&&◌, ◌||◌, ltb, if◌then◌else◌, Option, none, some,
  or_else, is_some, List, [], ◌∷◌, ◌++◌, map, keep, each, length, concat_map, Dict, put, keys, elem,
  teq, occurs,
}
use memry_os_lite.Unicode.{Unicode}
use memry_os_lite.Json.{Fields, get_field, as_str}
use memry_os_lite.Session.Tables.{CuratedMemoryRow, is_active, superseded_status}
use memry_os_lite.Grounding.{min_quote_chars, normalize_text}

pub record SupersededQuote : Type 0 where
  pub quote : Text
  pub current : Option Text

-- `_quote`, of a dictionary
unfoldable pub quote_of : Fields → Text
unfolding get_field
quote_of source = or_else (as_str (get_field (codes "quote") source)) []

abbrev pub is_superseded : CuratedMemoryRow → Bool
is_superseded row = teq row.status superseded_status

abbrev pub is_lesson_row : CuratedMemoryRow → Bool
is_lesson_row row = teq row.kind (codes "lesson")

abbrev same : Bool → Bool → Bool
same true b = b
same false b = not b

-- `current.get((row.kind == "lesson", row.topic_key))`: the last of the active rows with that key
unfoldable pub current_statement : List CuratedMemoryRow → CuratedMemoryRow → Option Text
current_statement [] row = none
current_statement (a ∷ active) row = elim (current_statement active row) [
  | some s ↦ some s
  | none ↦
      if same (is_lesson_row a) (is_lesson_row row) && teq a.topic_key row.topic_key
      then some a.statement
      else none
]

module _ (u : Unicode) where
  -- `active_quotes`
  unfoldable pub active_quotes : List CuratedMemoryRow → List Text
  unfolding quote_of
  active_quotes rows =
      concat_map (λ row. map (λ source. normalize_text u (quote_of source)) row.sources)
        (keep is_active rows)

  module _ (rows : List CuratedMemoryRow) where
    -- One round of the inner loop of `superseded_quotes`.
    unfoldable pub mark_source :
        CuratedMemoryRow → Dict SupersededQuote → Fields → Dict SupersededQuote
    unfolding current_statement active_quotes
    mark_source row marks source =
        let quote = quote_of source in
        let key = normalize_text u quote in
        if ltb (length quote) min_quote_chars
          || elem key (active_quotes rows)
          || elem key (keys marks)
        then marks
        else put marks key
            (record { quote = quote; current = current_statement (keep is_active rows) row })

    -- One round of the outer loop.
    unfoldable pub mark_row : Dict SupersededQuote → CuratedMemoryRow → Dict SupersededQuote
    unfolding mark_source
    mark_row marks row =
        if is_superseded row then each (mark_source row) marks row.sources else marks

    unfoldable pub superseded_quotes : List SupersededQuote
    unfolding mark_row
    superseded_quotes = map (λ e. e.1) (each mark_row [] rows)

  -- The loop of `match_superseded`.
  unfoldable pub first_mark : Text → List SupersededQuote → Option SupersededQuote
  unfolding normalize_text occurs
  first_mark normalized [] = none
  first_mark normalized (mark ∷ marks) =
      if occurs (normalize_text u mark.quote) normalized
      then some mark
      else first_mark normalized marks

  unfoldable pub match_superseded : Text → List SupersededQuote → Option SupersededQuote
  unfolding first_mark
  match_superseded text marks = first_mark (normalize_text u text) marks

  module _ {T : Type 0} (text_of : T → Text) (marks : List SupersededQuote) where
    abbrev pub is_stale : T → Bool
    is_stale item = is_some (match_superseded (text_of item) marks)

    -- One round of the loop of `demote_superseded`, on (fresh, stale).
    unfoldable pub demote_step : List T × List T → T → List T × List T
    unfolding match_superseded
    demote_step (fresh, stale) item =
        if is_stale item then (fresh, stale ++ item ∷ []) else (fresh ++ item ∷ [], stale)

    unfoldable pub demote_superseded : List T → List T
    unfolding demote_step
    demote_superseded items = elim marks [
      | [] ↦ items
      | m ∷ ms ↦ let (fresh, stale) = each demote_step ([], []) items in fresh ++ stale
    ]
