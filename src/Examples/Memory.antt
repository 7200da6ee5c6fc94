-- ===== src/Examples/Memory.antt =====
-- Recall, budgets, archive windows and superseded quotes at concrete inputs.
use memry_os_lite.Prelude.{
  ℕ, ◌+◌, ◌≤◌, ◌≡◌, ◌⊎◌, refl, arith, Text, codes, true, not, ◌&&◌, teq, put, none, some, List, [],
  ◌∷◌, ◌++◌, map, keep, any, length, count, elem, Dict, IsSorted, is_space, if◌then◌else◌, min,
}
use memry_os_lite.Json.{str, Fields, field}
use memry_os_lite.Grounding.{normalize_text}
use memry_os_lite.Recall.{RecallRequest, recall, tokens_of_item}
use memry_os_lite.Recall.Select.{
  IsSelection, by_score, recall-names, recall-IsSelection, recall-IsSorted,
}
use memry_os_lite.Budget.{Settings, compute, compute_bounds}
use memry_os_lite.Archive.{
  FixedWindowArchiveSplitter, ArchiveTextSpan, make_splitter, split, validate_spans,
}
use memry_os_lite.Archive.Windows.{Windows, split_lem}
use memry_os_lite.Session.Tables.{CuratedMemoryRow, active_status, superseded_status}
use memry_os_lite.Supersede.{SupersededQuote, superseded_quotes, active_quotes, demote_superseded}
use memry_os_lite.Supersede.Marks.{
  row_offers, holds_quote, superseded_quotes-once, demote_superseded-partition,
}
use memry_os_lite.Examples.Base.{ascii, naturals, naturals-laws}

-- Recall: two items, and a budget for one.
abbrev recalled : RecallRequest
recalled = record {
  query = codes "deploy day";
  items =
      record {
        id = codes "a";
        text = codes "deploy on friday";
        thread_id = none;
        roles = [];
        seq = 1;
      }
      ∷ record {
        id = codes "b";
        text = codes "lunch";
        thread_id = some (codes "t");
        roles = [];
        seq = 2;
      }
      ∷ [];
  hint_thread = some (codes "t");
  hint_role = none;
  budget_tokens = 10;
  k = 5;
}

abbrev lexical : Dict ℕ
lexical = (codes "a", 3) ∷ []

recall-names_example :
    count (codes "a") (map (λ r. r.id) (recall naturals length recalled lexical []).ranked)
      + count (codes "a") (recall naturals length recalled lexical []).dropped
    ≡ count (codes "a") (map (λ i. i.id) recalled.items)
recall-names_example = recall-names naturals length recalled lexical [] (codes "a")

recall-IsSelection_example :
    IsSelection naturals
      (tokens_of_item naturals length recalled)
      recalled
      (recall naturals length recalled lexical [])
recall-IsSelection_example = recall-IsSelection naturals length recalled lexical []

recall-IsSorted_example :
    IsSorted (by_score naturals) (recall naturals length recalled lexical []).ranked
recall-IsSorted_example = recall-IsSorted naturals length recalled lexical [] naturals-laws

-- Budgets.
abbrev settings : Settings
settings = record { rot_safe_budget = 1000; hard_limit = 1600 }

compute_bounds_example :
    (compute settings 20 3 ≤ 1600)
    × (min 1000 1600 ≤ compute settings 20 3)
    × (compute settings 20 3 ≤ 1000 + 900)
    × (compute settings 20 3 ≤ compute settings 700 8)
compute_bounds_example = compute_bounds settings 20 700 3 8 (omega arith) (omega arith)

-- Windows of four characters that overlap by one.
abbrev splitter : FixedWindowArchiveSplitter
splitter = record { max_chars = 4; overlap_chars = 1 }

accepted : make_splitter 4 1 ≡ some splitter
unfolding make_splitter
accepted = refl

starts :
    elim (split splitter (codes "abcdefgh")) as (λ _. List ℕ) [
      | none ↦ []
      | some spans ↦ map (λ s. s.start) spans
    ]
    ≡ 0 ∷ 3 ∷ 6 ∷ []
unfolding split
starts = refl

split_lem_example :
    (spans : List ArchiveTextSpan) × (split splitter (codes "abcdefgh") ≡ some spans)
    × (validate_spans (codes "abcdefgh") spans ≡ true)
    × (((codes "abcdefgh" ≡ []) × (spans ≡ [])) ⊎ Windows splitter (codes "abcdefgh") 0 spans)
split_lem_example = split_lem 4 1 (codes "abcdefgh") accepted

-- Superseded quotes: a decision that changed.
abbrev quoted : Text → List Fields
quoted quote = field (codes "quote") (str quote) Fields.end ∷ []

abbrev row_of : Text → Text → Text → CuratedMemoryRow
row_of statement quote status = record {
  id = [];
  session_id = [];
  kind = codes "decision";
  topic_key = codes "deploy.day";
  statement = statement;
  sources = quoted quote;
  status = status;
  supersedes_id = none;
  superseded_by_id = none;
  run_id = [];
  model = [];
  created_at = 0;
  version = 0;
  occurrences = 1;
}

abbrev rows : List CuratedMemoryRow
rows =
    row_of (codes "deploys go out on friday") (codes "we deploy on friday") superseded_status
    ∷ row_of (codes "deploys go out on monday") (codes "we deploy on monday") active_status
    ∷ []

marked :
    map (λ m. m.current) (superseded_quotes ascii rows)
    ≡ some (codes "deploys go out on monday") ∷ []
unfolding superseded_quotes is_space normalize_text teq elem put
marked = refl

superseded_quotes-once_example :
    count
      (codes "we deploy on friday")
      (map (λ m. normalize_text ascii m.quote) (superseded_quotes ascii rows))
    ≡ (if any (row_offers ascii (codes "we deploy on friday")) rows
          && not (elem (codes "we deploy on friday") (active_quotes ascii rows))
        then 1
        else 0)
superseded_quotes-once_example = superseded_quotes-once ascii rows (codes "we deploy on friday")

abbrev marks : List SupersededQuote
marks = record { quote = codes "deploy on friday"; current = none } ∷ []

abbrev messages : List Text
messages = codes "we Deploy on friday" ∷ codes "lunch" ∷ []

demoted :
    demote_superseded ascii (λ t. t) marks messages
    ≡ codes "lunch" ∷ codes "we Deploy on friday" ∷ []
unfolding demote_superseded is_space normalize_text
demoted = refl

demote_superseded-partition_example :
    demote_superseded ascii (λ t. t) marks messages
    ≡ keep (λ item. not (holds_quote ascii (λ t. t) marks item)) messages
      ++ keep (holds_quote ascii (λ t. t) marks) messages
demote_superseded-partition_example = demote_superseded-partition ascii (λ t. t) marks messages
