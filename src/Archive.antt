-- ===== src/Archive.antt =====
-- memoryos_eval/memory/archive_rag.py: `FixedWindowArchiveSplitter`, and the validation of spans that
-- every splitter's output goes through.
pub mod Windows
use memry_os_lite.Prelude.{
  ℕ, zero, suc, ◌+◌, ◌-◌, min, Text, Bool, true, false, not, ◌&&◌, ◌||◌, ◌==◌, ltb, leb,
  if◌then◌else◌, Option, none, some, List, [], ◌∷◌, all, length, teq,
}
use memry_os_lite.Grounding.{slice}

pub record ArchiveTextSpan : Type 0 where
  pub text : Text
  pub start : ℕ
  pub stop : ℕ

pub record FixedWindowArchiveSplitter : Type 0 where
  pub max_chars : ℕ
  pub overlap_chars : ℕ

-- The constructor; `none` is its `ValueError`.
unfoldable pub make_splitter : ℕ → ℕ → Option FixedWindowArchiveSplitter
make_splitter max_chars overlap_chars =
    if max_chars == 0
    then none
    else if leb max_chars overlap_chars
    then none
    else some (record { max_chars = max_chars; overlap_chars = overlap_chars })

module _ (splitter : FixedWindowArchiveSplitter) (text : Text) where
  abbrev pub window_stop : ℕ → ℕ
  window_stop start = min (length text) (start + splitter.max_chars)

  abbrev pub window : ℕ → ArchiveTextSpan
  window start = record {
    text = slice text start (window_stop start);
    start = start;
    stop = window_stop start;
  }

  -- The loop of `split`; `none` is fuel that ran out.
  unfoldable pub split_loop : ℕ → ℕ → Option (List ArchiveTextSpan)
  split_loop zero start = none
  split_loop (suc fuel) start = elim (ltb start (length text)) [
    | false ↦ some []
    | true ↦ elim (window_stop start == length text) [
      | true ↦ some (window start ∷ [])
      | false ↦ elim (split_loop fuel (window_stop start - splitter.overlap_chars)) [
        | none ↦ none
        | some spans ↦ some (window start ∷ spans)
      ]
    ]
  ]

  -- `split`; a window begins behind the one before it, so `length + 1` rounds are enough
  unfoldable pub split : Option (List ArchiveTextSpan)
  unfolding split_loop
  split = if length text == 0 then some [] else split_loop (suc (length text)) 0

-- One round of `_validate_spans`: the range, and the text.
unfoldable pub valid_span : Text → ArchiveTextSpan → Bool
unfolding teq
valid_span document_text span =
    not (ltb span.stop span.start || ltb (length document_text) span.stop)
    && teq (slice document_text span.start span.stop) span.text

-- `_validate_spans`; `false` is its `ValueError`
unfoldable pub validate_spans : Text → List ArchiveTextSpan → Bool
unfolding valid_span
validate_spans document_text spans = all (valid_span document_text) spans
