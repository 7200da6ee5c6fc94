-- ===== src/Evidence/Passages.antt =====
-- memoryos_eval/memory/source_evidence.py: the items of the second version of the envelope, what is
-- asked of their parts, and the order in which they are selected.
use memry_os_lite.Prelude.{
  ℕ, zero, suc, ◌+◌, ◌-◌, min, Text, codes, Bool, true, false, not, ◌&&◌, ◌||◌, ◌==◌, if◌then◌else◌,
  Option, none, some, is_some, bind, List, [], ◌∷◌, ◌++◌, keep, any, length, all, teq,
}
use mathlib.Core.List.{reverse}
use memry_os_lite.Json.{Json, null, boolean, Fields, field_of}
use memry_os_lite.Evidence.{Canonical, SourceRef, utf8_length, valid_id_text, finite_score}

-- `source_complete` and `truncated` are constants of an item.
pub record SourceEvidenceV2Item : Type 0 where
  pub item_id : Text
  pub layer : Text
  pub document_id : Option Text
  pub text : Text
  pub estimated_tokens : ℕ
  pub content_sha256 : Text
  pub source_refs : List SourceRef
  pub derived : Bool
  pub score : Option Json
  pub rank : ℕ

abbrev pub v2_tokens_of : SourceEvidenceV2Item → ℕ
v2_tokens_of i = i.estimated_tokens

abbrev pub v2_text_of : SourceEvidenceV2Item → Text
v2_text_of i = i.text

abbrev pub v2_ranked : ℕ → SourceEvidenceV2Item → SourceEvidenceV2Item
v2_ranked n i = record i { rank = n }

abbrev pub is_archival : Text → Bool
is_archival layer = teq layer (codes "archival")

abbrev pub is_derived : Text → Bool
is_derived layer = teq layer (codes "recall") || teq layer (codes "page")

abbrev pub is_public_layer : Text → Bool
is_public_layer layer = is_derived layer || teq layer (codes "core") || is_archival layer

abbrev pub is_document : SourceRef → Bool
is_document r = teq r.source_type (codes "document")

abbrev pub is_message : SourceRef → Bool
is_message r = teq r.source_type (codes "message")

-- `_valid_id` of a text or `None`
abbrev pub valid_session : Option Text → Option Text
unfolding utf8_length
valid_session none = none
valid_session (some id) = if valid_id_text id then some id else none

-- The loop over the references.
unfoldable pub public_refs : List SourceRef → Option (List SourceRef)
unfolding utf8_length
public_refs [] = some []
public_refs (r ∷ rs) =
    if (is_message r || is_document r)
      && valid_id_text r.source_id
      && (is_document r || is_some (valid_session r.session_id))
    then bind (public_refs rs)
        (λ refs. some (record r { session_id = valid_session r.session_id } ∷ refs))
    else none

-- `len(source_types) == 1`, and the type that archival items want
abbrev pub one_source_type : List SourceRef → Bool
one_source_type refs = all is_document refs || all is_message refs

-- The score, if it is given: the outer `none` is a score that is refused.
unfoldable pub optional_score : Canonical → Json → Option (Option Json)
optional_score k null = some none
optional_score k j = bind (finite_score k j) (λ score. some (some score))

-- `metadata.get("source_complete", True) is True`
unfoldable pub source_complete : Fields → Bool
source_complete metadata = elim (field_of (codes "source_complete") metadata) [
  | none ↦ true
  | some j ↦ elim j [ boolean b ↦ b | _ ↦ false ]
]

-- `range(first, first + count)`
unfoldable pub range_from : ℕ → ℕ → List ℕ
range_from first zero = []
range_from first (suc count) = first ∷ range_from (first + 1) count

abbrev pub has_index : List ℕ → ℕ → Bool
has_index is i = any (λ j. j == i) is

-- `xs[i]`, as a list
unfoldable pub at_index : List SourceEvidenceV2Item → ℕ → List SourceEvidenceV2Item
at_index [] i = []
at_index (x ∷ xs) zero = x ∷ []
at_index (x ∷ xs) (suc i) = at_index xs i

abbrev pub archival_at : List SourceEvidenceV2Item → ℕ → Bool
unfolding at_index
archival_at xs i = any (λ x. is_archival x.layer) (at_index xs i)

-- `window_indices[window_indices.index(old)] = new`
unfoldable pub replace_index : ℕ → ℕ → List ℕ → List ℕ
replace_index old new [] = []
replace_index old new (i ∷ is) = if i == old then new ∷ is else i ∷ replace_index old new is

-- The loop over the zipped indices, on the window and the set of what is selected.
unfoldable pub replace_derived : List ℕ → List ℕ → List ℕ × List ℕ → List ℕ × List ℕ
unfolding replace_index
replace_derived [] archival s = s
replace_derived (d ∷ derived) [] s = s
replace_derived (d ∷ derived) (a ∷ archival) (window, selected) =
    replace_derived derived archival
      (replace_index d a window, a ∷ keep (λ i. not (i == d)) selected)

unfoldable pub pick : List SourceEvidenceV2Item → List ℕ → List SourceEvidenceV2Item
unfolding at_index
pick xs [] = []
pick xs (i ∷ is) = at_index xs i ++ pick xs is

-- `selection_order`
unfoldable pub selection_order : ℕ → List SourceEvidenceV2Item → List SourceEvidenceV2Item
selection_order max_items eligible =
    let window = range_from 0 (min max_items (length eligible)) in
    let derived = keep (λ i. not (archival_at eligible i)) window in
    let tail = keep (archival_at eligible) (range_from max_items (length eligible - max_items)) in
    let (window', selected) = replace_derived (reverse derived) (reverse tail) (window, window) in
    pick eligible
      (window' ++ keep (λ i. not (has_index selected i)) (range_from 0 (length eligible)))
