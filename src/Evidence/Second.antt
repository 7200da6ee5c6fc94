-- ===== src/Evidence/Second.antt =====
-- memoryos_eval/memory/source_evidence.py: the second version of the envelope, of recall, page, core
-- and archival items.
use memry_os_lite.Prelude.{
  ℕ, suc, ◌+◌, Text, codes, Bool, true, false, not, ◌&&◌, ◌||◌, leb, ltb, ◌==◌, Option, none, some,
  is_some, bind, List, [], ◌∷◌, map, length, all, teq,
}
use memry_os_lite.Unicode.{Unicode}
use memry_os_lite.Json.{Json, null, number, str, boolean, obj, Fields, end, field, get_field}
use memry_os_lite.Supersede.{SupersededQuote, demote_superseded}
use memry_os_lite.Evidence.{
  Canonical, SourceRef, ContextLayerItem, V3Context, Built, built, refused, Limits, Envelope,
  checked_items, eligible_of, select, rank_from, total_tokens, total_text_bytes, shrink,
  utf8_length, digest, digest_of_text, is_digest, valid_id, json_list, default_max_items,
  default_max_tokens, max_item_text_bytes, max_total_text_bytes,
}
use memry_os_lite.Evidence.First.{guard, enough_refs, same_flag}
use memry_os_lite.Evidence.Passages.{
  SourceEvidenceV2Item, is_archival, is_derived, is_document, is_message, is_public_layer,
  one_source_type, optional_score, public_refs, selection_order, source_complete, v2_ranked,
  v2_text_of, v2_tokens_of,
}

abbrev pub document_of : ContextLayerItem → Option Text
document_of i = valid_id (get_field (codes "document_id") i.metadata)

module _ (k : Canonical) where
  -- The result of `_v2_candidate`.
  abbrev pub v2_item_of :
      ℕ → ContextLayerItem → Text → List SourceRef → Option Json → SourceEvidenceV2Item
  v2_item_of rank i item_id refs score = record {
    item_id = item_id;
    layer = i.layer;
    document_id = document_of i;
    text = i.text;
    estimated_tokens = k.count_tokens i.text;
    content_sha256 = digest_of_text k i.text;
    source_refs = refs;
    derived = is_derived i.layer;
    score = score;
    rank = rank;
  }

  -- `_v2_candidate`
  unfoldable pub v2_candidate : ℕ → ContextLayerItem → Option SourceEvidenceV2Item
  v2_candidate rank i = bind (guard (is_public_layer i.layer)) (λ _.
      bind (valid_id (str i.item_id)) (λ item_id.
        bind (guard (leb (utf8_length i.text) max_item_text_bytes)) (λ _.
          bind (public_refs i.source_refs) (λ refs.
            bind (guard (enough_refs (length refs) && one_source_type refs)) (λ _.
              bind (guard (not (is_archival i.layer) || all is_document refs)) (λ _.
                bind (guard (not (is_archival i.layer) || is_some (document_of i))) (λ _.
                  bind (optional_score k (get_field (codes "score") i.metadata)) (λ score.
                    bind (guard (source_complete i.metadata))
                      (λ _. some (v2_item_of rank i item_id refs score))))))))))

  -- A field that is there if its value is.
  abbrev pub optional_field : Text → Option Text → Fields → Fields
  optional_field key none rest = rest
  optional_field key (some value) rest = field key (str value) rest

  abbrev pub v2_ref_json : SourceRef → Json
  v2_ref_json r = obj (
      field (codes "source_type") (str r.source_type) (
        field (codes "source_id") (str r.source_id)
          (optional_field (codes "session_id") r.session_id end)))

  -- The score of the payload is null where it is missing; `exclude_none` leaves it out.
  abbrev pub score_field : Bool → Option Json → Fields → Fields
  score_field exclude_none (some score) rest = field (codes "score") score rest
  score_field true none rest = rest
  score_field false none rest = field (codes "score") null rest

  abbrev pub v2_item_json : Bool → SourceEvidenceV2Item → Json
  v2_item_json exclude_none i = obj (
      field (codes "item_id") (str i.item_id) (
        field (codes "layer") (str i.layer) (
          field (codes "text") (str i.text) (
            field (codes "estimated_tokens") (number i.estimated_tokens) (
              field (codes "content_sha256") (str i.content_sha256) (
                field (codes "source_refs") (json_list (map v2_ref_json i.source_refs)) (
                  field (codes "derived") (boolean i.derived) (
                    field (codes "source_complete") (boolean true) (
                      score_field exclude_none i.score (
                        field (codes "rank") (number i.rank) (
                          field (codes "truncated") (boolean false)
                            (optional_field (codes "document_id") i.document_id end))))))))))))

  abbrev pub v2_fields : Bool → Envelope SourceEvidenceV2Item → Fields → Fields
  v2_fields exclude_none e rest =
      field (codes "schema") (str (codes "memoryos_source_evidence/v2")) (
        field (codes "items") (json_list (map (v2_item_json exclude_none) e.items)) (
          field (codes "omitted_count") (number e.omitted_count) (
            field (codes "estimated_tokens") (number e.estimated_tokens)
              (field (codes "truncated") (boolean e.truncated) rest))))

  -- What the digest of `_v2_payload` is of, and what that of the validator is of.
  abbrev pub v2_unsigned : Bool → Envelope SourceEvidenceV2Item → Json
  v2_unsigned exclude_none e = obj (v2_fields exclude_none e end)

  -- `_v2_payload`
  unfoldable pub v2_payload : List SourceEvidenceV2Item → ℕ → Envelope SourceEvidenceV2Item
  v2_payload items omitted_count =
      let unsigned : Envelope SourceEvidenceV2Item = record {
        items = items;
        omitted_count = omitted_count;
        estimated_tokens = total_tokens v2_tokens_of v2_text_of v2_ranked items;
        truncated = ltb 0 omitted_count;
        diagnostics_digest = [];
      } in
      record unsigned { diagnostics_digest = digest k (v2_unsigned false unsigned) }

  unfoldable pub v2_canonical_size : Envelope SourceEvidenceV2Item → ℕ
  v2_canonical_size e = utf8_length (
      k.dumps (
        obj
          (v2_fields false e (field (codes "diagnostics_digest") (str e.diagnostics_digest) end))))

  abbrev pub code_points_within : Text → Bool
  code_points_within id = leb 1 (length id) && leb (length id) 512

  abbrev pub short_id : Option Text → Bool
  short_id none = true
  short_id (some id) = leb (length id) 512

  -- What `SourceEvidenceV2Ref` accepts.
  unfoldable pub valid_v2_ref : SourceRef → Bool
  valid_v2_ref r =
      (is_message r || is_document r)
      && code_points_within r.source_id
      && short_id r.session_id
      && (not (is_message r) || is_some r.session_id)

  -- What `SourceEvidenceV2Item` accepts.
  unfoldable pub valid_v2_item : SourceEvidenceV2Item → Bool
  valid_v2_item i =
      code_points_within i.item_id
      && is_public_layer i.layer
      && short_id i.document_id
      && is_digest i.content_sha256
      && enough_refs (length i.source_refs)
      && all valid_v2_ref i.source_refs
      && leb 1 i.rank
      && leb (utf8_length i.text) max_item_text_bytes
      && teq i.content_sha256 (digest_of_text k i.text)
      && one_source_type i.source_refs
      && (not (is_archival i.layer) || (all is_document i.source_refs && is_some i.document_id))
      && (not (is_derived i.layer) || i.derived)

  unfoldable pub v2_ranks_from : ℕ → List SourceEvidenceV2Item → Bool
  v2_ranks_from first [] = true
  v2_ranks_from first (i ∷ is) = i.rank == first && v2_ranks_from (first + 1) is

  -- What `SourceEvidenceV2Envelope` accepts.
  unfoldable pub valid_v2_envelope : Envelope SourceEvidenceV2Item → Bool
  valid_v2_envelope e =
      all valid_v2_item e.items
      && leb (length e.items) default_max_items
      && leb e.estimated_tokens default_max_tokens
      && is_digest e.diagnostics_digest
      && v2_ranks_from 1 e.items
      && e.estimated_tokens == total_tokens v2_tokens_of v2_text_of v2_ranked e.items
      && leb (total_text_bytes v2_tokens_of v2_text_of v2_ranked e.items) max_total_text_bytes
      && same_flag e.truncated (ltb 0 e.omitted_count)
      && teq e.diagnostics_digest (digest k (v2_unsigned true e))

  -- `_build_source_evidence_v2`; `none` is fuel that ran out.
  unfoldable pub build_source_evidence_v2 :
      Unicode
      → V3Context
      → Limits
      → List SupersededQuote
      → Option (Built (Envelope SourceEvidenceV2Item))
  build_source_evidence_v2 u v3 limits superseded = elim (checked_items limits v3) [
    | refused e ↦ some (refused e)
    | built items ↦
        let (candidates, no_candidates) =
          eligible_of v2_tokens_of v2_text_of v2_ranked v2_candidate 1 items in
        let eligible = demote_superseded u v2_text_of superseded candidates in
        let (selected, left_out) =
          select v2_tokens_of v2_text_of v2_ranked limits 0 0 0
            (selection_order limits.max_items eligible) in
        shrink (rank_from v2_tokens_of v2_text_of v2_ranked 1) v2_payload v2_canonical_size
          valid_v2_envelope (suc (length selected)) limits.max_bytes selected
          (no_candidates + left_out)
  ]
