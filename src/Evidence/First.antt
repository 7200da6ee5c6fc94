-- ===== src/Evidence/First.antt =====
-- memoryos_eval/memory/source_evidence.py: the first version of the envelope, of archival items only.
use memry_os_lite.Prelude.{
  ℕ, suc, ◌+◌, Text, codes, Bool, true, false, ◌&&◌, leb, ltb, ◌==◌, if◌then◌else◌, Option, none,
  some, bind, List, [], ◌∷◌, map, length, all, teq,
}
use memry_os_lite.Json.{Json, number, str, boolean, obj, Fields, end, field, get_field}
use memry_os_lite.Evidence.{
  Canonical, SourceRef, ContextLayerItem, V3Context, byte_limit_exceeded, validation_error, Built,
  built, refused, Limits, Envelope, checked_items, eligible_of, select, rank_from, total_tokens,
  total_text_bytes, shrink, utf8_length, digest, digest_of_text, is_digest, valid_id, valid_id_text,
  finite_score, json_list, default_max_items, default_max_tokens, default_max_bytes,
  max_item_text_bytes, max_total_text_bytes, max_source_refs,
}

-- The type and the flag are constants of an item: its references are of documents, by their ids.
pub record SourceEvidenceItem : Type 0 where
  pub item_id : Text
  pub archive_id : Text
  pub document_id : Text
  pub source_ids : List Text
  pub text : Text
  pub estimated_tokens : ℕ
  pub content_sha256 : Text
  pub score : Json
  pub rank : ℕ

abbrev pub tokens_of : SourceEvidenceItem → ℕ
tokens_of i = i.estimated_tokens

abbrev pub text_of : SourceEvidenceItem → Text
text_of i = i.text

abbrev pub ranked : ℕ → SourceEvidenceItem → SourceEvidenceItem
ranked n i = record i { rank = n }

abbrev pub guard : Bool → Option (Unit {0})
guard true = some tt
guard false = none

-- The loop over the references: each is of a document, with an id that is valid.
unfoldable pub document_ids : List SourceRef → Option (List Text)
unfolding utf8_length
document_ids [] = some []
document_ids (r ∷ rs) =
    if teq r.source_type (codes "document") && valid_id_text r.source_id
    then bind (document_ids rs) (λ ids. some (r.source_id ∷ ids))
    else none

abbrev pub enough_refs : ℕ → Bool
enough_refs n = leb 1 n && leb n max_source_refs

abbrev pub same_flag : Bool → Bool → Bool
same_flag true b = b
same_flag false true = false
same_flag false false = true

module _ (k : Canonical) where
  -- `_candidate`
  unfoldable pub candidate : ℕ → ContextLayerItem → Option SourceEvidenceItem
  candidate rank i = bind (guard (teq i.layer (codes "archival"))) (λ _.
      bind (valid_id (str i.item_id)) (λ item_id.
        bind (valid_id (get_field (codes "archive_id") i.metadata)) (λ archive_id.
          bind (valid_id (get_field (codes "document_id") i.metadata)) (λ document_id.
            bind (guard (leb (utf8_length i.text) max_item_text_bytes)) (λ _.
              bind (document_ids i.source_refs) (λ refs.
                bind (guard (enough_refs (length refs))) (λ _.
                  bind (finite_score k (get_field (codes "score") i.metadata)) (λ score.
                    some (record {
                      item_id = item_id;
                      archive_id = archive_id;
                      document_id = document_id;
                      source_ids = refs;
                      text = i.text;
                      estimated_tokens = k.count_tokens i.text;
                      content_sha256 = digest_of_text k i.text;
                      score = score;
                      rank = rank;
                    })))))))))

  abbrev pub ref_json : Text → Json
  ref_json id = obj (
      field (codes "source_type") (str (codes "document")) (field (codes "source_id") (str id) end))

  abbrev pub item_json : SourceEvidenceItem → Json
  item_json i = obj (
      field (codes "item_id") (str i.item_id) (
        field (codes "archive_id") (str i.archive_id) (
          field (codes "document_id") (str i.document_id) (
            field (codes "source_refs") (json_list (map ref_json i.source_ids)) (
              field (codes "text") (str i.text) (
                field (codes "estimated_tokens") (number i.estimated_tokens) (
                  field (codes "content_sha256") (str i.content_sha256) (
                    field (codes "score") i.score (
                      field (codes "rank") (number i.rank)
                        (field (codes "truncated") (boolean false) end))))))))))

  -- The fields of an envelope, before those that follow.
  abbrev pub envelope_fields : Envelope SourceEvidenceItem → Fields → Fields
  envelope_fields e rest = field (codes "schema") (str (codes "memoryos_source_evidence/v1")) (
      field (codes "items") (json_list (map item_json e.items)) (
        field (codes "omitted_count") (number e.omitted_count) (
          field (codes "estimated_tokens") (number e.estimated_tokens)
            (field (codes "truncated") (boolean e.truncated) rest))))

  abbrev pub unsigned_json : Envelope SourceEvidenceItem → Json
  unsigned_json e = obj (envelope_fields e end)

  abbrev pub envelope_json : Envelope SourceEvidenceItem → Json
  envelope_json e =
      obj (envelope_fields e (field (codes "diagnostics_digest") (str e.diagnostics_digest) end))

  -- `_payload`
  unfoldable pub payload : List SourceEvidenceItem → ℕ → Envelope SourceEvidenceItem
  payload items omitted_count =
      let unsigned : Envelope SourceEvidenceItem = record {
        items = items;
        omitted_count = omitted_count;
        estimated_tokens = total_tokens tokens_of text_of ranked items;
        truncated = ltb 0 omitted_count;
        diagnostics_digest = [];
      } in
      record unsigned { diagnostics_digest = digest k (unsigned_json unsigned) }

  -- `len(_canonical_bytes(payload))`
  unfoldable pub canonical_size : Envelope SourceEvidenceItem → ℕ
  canonical_size e = utf8_length (k.dumps (envelope_json e))

  -- What `SourceEvidenceItem` accepts.
  unfoldable pub valid_item : SourceEvidenceItem → Bool
  valid_item i =
      valid_id_text i.item_id
      && valid_id_text i.archive_id
      && valid_id_text i.document_id
      && enough_refs (length i.source_ids)
      && all valid_id_text i.source_ids
      && leb (utf8_length i.text) max_item_text_bytes
      && is_digest i.content_sha256
      && leb 1 i.rank
      && teq i.content_sha256 (digest_of_text k i.text)

  -- `[item.rank for item in items] == list(range(first, ...))`
  unfoldable pub ranks_from : ℕ → List SourceEvidenceItem → Bool
  ranks_from first [] = true
  ranks_from first (i ∷ is) = i.rank == first && ranks_from (first + 1) is

  -- What `SourceEvidenceEnvelope` accepts.
  unfoldable pub valid_envelope : Envelope SourceEvidenceItem → Bool
  valid_envelope e =
      all valid_item e.items
      && leb (length e.items) default_max_items
      && leb e.estimated_tokens default_max_tokens
      && is_digest e.diagnostics_digest
      && ranks_from 1 e.items
      && e.estimated_tokens == total_tokens tokens_of text_of ranked e.items
      && leb (total_text_bytes tokens_of text_of ranked e.items) max_total_text_bytes
      && same_flag e.truncated (ltb 0 e.omitted_count)
      && teq e.diagnostics_digest (digest k (unsigned_json e))

  -- `build_source_evidence` with `schema_version="v1"`; `none` is fuel that ran out.
  unfoldable pub build_source_evidence :
      V3Context → Limits → Option (Built (Envelope SourceEvidenceItem))
  build_source_evidence v3 limits = elim (checked_items limits v3) [
    | refused e ↦ some (refused e)
    | built items ↦
        let (eligible, no_candidates) = eligible_of tokens_of text_of ranked candidate 1 items in
        let (selected, left_out) = select tokens_of text_of ranked limits 0 0 0 eligible in
        shrink (rank_from tokens_of text_of ranked 1) payload canonical_size valid_envelope
          (suc (length selected)) limits.max_bytes selected (no_candidates + left_out)
  ]

  -- `validate_source_evidence`, of an envelope of this version
  unfoldable pub validate_source_evidence :
      Envelope SourceEvidenceItem → Built (Envelope SourceEvidenceItem)
  validate_source_evidence e =
      if valid_envelope e
      then (if leb (canonical_size e) default_max_bytes
          then built e
          else refused byte_limit_exceeded)
      else refused validation_error
