-- ===== src/Examples/Evidence.antt =====
-- Source evidence of a concrete context.
use memry_os_lite.Prelude.{
  strip_prefix, ℕ, ◌+◌, ◌*◌, ◌-◌, ◌/◌, ◌≡◌, ◌⊎◌, refl, arith, Text, codes, true, false, Option,
  none, some, List, [], ◌∷◌, length, All, teq, leb, if◌then◌else◌,
}
use memry_os_lite.Json.{
  Json, null, number, str, arr, obj, Items, nil, item, Fields, field, end, get_field, field_of,
}
use memry_os_lite.Supersede.{demote_superseded}
use memry_os_lite.Evidence.{
  shrink, utf8_length, rank_from, select, eligible_of, valid_id, finite_score, is_digest, pop,
  total_text_bytes, total_tokens, Canonical, CanonicalLaws, ContextLayerItem, context, Limits,
  Envelope, EvidenceError, validation_error, Built, built, refused, checked_items,
}
use memry_os_lite.Evidence.First.{
  canonical_size, payload, candidate, document_ids, valid_envelope, valid_item, ranks_from,
  SourceEvidenceItem, build_source_evidence, validate_source_evidence,
}
use memry_os_lite.Evidence.Building.{IsEnvelope, build_source_evidence-IsBuilt, validate-build}
use memry_os_lite.Evidence.Second.{
  v2_canonical_size, v2_payload, v2_candidate, valid_v2_envelope, valid_v2_item, valid_v2_ref,
  v2_ranks_from, build_source_evidence_v2,
}
use memry_os_lite.Evidence.Passages.{
  public_refs, optional_score, source_complete, selection_order, pick, at_index, range_from,
  replace_derived, SourceEvidenceV2Item,
}
use memry_os_lite.Evidence.Assembly.{HasScore, IsV2Envelope, build_source_evidence_v2-IsBuilt}
use memry_os_lite.Examples.Base.{ascii}

-- A value by how many parts it has, in place of its JSON.
mutual
  parts : Json → ℕ
  parts (arr is) = 1 + parts_items is
  parts (obj fs) = 1 + parts_fields fs
  parts null = 2
  parts _ = 1

  parts_items : Items → ℕ
  parts_items nil = 0
  parts_items (item j is) = parts j + parts_items is

  parts_fields : Fields → ℕ
  parts_fields end = 0
  parts_fields (field key j fs) = 1 + parts j + parts_fields fs

-- 64 digits, of which one tells odd parts from even ones.
abbrev sixty_three : Text
sixty_three = codes "000000000000000000000000000000000000000000000000000000000000000"

abbrev last_bit : Text → ℕ
last_bit [] = 48
last_bit (c ∷ s) = if leb (c - c / 2 * 2) 0 then 48 else 49

parted : Canonical
unfolding parts
parted = record {
  dumps = λ j. parts j ∷ [];
  sha256_hex = λ t. last_bit t ∷ sixty_three;
  finite_float = λ j. some j;
  count_tokens = length;
}

bit-is_hex : (t : Text) → (leb 48 (last_bit t) ≡ true) × (leb (last_bit t) 57 ≡ true)
bit-is_hex [] = (refl, refl)
bit-is_hex (c ∷ s) = ground arith

parted-laws : CanonicalLaws parted
unfolding parted
parted-laws = record { hex_length = λ t. refl; hex_digits = λ t. ground (arith, bit-is_hex t) }

abbrev metadata : Fields → Fields
metadata rest =
    field (codes "archive_id") (str (codes "archive"))
      (field (codes "document_id") (str (codes "document")) rest)

abbrev scored : Fields
scored = field (codes "score") (number 1) end

abbrev passage : Text → Text → Fields → ContextLayerItem
passage id text fields = record {
  layer = codes "archival";
  item_id = id;
  text = text;
  source_refs =
      record { source_type = codes "document"; source_id = codes "document"; session_id = none }
      ∷ [];
  metadata = metadata fields;
}

-- Two passages with scores, and limits for one of them.
abbrev passages : List ContextLayerItem
passages =
    passage (codes "p1") (codes "monday") scored ∷ passage (codes "p2") (codes "friday") scored ∷ []

abbrev limits : Limits
limits = record { max_items = 8; max_tokens = 10; max_bytes = 1000 }

abbrev envelope_of : Option (Built (Envelope SourceEvidenceItem)) → Envelope SourceEvidenceItem
envelope_of (some (built e)) = e
envelope_of _ = record {
  items = [];
  omitted_count = 0;
  estimated_tokens = 0;
  truncated = false;
  diagnostics_digest = [];
}

passages-scored : All HasScore passages
unfolding get_field teq
passages-scored = (refl, (refl, tt))

-- The builders, as they compute.
build : List ContextLayerItem → Option (Built (Envelope SourceEvidenceItem))
unfolding build_source_evidence checked_items shrink canonical_size utf8_length parted payload
    rank_from select eligible_of candidate teq valid_id get_field document_ids finite_score
    valid_envelope valid_item ranks_from is_digest pop total_text_bytes total_tokens parts
    strip_prefix
build items = build_source_evidence parted (context items) limits

build_v2 : List ContextLayerItem → Option (Built (Envelope SourceEvidenceV2Item))
unfolding build build_source_evidence_v2 checked_items shrink v2_canonical_size utf8_length parted
    v2_payload rank_from select eligible_of v2_candidate teq valid_id get_field public_refs
    optional_score source_complete field_of finite_score valid_v2_envelope valid_v2_item
    valid_v2_ref v2_ranks_from is_digest pop total_text_bytes total_tokens parts strip_prefix
    selection_order pick at_index range_from replace_derived demote_superseded
build_v2 items = build_source_evidence_v2 parted ascii (context items) limits []

abbrev envelope : Envelope SourceEvidenceItem
envelope = envelope_of (build passages)

-- The second passage has no room.
is_built : build_source_evidence parted (context passages) limits ≡ some (built envelope)
unfolding build
is_built = refl

omits_one : envelope.omitted_count ≡ 1
unfolding build
omits_one = refl

build_source_evidence-IsBuilt_example :
    (r : Built (Envelope SourceEvidenceItem)) × (build_source_evidence parted
        (context passages)
        limits
      ≡ some r)
    × (((e : EvidenceError) × (checked_items limits (context passages) ≡ refused e)
          × (r ≡ refused e))
        ⊎ ((items : List ContextLayerItem) × (checked_items limits (context passages) ≡ built items)
            × IsEnvelope parted limits items r))
build_source_evidence-IsBuilt_example =
    build_source_evidence-IsBuilt parted parted-laws limits (context passages)

validate-build_example : validate_source_evidence parted envelope ≡ built envelope
validate-build_example =
    validate-build parted parted-laws limits (context passages) envelope is_built

build_source_evidence_v2-IsBuilt_example :
    (r : Built (Envelope SourceEvidenceV2Item)) × (build_source_evidence_v2 parted ascii
        (context passages)
        limits
        []
      ≡ some r)
    × (((e : EvidenceError) × (checked_items limits (context passages) ≡ refused e)
          × (r ≡ refused e))
        ⊎ IsV2Envelope parted limits r)
build_source_evidence_v2-IsBuilt_example =
    build_source_evidence_v2-IsBuilt parted parted-laws ascii limits [] passages passages-scored

-- An item without a score makes the second version refuse its own payload.
scoreless :
    build_v2 (passage (codes "p1") (codes "monday") end ∷ []) ≡ some (refused validation_error)
unfolding build_v2
scoreless = refl
