-- ===== src/Evidence/Scored.antt =====
-- What the second version of source evidence builds of a context whose items have scores.
use memry_os_lite.Prelude.{
  ℕ, zero, suc, ◌≤◌, ◌≡◌, inl, inr, refl, arith, Text, codes, Bool, true, false, not, ◌&&◌, ◌||◌,
  leb, Bool-cases, Option-cases, Option, none, some, is_some, bind, List, [], ◌∷◌, map, keep,
  length, all, All, All-append, teq_iff,
}
use memry_os_lite.Unicode.{Unicode}
use memry_os_lite.Json.{Json, null, str, get_field, is_null}
use memry_os_lite.Supersede.{SupersededQuote, demote_superseded}
use memry_os_lite.Supersede.Marks.{demote_superseded-partition}
use memry_os_lite.Evidence.{
  Canonical, CanonicalLaws, SourceRef, ContextLayerItem, max_item_text_bytes, digest_of_text,
  valid_id, valid_id_text, utf8_length,
}
use memry_os_lite.Evidence.Second.{
  v2_candidate, valid_v2_ref, valid_v2_item, v2_item_json, short_id, v2_item_of,
}
use memry_os_lite.Evidence.Passages.{
  SourceEvidenceV2Item, v2_text_of, v2_ranked, public_refs, optional_score, at_index, pick,
  selection_order, is_document, is_message, valid_session, one_source_type, is_public_layer,
  is_archival, source_complete,
}
use memry_os_lite.Evidence.First.{guard, enough_refs}
use memry_os_lite.Evidence.Accepted.{is_digest-digest_of_text, teq_self}

length-le-utf8_length : (s : Text) → length s ≤ utf8_length s
unfolding utf8_length
length-le-utf8_length [] = omega arith
length-le-utf8_length (c ∷ s) = ground (arith, length-le-utf8_length s)

valid_id-short :
    (j : Json) (t : Text) → valid_id j ≡ some t → (leb 1 (length t) && leb (length t) 512) ≡ true
unfolding valid_id
valid_id-short (str s) t e = ground (arith, e, length-le-utf8_length s)
valid_id-short _ t e = cc

bind-some :
    {A : Type 0} {B : Type 0} (m : Option A) (f : A → Option B) (b : B)
    → bind m f ≡ some b
    → (a : A) × (m ≡ some a) × (f a ≡ some b)
bind-some none f b e = cc
bind-some (some a) f b e = (a, refl, e)

some_injective : {A : Type 0} (a b : A) → some a ≡ some b → a ≡ b
some_injective a b e = cc

guard-some : (b : Bool) (t : Unit {0}) → guard b ≡ some t → b ≡ true
guard-some true t e = refl
guard-some false t e = cc

module _ (k : Canonical) where
  short_id-valid_id : (j : Json) → short_id k (valid_id j) ≡ true
  unfolding valid_id
  short_id-valid_id (str s) = ground (arith, length-le-utf8_length s)
  short_id-valid_id _ = refl

  -- A reference that passes the tests of the loop.
  public_ref_lem :
      (r : SourceRef)
      → ((is_message r || is_document r)
          && valid_id_text r.source_id
          && (is_document r || is_some (valid_session r.session_id)))
        ≡ true
      → valid_v2_ref k (record r { session_id = valid_session r.session_id }) ≡ true
  unfolding valid_v2_ref utf8_length
  public_ref_lem r h = elim (Option-cases r.session_id) [
    | inl e ↦ ground (
      arith,
      e,
      h,
      length-le-utf8_length r.source_id,
      teq_iff r.source_type (codes "message"),
      teq_iff r.source_type (codes "document"),
    )
    | inr (id, e) ↦ ground (
      arith,
      e,
      h,
      length-le-utf8_length r.source_id,
      length-le-utf8_length id,
      teq_iff r.source_type (codes "message"),
      teq_iff r.source_type (codes "document"),
    )
  ]

  public_refs_lem :
      (rs refs : List SourceRef) → public_refs rs ≡ some refs → all (valid_v2_ref k) refs ≡ true
  unfolding public_refs valid_v2_ref
  public_refs_lem [] refs e = ground (arith, e)
  public_refs_lem (r ∷ rs) refs e = elim (Option-cases (public_refs rs)) [
    | inl f ↦ absurd (ground (arith, e, f))
    | inr (more, f) ↦ ground (arith, e, f, public_ref_lem r, public_refs_lem rs more f)
  ]

  optional_score_lem :
      (j : Json) (s : Option Json)
      → is_null j ≡ false
      → optional_score k j ≡ some s
      → is_some s ≡ true
  unfolding optional_score
  optional_score_lem null s n e = cc
  optional_score_lem j s n e = ground (arith, e)

  -- The item is accepted, once it has a rank, and has a score.
  abbrev pub Scored : SourceEvidenceV2Item → Type 0
  Scored i = (valid_v2_item k (v2_ranked 1 i) ≡ true) × (is_some i.score ≡ true)

  module _ (laws : CanonicalLaws k) where
    -- The item of a candidate, of its parts.
    Scored-parts :
        (rank : ℕ) (i : ContextLayerItem) (item_id : Text) (refs : List SourceRef)
        (score : Option Json)
        → is_public_layer i.layer ≡ true
        → valid_id (str i.item_id) ≡ some item_id
        → leb (utf8_length i.text) max_item_text_bytes ≡ true
        → public_refs i.source_refs ≡ some refs
        → (enough_refs (length refs) && one_source_type refs) ≡ true
        → (not (is_archival i.layer) || all is_document refs) ≡ true
        → (not (is_archival i.layer)
            || is_some (valid_id (get_field (codes "document_id") i.metadata)))
          ≡ true
        → valid_v2_item k (v2_ranked 1 (v2_item_of k rank i item_id refs score)) ≡ true
    unfolding valid_v2_item
    Scored-parts rank i item_id refs score layer id small some_refs enough doc has_doc =
        let digest_ok = is_digest-digest_of_text k laws i.text in
        let self = teq_self (digest_of_text k i.text) in
        let refs_ok = public_refs_lem i.source_refs refs some_refs in
        let id_ok = valid_id-short (str i.item_id) item_id id in
        let doc_ok = short_id-valid_id (get_field (codes "document_id") i.metadata) in
        ground (arith, digest_ok, self, refs_ok, id_ok, doc_ok)

    pub Scored-candidate :
        (rank : ℕ) (i : ContextLayerItem) (c : SourceEvidenceV2Item)
        → is_null (get_field (codes "score") i.metadata) ≡ false
        → v2_candidate k rank i ≡ some c
        → Scored c
    unfolding v2_candidate
    Scored-candidate rank i c n e =
        let (t1, layer, e1) = bind-some _ _ c e in
        let (item_id, id, e2) = bind-some _ _ c e1 in
        let (t2, small, e3) = bind-some _ _ c e2 in
        let (refs, some_refs, e4) = bind-some _ _ c e3 in
        let (t3, enough, e5) = bind-some _ _ c e4 in
        let (t4, doc, e6) = bind-some _ _ c e5 in
        let (t5, has_doc, e7) = bind-some _ _ c e6 in
        let (score, scored, e8) = bind-some _ _ c e7 in
        let (t6, complete, e9) =
          bind-some (guard (source_complete i.metadata))
            (λ _. some (v2_item_of k rank i item_id refs score)) c e8 in
        let same : v2_item_of k rank i item_id refs score ≡ c = some_injective _ c e9 in
        rw (← same) (
          Scored-parts rank i item_id refs score (guard-some _ t1 layer) id (guard-some _ t2 small)
              some_refs (guard-some _ t3 enough) (guard-some _ t4 doc) (guard-some _ t5 has_doc),
          optional_score_lem (get_field (codes "score") i.metadata) score n scored,
        )

  All-at_index :
      (P : SourceEvidenceV2Item → Type 0) (xs : List SourceEvidenceV2Item) (i : ℕ)
      → All P xs
      → All P (at_index xs i)
  unfolding at_index
  All-at_index P [] i h = tt
  All-at_index P (x ∷ xs) zero h = (h.0, tt)
  All-at_index P (x ∷ xs) (suc i) h = All-at_index P xs i h.1

  All-pick :
      (P : SourceEvidenceV2Item → Type 0) (xs : List SourceEvidenceV2Item) (is : List ℕ)
      → All P xs
      → All P (pick xs is)
  unfolding pick
  All-pick P xs [] h = tt
  All-pick P xs (i ∷ is) h =
      All-append P (at_index xs i) (pick xs is) (All-at_index P xs i h) (All-pick P xs is h)

  pub All-selection_order :
      (P : SourceEvidenceV2Item → Type 0) (n : ℕ) (xs : List SourceEvidenceV2Item)
      → All P xs
      → All P (selection_order n xs)
  unfolding selection_order
  All-selection_order P n xs h = All-pick P xs _ h

  All-keep :
      (P : SourceEvidenceV2Item → Type 0) (test : SourceEvidenceV2Item → Bool)
      (xs : List SourceEvidenceV2Item)
      → All P xs
      → All P (keep test xs)
  All-keep P test [] h = tt
  All-keep P test (x ∷ xs) h = elim (Bool-cases (test x)) [
    | inl e ↦ rw (e, keep) (h.0, All-keep P test xs h.1)
    | inr e ↦ rw (e, keep) (All-keep P test xs h.1)
  ]

  pub All-demote_superseded :
      (u : Unicode) (P : SourceEvidenceV2Item → Type 0) (marks : List SupersededQuote)
      (xs : List SourceEvidenceV2Item)
      → All P xs
      → All P (demote_superseded u v2_text_of marks xs)
  All-demote_superseded u P marks xs h =
      rw (demote_superseded-partition u v2_text_of marks xs)
        (All-append P _ _ (All-keep P _ xs h) (All-keep P _ xs h))

  -- The scores are all there, so that leaving out what is missing changes nothing.
  pub items_json-Scored :
      (cs : List SourceEvidenceV2Item)
      → All Scored cs
      → map (v2_item_json k false) cs ≡ map (v2_item_json k true) cs
  items_json-Scored [] h = refl
  items_json-Scored (c ∷ cs) h = elim (Option-cases c.score) [
    | inl e ↦ absurd (ground (arith, e, h.0.1))
    | inr (s, e) ↦ rw (e, items_json-Scored cs h.1) refl
  ]
