-- ===== src/Evidence/Assembly.antt =====
-- What the second version of source evidence builds of a context whose items have scores.
use memry_os_lite.Prelude.{
  ℕ, suc, ◌+◌, ◌≤◌, ◌<◌, ◌≡◌, ◌⊎◌, inl, inr, refl, ap, arith, codes, true, false, ltb, Option-cases,
  some, List, [], ◌∷◌, length, all, All,
}
use memry_os_lite.Unicode.{Unicode}
use memry_os_lite.Json.{get_field, is_null}
use memry_os_lite.Supersede.{SupersededQuote, demote_superseded}
use memry_os_lite.Evidence.{
  Canonical, CanonicalLaws, ContextLayerItem, context, Limits, Envelope, EvidenceError, Built,
  built, refused, empty_envelope_exceeds_byte_limit, checked_items, eligible_of, select, rank_from,
  total_tokens, total_text_bytes, pop, max_total_text_bytes, default_max_items, default_max_tokens,
  default_max_bytes, digest,
}
use memry_os_lite.Evidence.Selection.{
  select-IsSelected, All-select, rank_from-measures, All-rank_from, pop-measures, All-pop,
}
use memry_os_lite.Evidence.Shrinking.{IsShrunk, Keeps, shrink-IsShrunk}
use memry_os_lite.Evidence.Building.{same_flag_refl, Built-cases, checked_items-limits}
use memry_os_lite.Evidence.Second.{
  v2_candidate, v2_payload, v2_canonical_size, valid_v2_item, valid_v2_envelope, v2_ranks_from,
  build_source_evidence_v2, v2_unsigned,
}
use memry_os_lite.Evidence.Passages.{
  SourceEvidenceV2Item, v2_tokens_of, v2_text_of, v2_ranked, selection_order,
}
use memry_os_lite.Evidence.Scored.{
  Scored, Scored-candidate, All-selection_order, All-demote_superseded, items_json-Scored,
}
use memry_os_lite.Evidence.Accepted.{is_digest-digest_of_text, teq_self}

-- The score of the item is given.
abbrev pub HasScore : ContextLayerItem → Type 0
HasScore i = is_null (get_field (codes "score") i.metadata) ≡ false

module _ (k : Canonical) where
  Scored-ranked : (n : ℕ) (c : SourceEvidenceV2Item) → Scored k c → Scored k (v2_ranked n c)
  unfolding valid_v2_item
  Scored-ranked n c h = h

  all-v2_rank_from :
      (n : ℕ) (cs : List SourceEvidenceV2Item)
      → 1 ≤ n
      → All (Scored k) cs
      → all (valid_v2_item k) (rank_from v2_tokens_of v2_text_of v2_ranked n cs) ≡ true
  unfolding rank_from valid_v2_item
  all-v2_rank_from n [] h s = refl
  all-v2_rank_from n (c ∷ cs) h s =
      ground (arith, all-v2_rank_from (n + 1) cs (omega arith) s.1, s.0.0)

  v2_ranks_from-rank_from :
      (n : ℕ) (cs : List SourceEvidenceV2Item)
      → v2_ranks_from k n (rank_from v2_tokens_of v2_text_of v2_ranked n cs) ≡ true
  unfolding rank_from v2_ranks_from
  v2_ranks_from-rank_from n [] = refl
  v2_ranks_from-rank_from n (c ∷ cs) = ground (arith, v2_ranks_from-rank_from (n + 1) cs)

  -- The digest of the payload is that which the validator computes.
  unsigned-Scored :
      (cs : List SourceEvidenceV2Item) (n : ℕ)
      → All (Scored k) cs
      → v2_unsigned k false (v2_payload k cs n) ≡ v2_unsigned k true (v2_payload k cs n)
  unfolding v2_payload
  unsigned-Scored cs n h = rw (items_json-Scored k cs h) refl

  digest-v2_payload :
      (cs : List SourceEvidenceV2Item) (n : ℕ)
      → All (Scored k) cs
      → (v2_payload k cs n).diagnostics_digest ≡ digest k (v2_unsigned k true (v2_payload k cs n))
  unfolding v2_payload
  digest-v2_payload cs n h = ap (λ j. digest k j) (unsigned-Scored cs n h)

  All-eligible_of :
      (laws : CanonicalLaws k) (rank : ℕ) (items : List ContextLayerItem)
      → All HasScore items
      → All (Scored k) (eligible_of v2_tokens_of v2_text_of v2_ranked (v2_candidate k) rank items).0
  unfolding eligible_of
  All-eligible_of laws rank [] h = tt
  All-eligible_of laws rank (i ∷ is) h = elim (Option-cases (v2_candidate k rank i)) [
    | inl e ↦ rw (e, eligible_of) (All-eligible_of laws rank is h.1)
    | inr (c, e) ↦
        rw (e, eligible_of)
          (Scored-candidate k laws rank i c h.0 e, All-eligible_of laws (rank + 1) is h.1)
  ]

module _ (k : Canonical) (laws : CanonicalLaws k) (limits : Limits) where
  abbrev tokens : List SourceEvidenceV2Item → ℕ
  tokens = total_tokens v2_tokens_of v2_text_of v2_ranked

  abbrev bytes : List SourceEvidenceV2Item → ℕ
  bytes = total_text_bytes v2_tokens_of v2_text_of v2_ranked

  abbrev rerank : List SourceEvidenceV2Item → List SourceEvidenceV2Item
  rerank = rank_from v2_tokens_of v2_text_of v2_ranked 1

  -- The limits of the builder are those of the models, or lower.
  pub record IsLimited : Type 0 where
    pub items_limit : limits.max_items ≤ default_max_items
    pub tokens_limit : limits.max_tokens ≤ default_max_tokens
    pub bytes_limit : limits.max_bytes ≤ default_max_bytes

  -- The items that are held.
  pub record Held (items : List SourceEvidenceV2Item) (omitted : ℕ) : Type 0 where
    pub few : length items ≤ limits.max_items
    pub tokens_in : tokens items ≤ limits.max_tokens
    pub bytes_in : bytes items ≤ max_total_text_bytes
    pub sound : All (Scored k) items

  module _ where
    measures :
        (n : ℕ) (cs : List SourceEvidenceV2Item)
        → (length (rank_from v2_tokens_of v2_text_of v2_ranked n cs) ≡ length cs)
          × (tokens (rank_from v2_tokens_of v2_text_of v2_ranked n cs) ≡ tokens cs)
          × (bytes (rank_from v2_tokens_of v2_text_of v2_ranked n cs) ≡ bytes cs)
    measures n cs =
        rank_from-measures v2_tokens_of v2_text_of v2_ranked (λ n c. refl) (λ n c. refl) n cs

    rerank-Held : (cs : List SourceEvidenceV2Item) (n : ℕ) → Held cs n → Held (rerank cs) n
    rerank-Held cs n h =
        let m = measures 1 cs in
        record {
          few = omega (arith, m, h.few);
          tokens_in = omega (arith, m, h.tokens_in);
          bytes_in = omega (arith, m, h.bytes_in);
          sound =
              All-rank_from v2_tokens_of v2_text_of v2_ranked (Scored k) (Scored-ranked k) 1 cs
                h.sound;
        }

    pop-Held :
        (cs : List SourceEvidenceV2Item) (n : ℕ) → 0 < length cs → Held cs n → Held (pop cs) (n + 1)
    pop-Held cs n some_of h =
        let m = pop-measures v2_tokens_of v2_text_of v2_ranked cs in
        record {
          few = omega (arith, m, h.few);
          tokens_in = omega (arith, m, h.tokens_in);
          bytes_in = omega (arith, m, h.bytes_in);
          sound = All-pop (Scored k) cs h.sound;
        }

    valid-Held :
        (l : IsLimited) (cs : List SourceEvidenceV2Item) (n : ℕ)
        → Held cs n
        → valid_v2_envelope k (v2_payload k (rerank cs) n) ≡ true
    unfolding valid_v2_envelope v2_payload
    valid-Held l cs n h =
        let m = measures 1 cs in
        ground (
          arith,
          m,
          h.few,
          h.tokens_in,
          h.bytes_in,
          l.items_limit,
          l.tokens_limit,
          all-v2_rank_from k 1 cs (omega arith) h.sound,
          v2_ranks_from-rank_from k 1 cs,
          same_flag_refl (ltb 0 n),
          digest-v2_payload k (rerank cs) n (
              All-rank_from v2_tokens_of v2_text_of v2_ranked (Scored k) (Scored-ranked k) 1 cs
                h.sound),
          is_digest-digest_of_text k laws
              (k.dumps (v2_unsigned k true (v2_payload k (rerank cs) n))),
          teq_self (digest k (v2_unsigned k true (v2_payload k (rerank cs) n))),
        )

    Held-keeps :
        (l : IsLimited)
        → Keeps rerank (v2_payload k) (v2_canonical_size k) (valid_v2_envelope k) (Held)
    Held-keeps l = record {
      reranked = rerank-Held;
      popped = pop-Held;
      measured = λ cs.
          omega (arith, pop-measures v2_tokens_of v2_text_of v2_ranked (rerank cs), measures 1 cs);
      lengthy = λ cs. (measures 1 cs).0;
      accepted = valid-Held l;
    }

-- An envelope within the limits.
pub record IsBoundedV2 (k : Canonical) (limits : Limits) (e : Envelope SourceEvidenceV2Item)
    : Type 0 where
  pub items : length e.items ≤ limits.max_items
  pub tokens_in : e.estimated_tokens ≤ limits.max_tokens
  pub bytes_in : v2_canonical_size k e ≤ limits.max_bytes
  pub valid : valid_v2_envelope k e ≡ true

abbrev pub IsV2Envelope : Canonical → Limits → Built (Envelope SourceEvidenceV2Item) → Type 0
IsV2Envelope k limits r =
    ((e : Envelope SourceEvidenceV2Item) × (r ≡ built e) × IsBoundedV2 k limits e)
    ⊎ ((omitted : ℕ) × (r ≡ refused empty_envelope_exceeds_byte_limit)
        × (limits.max_bytes < v2_canonical_size k (v2_payload k [] omitted)))

module _ (k : Canonical) (laws : CanonicalLaws k) (limits : Limits) where
  -- The items that are selected first.
  selected-Held :
      (u : Unicode) (superseded : List SupersededQuote) (items : List ContextLayerItem) (n : ℕ)
      → All HasScore items
      → Held k laws limits
          (select v2_tokens_of v2_text_of v2_ranked limits 0 0 0 (
            selection_order limits.max_items (
              demote_superseded u v2_text_of superseded
                (eligible_of v2_tokens_of v2_text_of v2_ranked (v2_candidate k) 1 items).0))).0
          n
  selected-Held u superseded items n scores =
      let eligible = eligible_of v2_tokens_of v2_text_of v2_ranked (v2_candidate k) 1 items in
      let order =
        selection_order limits.max_items (demote_superseded u v2_text_of superseded eligible.0) in
      let s =
        select-IsSelected v2_tokens_of v2_text_of v2_ranked limits 0 0 0 order (omega arith)
          (omega arith) (omega arith) in
      record {
        few = omega (arith, s.items);
        tokens_in = omega (arith, s.tokens_in);
        bytes_in = omega (arith, s.bytes_in);
        sound = All-select v2_tokens_of v2_text_of v2_ranked (Scored k) limits 0 0 0 order (
            All-selection_order k (Scored k) limits.max_items _ (
              All-demote_superseded k u (Scored k) superseded eligible.0
                (All-eligible_of k laws 1 items scores)));
      }

  Held-IsBoundedV2 :
      (items : List SourceEvidenceV2Item) (omitted : ℕ)
      → Held k laws limits items omitted
      → valid_v2_envelope k (v2_payload k items omitted) ≡ true
      → v2_canonical_size k (v2_payload k items omitted) ≤ limits.max_bytes
      → IsBoundedV2 k limits (v2_payload k items omitted)
  unfolding v2_payload
  Held-IsBoundedV2 items omitted h valid small = record {
    items = h.few;
    tokens_in = h.tokens_in;
    bytes_in = small;
    valid = valid;
  }

  shrunk-IsV2Envelope :
      (r : Built (Envelope SourceEvidenceV2Item))
      → IsShrunk
          (rerank k laws limits)
          (v2_payload k)
          (v2_canonical_size k)
          (valid_v2_envelope k)
          (Held k laws limits)
          limits.max_bytes
          r
      → IsV2Envelope k limits r
  unfolding rank_from
  shrunk-IsV2Envelope r (inl (items, omitted, h, e, valid, small)) =
      inl (v2_payload k items omitted, e, Held-IsBoundedV2 items omitted h valid small)
  shrunk-IsV2Envelope r (inr (omitted, h, e, large)) = inr (omitted, e, large)

checked_items-context :
    (limits : Limits) (items items' : List ContextLayerItem)
    → checked_items limits (context items) ≡ built items'
    → items' ≡ items
unfolding checked_items
checked_items-context limits items items' e = ground (arith, e)

-- The build of a second version ends, for a context whose items all have a score that is not null,
-- and all limits and superseded quotes. It is refused by the guards, as they refuse; or it gives an
-- envelope that its own model accepts, which holds at most `max_items` items and `max_tokens`
-- tokens in at most `max_bytes` bytes; or it is refused because the empty envelope has more than
-- `max_bytes` bytes.
pub build_source_evidence_v2-IsBuilt :
    (k : Canonical) (laws : CanonicalLaws k) (u : Unicode) (limits : Limits)
    (superseded : List SupersededQuote) (items : List ContextLayerItem)
    → All HasScore items
    → (r : Built (Envelope SourceEvidenceV2Item)) × (build_source_evidence_v2 k u
          (context items)
          limits
          superseded
        ≡ some r)
      × (((e : EvidenceError) × (checked_items limits (context items) ≡ refused e)
            × (r ≡ refused e))
          ⊎ IsV2Envelope k limits r)
unfolding build_source_evidence_v2
build_source_evidence_v2-IsBuilt k laws u limits superseded items scores =
    elim (Built-cases (checked_items limits (context items))) [
      | inr (e, f) ↦ (refused e, rw (f, build_source_evidence_v2) refl, inl (e, f, refl))
      | inl (items', f) ↦
          let same = checked_items-context limits items items' f in
          let f' : checked_items limits (context items) ≡ built items = cc in
          let (few, cheap, small) = checked_items-limits limits (context items) items f' in
          let eligible = eligible_of v2_tokens_of v2_text_of v2_ranked (v2_candidate k) 1 items in
          let selected = select v2_tokens_of v2_text_of v2_ranked limits 0 0 0 (
            selection_order limits.max_items
              (demote_superseded u v2_text_of superseded eligible.0)) in
          let (r, made, shrunk) =
            shrink-IsShrunk (rerank k laws limits) (v2_payload k) (v2_canonical_size k)
              (valid_v2_envelope k) (Held k laws limits)
              (Held-keeps k laws limits
                (record { items_limit = few; tokens_limit = cheap; bytes_limit = small }))
              (suc (length selected.0)) limits.max_bytes selected.0 (eligible.1 + selected.1)
              (omega arith) (selected-Held k laws limits u superseded items _ scores) in
          (
            r,
            rw (f', build_source_evidence_v2) made,
            inr (shrunk-IsV2Envelope k laws limits r shrunk),
          )
    ]
