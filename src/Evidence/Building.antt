-- ===== src/Evidence/Building.antt =====
-- What `build_source_evidence` builds in its first version, and `validate_source_evidence` of it.
use memry_os_lite.Prelude.{
  ℕ, suc, ◌+◌, ◌≤◌, ◌<◌, ◌≡◌, ◌⊎◌, inl, inr, refl, arith, Bool, true, false, ltb, some, List, [],
  length, All,
}
use memry_os_lite.Evidence.{
  Canonical, CanonicalLaws, ContextLayerItem, V3Context, Limits, Envelope, EvidenceError, Built,
  built, refused, empty_envelope_exceeds_byte_limit, checked_items, eligible_of, select, rank_from,
  total_tokens, total_text_bytes, pop, max_total_text_bytes, default_max_items, default_max_tokens,
  default_max_bytes, digest,
}
use memry_os_lite.Evidence.Selection.{
  eligible_of-counts, All-eligible_of, select-IsSelected, All-select, rank_from-measures,
  All-rank_from, pop-measures, All-pop,
}
use memry_os_lite.Evidence.Shrinking.{IsShrunk, Keeps, shrink-IsShrunk}
use memry_os_lite.Evidence.Prefix.{Begins, candidates, Begins-select, Begins-rank_from, Begins-pop}
use memry_os_lite.Evidence.First.{
  SourceEvidenceItem, tokens_of, text_of, ranked, candidate, payload, canonical_size,
  valid_envelope, build_source_evidence, validate_source_evidence, unsigned_json, same_flag,
}
use memry_os_lite.Evidence.Accepted.{
  Sound, Sound-candidate, Sound-ranked, all-rank_from, ranks_from-rank_from,
  is_digest-digest_of_text, teq_self,
}

pub same_flag_refl : (b : Bool) → same_flag b b ≡ true
same_flag_refl true = refl
same_flag_refl false = refl

module _ (k : Canonical) (laws : CanonicalLaws k) (limits : Limits) where
  abbrev tokens : List SourceEvidenceItem → ℕ
  tokens = total_tokens tokens_of text_of ranked

  abbrev bytes : List SourceEvidenceItem → ℕ
  bytes = total_text_bytes tokens_of text_of ranked

  abbrev rerank : List SourceEvidenceItem → List SourceEvidenceItem
  rerank = rank_from tokens_of text_of ranked 1

  -- The limits of the builder are those of the models, or lower.
  pub record IsLimited : Type 0 where
    pub items_limit : limits.max_items ≤ default_max_items
    pub tokens_limit : limits.max_tokens ≤ default_max_tokens
    pub bytes_limit : limits.max_bytes ≤ default_max_bytes

  -- The items that are held, and how many are omitted, of the items of a context.
  pub record Held (context_items : List ContextLayerItem) (items : List SourceEvidenceItem)
      (omitted : ℕ) : Type 0 where
    pub counted : length items + omitted ≡ length context_items
    pub begins : Begins (candidates k context_items) items
    pub few : length items ≤ limits.max_items
    pub tokens_in : tokens items ≤ limits.max_tokens
    pub bytes_in : bytes items ≤ max_total_text_bytes
    pub sound : All (Sound k laws) items

  module _ (context_items : List ContextLayerItem) where
    measures :
        (n : ℕ) (cs : List SourceEvidenceItem)
        → (length (rank_from tokens_of text_of ranked n cs) ≡ length cs)
          × (tokens (rank_from tokens_of text_of ranked n cs) ≡ tokens cs)
          × (bytes (rank_from tokens_of text_of ranked n cs) ≡ bytes cs)
    measures n cs = rank_from-measures tokens_of text_of ranked (λ n c. refl) (λ n c. refl) n cs

    rerank-Held :
        (cs : List SourceEvidenceItem) (n : ℕ)
        → Held context_items cs n
        → Held context_items (rerank cs) n
    rerank-Held cs n h =
        let m = measures 1 cs in
        record {
          counted = omega (arith, m, h.counted);
          begins = Begins-rank_from 1 (candidates k context_items) cs h.begins;
          few = omega (arith, m, h.few);
          tokens_in = omega (arith, m, h.tokens_in);
          bytes_in = omega (arith, m, h.bytes_in);
          sound =
              All-rank_from tokens_of text_of ranked (Sound k laws) (Sound-ranked k laws) 1 cs
                h.sound;
        }

    pop-Held :
        (cs : List SourceEvidenceItem) (n : ℕ)
        → 0 < length cs
        → Held context_items cs n
        → Held context_items (pop cs) (n + 1)
    pop-Held cs n some_of h =
        let m = pop-measures tokens_of text_of ranked cs in
        record {
          counted = omega (arith, m, h.counted, some_of);
          begins = Begins-pop (candidates k context_items) cs some_of h.begins;
          few = omega (arith, m, h.few);
          tokens_in = omega (arith, m, h.tokens_in);
          bytes_in = omega (arith, m, h.bytes_in);
          sound = All-pop (Sound k laws) cs h.sound;
        }

    valid-Held :
        (l : IsLimited) (cs : List SourceEvidenceItem) (n : ℕ)
        → Held context_items cs n
        → valid_envelope k (payload k (rerank cs) n) ≡ true
    unfolding valid_envelope payload
    valid-Held l cs n h =
        let m = measures 1 cs in
        ground (
          arith,
          m,
          h.few,
          h.tokens_in,
          h.bytes_in,
          l.items_limit,
          l.tokens_limit,
          all-rank_from k laws 1 cs (omega arith) h.sound,
          ranks_from-rank_from k laws 1 cs,
          same_flag_refl (ltb 0 n),
          is_digest-digest_of_text k laws (k.dumps (unsigned_json k (payload k (rerank cs) n))),
          teq_self (digest k (unsigned_json k (payload k (rerank cs) n))),
        )

    Held-keeps :
        (l : IsLimited)
        → Keeps rerank (payload k) (canonical_size k) (valid_envelope k) (Held context_items)
    Held-keeps l = record {
      reranked = rerank-Held;
      popped = pop-Held;
      measured =
          λ cs. omega (arith, pop-measures tokens_of text_of ranked (rerank cs), measures 1 cs);
      lengthy = λ cs. (measures 1 cs).0;
      accepted = valid-Held l;
    }

-- An envelope for the items of a context, within the limits: its items are, but for their ranks, the
-- first candidates of the context, and the others of the context are counted as omitted.
pub record IsBounded (k : Canonical) (limits : Limits) (context_items : List ContextLayerItem)
    (e : Envelope SourceEvidenceItem) : Type 0 where
  pub counted : length e.items + e.omitted_count ≡ length context_items
  pub begins : Begins (candidates k context_items) e.items
  pub items : length e.items ≤ limits.max_items
  pub tokens_in : e.estimated_tokens ≤ limits.max_tokens
  pub bytes_in : canonical_size k e ≤ limits.max_bytes
  pub valid : valid_envelope k e ≡ true

-- How the build for a list of items ends.
abbrev pub IsEnvelope :
    Canonical → Limits → List ContextLayerItem → Built (Envelope SourceEvidenceItem) → Type 0
IsEnvelope k limits context_items r =
    ((e : Envelope SourceEvidenceItem) × (r ≡ built e) × IsBounded k limits context_items e)
    ⊎ ((r ≡ refused empty_envelope_exceeds_byte_limit)
        × (limits.max_bytes < canonical_size k (payload k [] (length context_items))))

pub Built-cases :
    {A : Type 0} (r : Built A) → ((a : A) × (r ≡ built a)) ⊎ ((e : EvidenceError) × (r ≡ refused e))
Built-cases (built a) = inl (a, refl)
Built-cases (refused e) = inr (e, refl)

pub checked_items-limits :
    (limits : Limits) (v3 : V3Context) (items : List ContextLayerItem)
    → checked_items limits v3 ≡ built items
    → (limits.max_items ≤ default_max_items)
      × (limits.max_tokens ≤ default_max_tokens)
      × (limits.max_bytes ≤ default_max_bytes)
unfolding checked_items
checked_items-limits limits v3 items e = ground (arith, e)

module _ (k : Canonical) (laws : CanonicalLaws k) (limits : Limits) where
  -- The items that are selected first.
  selected-Held :
      (items : List ContextLayerItem)
      → let eligible = eligible_of tokens_of text_of ranked (candidate k) 1 items in
        let selected = select tokens_of text_of ranked limits 0 0 0 eligible.0 in
        Held k laws limits items selected.0 (eligible.1 + selected.1)
  selected-Held items =
      let eligible = eligible_of tokens_of text_of ranked (candidate k) 1 items in
      let s =
        select-IsSelected tokens_of text_of ranked limits 0 0 0 eligible.0 (omega arith)
          (omega arith) (omega arith) in
      record {
        counted =
            omega
              (arith, s.counted, eligible_of-counts tokens_of text_of ranked (candidate k) 1 items);
        begins = Begins-select k limits items;
        few = omega (arith, s.items);
        tokens_in = omega (arith, s.tokens_in);
        bytes_in = omega (arith, s.bytes_in);
        sound = All-select tokens_of text_of ranked (Sound k laws) limits 0 0 0 eligible.0 (
            All-eligible_of tokens_of text_of ranked (Sound k laws) (candidate k)
              (Sound-candidate k laws) 1 items);
      }

  Held-IsBounded :
      (context_items : List ContextLayerItem) (items : List SourceEvidenceItem) (omitted : ℕ)
      → Held k laws limits context_items items omitted
      → valid_envelope k (payload k items omitted) ≡ true
      → canonical_size k (payload k items omitted) ≤ limits.max_bytes
      → IsBounded k limits context_items (payload k items omitted)
  unfolding payload
  Held-IsBounded context_items items omitted h valid small = record {
    counted = h.counted;
    begins = h.begins;
    items = h.few;
    tokens_in = h.tokens_in;
    bytes_in = small;
    valid = valid;
  }

  shrunk-IsEnvelope :
      (context_items : List ContextLayerItem) (r : Built (Envelope SourceEvidenceItem))
      → IsShrunk
          (rerank k laws limits)
          (payload k)
          (canonical_size k)
          (valid_envelope k)
          (Held k laws limits context_items)
          limits.max_bytes
          r
      → IsEnvelope k limits context_items r
  unfolding rank_from
  shrunk-IsEnvelope context_items r (inl (items, omitted, h, e, valid, small)) =
      inl (payload k items omitted, e, Held-IsBounded context_items items omitted h valid small)
  shrunk-IsEnvelope context_items r (inr (omitted, h, e, large)) =
      let same : omitted ≡ length context_items = omega (arith, h.counted) in
      inr (e, rw same at large)

-- The build of an envelope ends, for every context and all limits. It is refused by the guards, as
-- they refuse; or it gives an envelope that its own model accepts, which holds at most `max_items`
-- items and `max_tokens` tokens in at most `max_bytes` bytes, whose items are, but for their ranks,
-- the first candidates of the context in its order, and whose items and omitted items are as many
-- as the items of the context; or it is refused because the empty envelope has more than
-- `max_bytes` bytes.
pub build_source_evidence-IsBuilt :
    (k : Canonical) (laws : CanonicalLaws k) (limits : Limits) (v3 : V3Context)
    → (r : Built (Envelope SourceEvidenceItem)) × (build_source_evidence k v3 limits ≡ some r)
      × (((e : EvidenceError) × (checked_items limits v3 ≡ refused e) × (r ≡ refused e))
          ⊎ ((items : List ContextLayerItem) × (checked_items limits v3 ≡ built items)
              × IsEnvelope k limits items r))
unfolding build_source_evidence
build_source_evidence-IsBuilt k laws limits v3 = elim (Built-cases (checked_items limits v3)) [
  | inr (e, f) ↦ (refused e, rw (f, build_source_evidence) refl, inl (e, f, refl))
  | inl (items, f) ↦
      let (few, cheap, small) = checked_items-limits limits v3 items f in
      let eligible = eligible_of tokens_of text_of ranked (candidate k) 1 items in
      let selected = select tokens_of text_of ranked limits 0 0 0 eligible.0 in
      let (r, made, shrunk) =
        shrink-IsShrunk (rerank k laws limits) (payload k) (canonical_size k) (valid_envelope k)
          (Held k laws limits items)
          (Held-keeps k laws limits items
            (record { items_limit = few; tokens_limit = cheap; bytes_limit = small }))
          (suc (length selected.0)) limits.max_bytes selected.0 (eligible.1 + selected.1)
          (omega arith) (selected-Held k laws limits items) in
      (
        r,
        rw (f, build_source_evidence) made,
        inr (items, f, shrunk-IsEnvelope k laws limits items r shrunk),
      )
]

-- `validate_source_evidence` accepts every envelope that is built, and returns it.
pub validate-build :
    (k : Canonical) (laws : CanonicalLaws k) (limits : Limits) (v3 : V3Context)
    (e : Envelope SourceEvidenceItem)
    → build_source_evidence k v3 limits ≡ some (built e)
    → validate_source_evidence k e ≡ built e
unfolding validate_source_evidence
validate-build k laws limits v3 e made =
    let (r, made', how) = build_source_evidence-IsBuilt k laws limits v3 in
    let same : r ≡ built e = cc in
    elim how [
      | inl (err, _, f) ↦ absurd cc
      | inr (items, f, inr (g, _)) ↦ absurd cc
      | inr (items, f, inl (e', g, b)) ↦
          let eq : e' ≡ e = cc in
          let b' : IsBounded k limits items e = rw eq at b in
          ground (arith, b'.valid, b'.bytes_in, (checked_items-limits limits v3 items f).2)
    ]
