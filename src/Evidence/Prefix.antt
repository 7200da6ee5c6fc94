-- ===== src/Evidence/Prefix.antt =====
-- The items of the first version of source evidence, but for their ranks: the first of those that a
-- context has.
use memry_os_lite.Prelude.{
  ℕ, ◌+◌, ◌<◌, ◌≡◌, refl, sym, ap, ◌∙◌, arith, codes, ◌||◌, leb, ltb, Bool-cases, Option-cases, inl,
  inr, Option, none, some, List, [], ◌∷◌, ◌++◌, map, length, concat_map, map-append, append_assoc,
  teq,
}
use memry_os_lite.Json.{str, get_field}
use memry_os_lite.Evidence.{
  Canonical, ContextLayerItem, Limits, eligible_of, select, rank_from, pop, utf8_length,
  max_total_text_bytes, max_item_text_bytes, valid_id, finite_score,
}
use memry_os_lite.Evidence.First.{
  SourceEvidenceItem, tokens_of, text_of, ranked, candidate, document_ids, enough_refs, guard,
}

abbrev pub listed {ℓ} : {A : Type ℓ} → Option A → List A
listed none = []
listed (some a) = a ∷ []

-- The candidates among the items of a context, without their ranks.
abbrev pub candidates : Canonical → List ContextLayerItem → List SourceEvidenceItem
candidates k = concat_map (λ i. listed (candidate k 0 i))

abbrev pub unranked : List SourceEvidenceItem → List SourceEvidenceItem
unranked = map (ranked 0)

-- The items are the first of the others, but for their ranks.
abbrev pub Begins : List SourceEvidenceItem → List SourceEvidenceItem → Type 0
Begins origin items = (rest : List SourceEvidenceItem) × (unranked items ++ rest ≡ origin)

abbrev map_option : {A B : Type 0} → (A → B) → Option A → Option B
map_option f none = none
map_option f (some a) = some (f a)

-- The rank is the only part of a candidate that its place gives.
candidate-ranked :
    (k : Canonical) (rank : ℕ) (i : ContextLayerItem)
    → map_option (ranked 0) (candidate k rank i) ≡ candidate k 0 i
unfolding candidate
candidate-ranked k rank i = elim (Option-cases (guard (teq i.layer (codes "archival")))) [
  | inl f ↦ rw (f) refl
  | inr (u1, e0) ↦ elim (Option-cases (valid_id (str i.item_id))) [
    | inl f ↦ rw (e0, f) refl
    | inr (item_id, e1) ↦
        elim (Option-cases (valid_id (get_field (codes "archive_id") i.metadata))) [
          | inl f ↦ rw (e0, e1, f) refl
          | inr (archive_id, e2) ↦
              elim (Option-cases (valid_id (get_field (codes "document_id") i.metadata))) [
                | inl f ↦ rw (e0, e1, e2, f) refl
                | inr (document_id, e3) ↦
                    elim (Option-cases (guard (leb (utf8_length i.text) max_item_text_bytes))) [
                      | inl f ↦ rw (e0, e1, e2, e3, f) refl
                      | inr (u2, e4) ↦ elim (Option-cases (document_ids i.source_refs)) [
                        | inl f ↦ rw (e0, e1, e2, e3, e4, f) refl
                        | inr (refs, e5) ↦ elim (Option-cases (guard (enough_refs (length refs)))) [
                          | inl f ↦ rw (e0, e1, e2, e3, e4, e5, f) refl
                          | inr (u3, e6) ↦
                              elim (Option-cases
                                (finite_score k (get_field (codes "score") i.metadata))) [
                                  | inl f ↦ rw (e0, e1, e2, e3, e4, e5, e6, f) refl
                                  | inr (score, e7) ↦ rw (e0, e1, e2, e3, e4, e5, e6, e7) refl
                                ]
                        ]
                      ]
                    ]
              ]
        ]
  ]
]

unranked-eligible_of :
    (k : Canonical) (rank : ℕ) (items : List ContextLayerItem)
    → unranked (eligible_of tokens_of text_of ranked (candidate k) rank items).0
      ≡ candidates k items
unfolding eligible_of
unranked-eligible_of k rank [] = refl
unranked-eligible_of k rank (i ∷ is) = elim (Option-cases (candidate k rank i)) [
  | inl e ↦
      let same : candidate k 0 i ≡ none = sym (rw e at (candidate-ranked k rank i)) in
      rw (e, eligible_of, same) (unranked-eligible_of k rank is)
  | inr (c, e) ↦
      let same : candidate k 0 i ≡ some (ranked 0 c) = sym (rw e at (candidate-ranked k rank i)) in
      rw (e, eligible_of, same) (ap (◌∷◌ (ranked 0 c)) (unranked-eligible_of k (rank + 1) is))
]

select-first :
    (limits : Limits) (count t b : ℕ) (cs : List SourceEvidenceItem)
    → (rest : List SourceEvidenceItem) × ((select tokens_of text_of ranked limits count t b cs).0
          ++ rest
        ≡ cs)
unfolding select
select-first limits count t b [] = ([], refl)
select-first limits count t b (c ∷ cs) =
    let (rest, e) =
      select-first limits (count + 1) (t + tokens_of c) (b + utf8_length (text_of c)) cs in
    elim (Bool-cases (
      leb limits.max_items count
      || ltb limits.max_tokens (t + tokens_of c)
      || ltb max_total_text_bytes (b + utf8_length (text_of c)))) [
        | inl f ↦ (c ∷ cs, rw (f, select) refl)
        | inr f ↦ (rest, rw (f, select) (ap (◌∷◌ c) e))
      ]

-- What is selected begins the candidates.
pub Begins-select :
    (k : Canonical) (limits : Limits) (items : List ContextLayerItem)
    → Begins
        (candidates k items)
        (select tokens_of text_of ranked limits 0 0 0
          (eligible_of tokens_of text_of ranked (candidate k) 1 items).0).0
Begins-select k limits items =
    let eligible = (eligible_of tokens_of text_of ranked (candidate k) 1 items).0 in
    let (rest, e) = select-first limits 0 0 0 eligible in
    (
      unranked rest,
      sym (map-append (ranked 0) (select tokens_of text_of ranked limits 0 0 0 eligible).0 rest)
          ∙ (ap unranked e ∙ unranked-eligible_of k 1 items),
    )

unranked-rank_from :
    (n : ℕ) (cs : List SourceEvidenceItem)
    → unranked (rank_from tokens_of text_of ranked n cs) ≡ unranked cs
unfolding rank_from
unranked-rank_from n [] = refl
unranked-rank_from n (c ∷ cs) = ap (◌∷◌ (ranked 0 c)) (unranked-rank_from (n + 1) cs)

pub Begins-rank_from :
    (n : ℕ) (origin cs : List SourceEvidenceItem)
    → Begins origin cs
    → Begins origin (rank_from tokens_of text_of ranked n cs)
Begins-rank_from n origin cs (rest, e) = (rest, ap (λ t. t ++ rest) (unranked-rank_from n cs) ∙ e)

pop-last :
    (cs : List SourceEvidenceItem)
    → 0 < length cs
    → (c : SourceEvidenceItem) × (pop cs ++ c ∷ [] ≡ cs)
unfolding pop
pop-last [] h = absurd (omega (arith, h))
pop-last (c ∷ []) h = (c, refl)
pop-last (c ∷ d ∷ cs) h = let (l, e) = pop-last (d ∷ cs) (omega arith) in (l, ap (◌∷◌ c) e)

pub Begins-pop :
    (origin cs : List SourceEvidenceItem)
    → 0 < length cs
    → Begins origin cs
    → Begins origin (pop cs)
Begins-pop origin cs h (rest, e) =
    let (l, f) = pop-last cs h in
    (
      ranked 0 l ∷ rest,
      sym (append_assoc (unranked (pop cs)) (ranked 0 l ∷ []) rest)
          ∙ (ap (λ t. t ++ rest) (sym (map-append (ranked 0) (pop cs) (l ∷ [])))
              ∙ (ap (λ t. unranked t ++ rest) f ∙ e)),
    )
