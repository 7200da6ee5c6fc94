-- ===== src/Recall/Vectors.antt =====
-- The bounds of the cache of embeddings, and what `similar` gives.
use memry_os_lite.Prelude.{
  suc, ◌-◌, ◌≤◌, ◌≡◌, refl, ap, arith, max, Text, Bool, true, Option, none, some, List, [], ◌∷◌,
  map, All, All-append, length, length-drop, Dict, get, text_le, text_le-total, text_le_trans,
  IsOrder, IsSorted, sort-IsSorted, sort, insert, Bool-cases, Option-cases, inl, inr,
}
use memry_os_lite.Floats.{Floats, FloatLaws}
use memry_os_lite.Recall.Embedding.{
  embedding_cache_size, vectors_of, evict, fill, missing_texts, move_to_end, embed, SimilarItem,
  SimilarRequest, SimilarPair, before_pair, pair_of, pairs_with, pairs, zip_items, similar,
}

length-vectors_of :
    {V : Type 0} (d : Dict V) (ks : List Text) {vs : List V}
    → vectors_of d ks ≡ some vs
    → length vs ≡ length ks
unfolding vectors_of
length-vectors_of d [] h = ground arith
length-vectors_of d (k ∷ ks) {vs} h = elim (Option-cases (get d k)) [
  | inl e ↦ absurd (ground arith)
  | inr (v, e) ↦ elim (Option-cases (vectors_of d ks)) [
    | inl r ↦ absurd (ground arith)
    | inr (rest, r) ↦ let more = length-vectors_of d ks r in ground arith
  ]
]

length-map : {A B : Type 0} (f : A → B) (xs : List A) → length (map f xs) ≡ length xs
length-map f [] = refl
length-map f (x ∷ xs) = ap suc (length-map f xs)

-- When `_embed` returns, it gives one vector for each text, and it leaves at most
-- `embedding_cache_size` vectors in the cache, or as many as there are texts.
pub embed-bounds :
    {V : Type 0} (sha256_hex : Text → Text) (embed_batch : List Text → Option (List V))
    (vectors : Dict V) (texts : List Text) {found : List V} {kept : Dict V}
    → embed sha256_hex embed_batch vectors texts ≡ some (found, kept)
    → (length found ≡ length texts) × (length kept ≤ max embedding_cache_size (length texts))
unfolding embed
embed-bounds sha256_hex embed_batch vectors texts {found} {kept} h =
    elim (Option-cases (fill embed_batch vectors (missing_texts sha256_hex vectors texts))) [
      | inl e ↦ absurd (ground arith)
      | inr (filled, e) ↦ elim (Option-cases (move_to_end filled (map sha256_hex texts))) [
        | inl m ↦ absurd (ground arith)
        | inr (moved, m) ↦
            let limit = max embedding_cache_size (length (map sha256_hex texts)) in
            elim (Option-cases (vectors_of (evict limit moved) (map sha256_hex texts))) [
              | inl v ↦ absurd (ground arith)
              | inr (vs, v) ↦
                  let many = length-vectors_of (evict limit moved) (map sha256_hex texts) v in
                  let same = length-map sha256_hex texts in
                  let few = length-drop (length moved - limit) moved in ground arith
            ]
      ]
    ]

module _ {A : Type 0} (le : A → A → Bool) (P : A → Type 0) where
  All-insert : (x : A) (ys : List A) → P x → All P ys → All P (insert le x ys)
  unfolding insert
  All-insert x [] p a = (p, tt)
  All-insert x (y ∷ ys) p a = elim (Bool-cases (le x y)) [
    | inl e ↦ rw (e, insert) (p, a)
    | inr e ↦ rw (e, insert) (a.0, All-insert x ys p a.1)
  ]

  All-sort : (xs : List A) → All P xs → All P (sort le xs)
  unfolding sort
  All-sort [] a = tt
  All-sort (x ∷ xs) a = All-insert x (sort le xs) a.0 (All-sort xs a.1)

module _ (f : Floats) (cosine : List f.Float → List f.Float → f.Float) (threshold : f.Float) where
  -- The score of a pair reaches the threshold, and its ids are in order.
  pub record IsSimilar (p : SimilarPair f) : Type 0 where
    pub near : f.le threshold p.score ≡ true
    pub ids : text_le p.a p.b ≡ true

  pair_of-IsSimilar :
      (i j : Text) (score : f.Float) → f.le threshold score ≡ true → IsSimilar (pair_of f i j score)
  unfolding pair_of
  pair_of-IsSimilar i j score h = elim (Bool-cases (text_le i j)) [
    | inl e ↦ rw (pair_of, e) (record { near = h; ids = e })
    | inr e ↦ rw (pair_of, e) (record { near = h; ids = text_le-total i j e })
  ]

  pairs_with-IsSimilar :
      (id : Text) (v : List f.Float) (rest : List (SimilarItem f × List f.Float))
      → All IsSimilar (pairs_with f cosine threshold id v rest)
  unfolding pairs_with
  pairs_with-IsSimilar id v [] = tt
  pairs_with-IsSimilar id v ((j, w) ∷ rest) =
      elim (Bool-cases (f.le threshold (f.round (cosine v w) 6))) [
        | inl e ↦
            rw (pairs_with, e)
              (pair_of-IsSimilar id j.id (f.round (cosine v w) 6) e, pairs_with-IsSimilar id v rest)
        | inr e ↦ rw (pairs_with, e) (pairs_with-IsSimilar id v rest)
      ]

  pairs-IsSimilar :
      (rows : List (SimilarItem f × List f.Float)) → All IsSimilar (pairs f cosine threshold rows)
  unfolding pairs
  pairs-IsSimilar [] = tt
  pairs-IsSimilar ((i, v) ∷ rest) =
      All-append IsSimilar (pairs_with f cosine threshold i.id v rest)
        (pairs f cosine threshold rest) (pairs_with-IsSimilar i.id v rest) (pairs-IsSimilar rest)

before_pair-IsOrder : (f : Floats) → FloatLaws f → IsOrder (before_pair f)
before_pair-IsOrder f laws = record {
  total = λ p q h. ground (
    arith,
    laws.le_total p.score q.score,
    laws.le_total q.score p.score,
    text_le-total p.a q.a,
    text_le-total q.a p.a,
    text_le-total p.b q.b,
  );
  trans = λ p q r h k. ground (
    arith,
    laws.le_total p.score q.score,
    laws.le_total q.score r.score,
    laws.le_total p.score r.score,
    laws.le_trans p.score q.score r.score,
    laws.le_trans r.score q.score p.score,
    laws.le_trans q.score r.score p.score,
    laws.le_trans r.score p.score q.score,
    laws.le_trans p.score r.score q.score,
    laws.le_trans q.score p.score r.score,
    text_le-total p.a q.a,
    text_le-total q.a r.a,
    text_le-total p.a r.a,
    text_le-total q.a p.a,
    text_le-total r.a q.a,
    text_le-total r.a p.a,
    text_le_trans p.a q.a r.a,
    text_le_trans r.a q.a p.a,
    text_le_trans q.a r.a p.a,
    text_le_trans r.a p.a q.a,
    text_le_trans p.a r.a q.a,
    text_le_trans q.a p.a r.a,
    text_le_trans p.b q.b r.b,
  );
}

-- The pairs that `similar` returns reach the threshold, have their ids in order, and come with
-- falling scores, equal scores by their ids; for a float order that is total and transitive.
pub similar-IsSimilar :
    (f : Floats) (laws : FloatLaws f) (client : Option (List Text → Option (List (List f.Float))))
    (cosine : List f.Float → List f.Float → f.Float) (request : SimilarRequest f)
    {found : List (SimilarPair f)}
    → similar f client cosine request ≡ some found
    → All (IsSimilar f cosine request.threshold) found × IsSorted (before_pair f) found
unfolding similar
similar-IsSimilar f laws none cosine request h = cc
similar-IsSimilar f laws (some embed_texts) cosine request {found} h =
    elim (Option-cases (embed_texts (map (λ i. i.text) request.items))) [
      | inl e ↦ absurd (ground arith)
      | inr (vectors, e) ↦
          let rows = pairs f cosine request.threshold (zip_items f request.items vectors) in
          let same : found ≡ sort (before_pair f) rows = ground arith in
          rw same (
            All-sort (before_pair f) (IsSimilar f cosine request.threshold) rows
                (pairs-IsSimilar f cosine request.threshold (zip_items f request.items vectors)),
            sort-IsSorted (before_pair f) (before_pair-IsOrder f laws) rows,
          )
    ]
