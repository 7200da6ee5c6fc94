-- ===== src/Recall/Embedding.antt =====
-- The cache of embeddings of `Recaller` in src/memoryos_lite/recall.py, the dense scores of a
-- request, and `POST /similar`; `cosine_similarity` of src/memoryos_lite/retrieval/base.py.
use memry_os_lite.Prelude.{
  ℕ, ◌-◌, max, Text, Bool, not, ◌&&◌, ◌||◌, ◌==◌, if◌then◌else◌, Option, none, some, bind, is_some,
  or_else, List, [], ◌∷◌, ◌++◌, map, each, drop, length, Dict, get, put, delete, keys, text_le,
  sort, is_space, strip,
}
use memry_os_lite.Floats.{Floats}
use memry_os_lite.Recall.{RecallRequest, RecallItem, Selection, recall, lexical_scores}

abbrev pub embedding_cache_size : ℕ
embedding_cache_size = 8192

module _ {V : Type 0} where
  -- `{key: text for key, text in zip(keys, texts) if key not in self._vectors}`
  unfoldable pub missing_texts : (Text → Text) → Dict V → List Text → Dict Text
  unfolding get put
  missing_texts sha256_hex vectors texts =
      each
        (λ d text.
          if is_some (get vectors (sha256_hex text)) then d else put d (sha256_hex text) text)
        [] texts

  -- `self._vectors.update(zip(missing, vectors))`
  unfoldable pub update : Dict V → List Text → List V → Dict V
  unfolding put
  update d [] vs = d
  update d (k ∷ ks) [] = d
  update d (k ∷ ks) (v ∷ vs) = update (put d k v) ks vs

  -- `move_to_end` of each key; `none` is its `KeyError`
  unfoldable pub move_to_end : Dict V → List Text → Option (Dict V)
  unfolding get delete
  move_to_end d [] = some d
  move_to_end d (k ∷ ks) = bind (get d k) λ v. move_to_end (delete d k ++ (k, v) ∷ []) ks

  -- `popitem(last=False)` while there are more than `limit`
  abbrev pub evict : ℕ → Dict V → Dict V
  evict limit d = drop (length d - limit) d

  -- `[self._vectors[key] for key in keys]`; `none` is a `KeyError`
  unfoldable pub vectors_of : Dict V → List Text → Option (List V)
  unfolding get
  vectors_of d [] = some []
  vectors_of d (k ∷ ks) = bind (get d k) λ v. bind (vectors_of d ks) λ vs. some (v ∷ vs)

  -- The step from the texts that are missing: `embed_batch`, of which `none` is an exception, and
  -- the `RuntimeError` for a batch of another size.
  unfoldable pub fill : (List Text → Option (List V)) → Dict V → Dict Text → Option (Dict V)
  unfolding update
  fill embed_batch vectors [] = some vectors
  fill embed_batch vectors (e ∷ missing) =
      bind (embed_batch (map (λ m. m.1) (e ∷ missing))) λ batch.
        if length batch == length (e ∷ missing)
        then some (update vectors (keys (e ∷ missing)) batch)
        else none

  -- `_embed`, with the cache as it leaves it; `none` is an exception
  unfoldable pub embed :
      (Text → Text) → (List Text → Option (List V)) → Dict V → List Text → Option (List V × Dict V)
  unfolding missing_texts fill move_to_end vectors_of
  embed sha256_hex embed_batch vectors texts =
      let ids = map sha256_hex texts in
      bind (fill embed_batch vectors (missing_texts sha256_hex vectors texts)) λ filled.
        bind (move_to_end filled ids) λ moved.
          let kept = evict (max embedding_cache_size (length ids)) moved in
          bind (vectors_of kept ids) λ found. some (found, kept)

module _ (f : Floats) where
  open f use {Float, of_nat, decimal, add, mul, div, sqrt, round, le}

  -- the loop of `cosine_similarity`, on (dot, na, nb)
  unfoldable pub dots : Float × Float × Float → List Float → List Float → Float × Float × Float
  dots (dot, na, nb) (x ∷ a) (y ∷ b) =
      dots (add dot (mul x y), add na (mul x x), add nb (mul y y)) a b
  dots s a b = s

  -- `x == 0.0`
  abbrev is_zero : Float → Bool
  is_zero x = le x (decimal 0 0) && le (decimal 0 0) x

  unfoldable pub cosine_similarity : List Float → List Float → Float
  unfolding dots
  cosine_similarity a b =
      let (dot, na, nb) = dots (decimal 0 0, decimal 0 0, decimal 0 0) a b in
      if length a == 0 || length b == 0 || is_zero na || is_zero nb
      then decimal 0 0
      else div dot (mul (sqrt na) (sqrt nb))

  -- The positive similarities of the items, by id.
  unfoldable pub positive_scores : List Float → List RecallItem → List (List Float) → Dict Float
  unfolding cosine_similarity
  positive_scores query (i ∷ items) (v ∷ vectors) =
      let rest = positive_scores query items vectors in
      if le (cosine_similarity query v) (decimal 0 0)
      then rest
      else (i.id, cosine_similarity query v) ∷ rest
  positive_scores query items vectors = []

  -- `_dense_scores`, of what `_embed` gives; `client` is `none` without an embedding client
  unfoldable pub dense_scores :
      Option (List Text → Option (List (List Float))) → RecallRequest → Option (Dict Float)
  unfolding positive_scores strip
  dense_scores client request = bind client λ embed_texts.
      if length (strip is_space request.query) == 0
      then some []
      else bind (embed_texts (request.query ∷ map (λ i. i.text) request.items)) λ vectors.
        elim vectors [
          | [] ↦ none
          | query ∷ item_vectors ↦ some (positive_scores query request.items item_vectors)
        ]

  -- `recall`, with both kinds of scores; the flag is `diagnostics.dense`
  unfoldable pub recall_request :
      (Text → Text)
      → (List (List Text) → List Text → List Float)
      → (Text → ℕ)
      → Option (List Text → Option (List (List Float)))
      → RecallRequest
      → Selection f × Bool
  unfolding recall lexical_scores dense_scores
  recall_request lower bm25_scores encode client request =
      let scores = dense_scores client request in
      (
        recall f encode request (lexical_scores f lower bm25_scores request) (or_else scores []),
        is_some scores,
      )

  pub record SimilarItem : Type 0 where
    pub id : Text
    pub text : Text

  pub record SimilarRequest : Type 0 where
    pub items : List SimilarItem
    pub threshold : Float

  pub record SimilarPair : Type 0 where
    pub a : Text
    pub b : Text
    pub score : Float

  -- `(-p.score, p.a, p.b) <= (-q.score, q.a, q.b)`
  abbrev pub before_pair : SimilarPair → SimilarPair → Bool
  before_pair p q =
      not (le p.score q.score)
      || (le q.score p.score && (not (text_le q.a p.a) || (text_le p.a q.a && text_le p.b q.b)))

  -- `sorted((i.id, j.id))`, with a score
  unfoldable pub pair_of : Text → Text → Float → SimilarPair
  pair_of i j score =
      if text_le i j
      then record { a = i; b = j; score = score }
      else record { a = j; b = i; score = score }

  module _ (cosine : List Float → List Float → Float) (threshold : Float) where
    -- The pairs of an item with those behind it.
    unfoldable pub pairs_with :
        Text → List Float → List (SimilarItem × List Float) → List SimilarPair
    unfolding pair_of
    pairs_with id v [] = []
    pairs_with id v ((j, w) ∷ rest) =
        let more = pairs_with id v rest in
        let score = round (cosine v w) 6 in
        if le threshold score then pair_of id j.id score ∷ more else more

    unfoldable pub pairs : List (SimilarItem × List Float) → List SimilarPair
    unfolding pairs_with
    pairs [] = []
    pairs ((i, v) ∷ rest) = pairs_with i.id v rest ++ pairs rest

  -- `zip(request.items, vectors)`
  abbrev pub zip_items : List SimilarItem → List (List Float) → List (SimilarItem × List Float)
  zip_items (i ∷ items) (v ∷ vectors) = (i, v) ∷ zip_items items vectors
  zip_items items vectors = []

  -- `similar`, of what `_embed` gives; `none` is `SimilarUnavailableError`. `cosine` is the product
  -- of two rows of `unit`.
  unfoldable pub similar :
      Option (List Text → Option (List (List Float)))
      → (List Float → List Float → Float)
      → SimilarRequest
      → Option (List SimilarPair)
  unfolding pairs sort
  similar client cosine request = bind client λ embed_texts.
      bind (embed_texts (map (λ i. i.text) request.items)) λ vectors.
        some (sort before_pair (pairs cosine request.threshold (zip_items request.items vectors)))
