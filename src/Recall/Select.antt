-- ===== src/Recall/Select.antt =====
-- The last loop of `recall`: what is kept and what is dropped.
use memry_os_lite.Prelude.{
  count-append, ℕ, ◌+◌, ◌≤◌, ◌<◌, ◌≡◌, ◌⊎◌, refl, ap, ◌∙◌, arith, Text, Bool, true, ◌||◌, ltb, leb,
  Bool-cases, inl, inr, List, [], ◌∷◌, ◌++◌, map, map-append, each, each_inv, count, length,
  length-append, All, All-append, IsOrder, IsSorted, sort-IsSorted, count-sort, text_le-total,
  text_le_trans, Dict,
}
use memry_os_lite.Floats.{Floats, FloatLaws}
use memry_os_lite.Recall.{
  RecallItem, RecallRequest, RecallRanked, Row, Selection, select, select_step, before_row, recall,
  scored, score_item, rrf_ranks, sorted_seqs, tokens_of_item,
}

-- `sum(tokens_of(r.id) for r in ranked)`
unfoldable pub cost : (f : Floats) → (Text → ℕ) → List (RecallRanked f) → ℕ
cost f tokens_of [] = 0
cost f tokens_of (r ∷ rs) = tokens_of r.id + cost f tokens_of rs

module _ (f : Floats) (tokens_of : Text → ℕ) (request : RecallRequest) where
  cost-append :
      (xs ys : List (RecallRanked f))
      → cost f tokens_of (xs ++ ys) ≡ cost f tokens_of xs + cost f tokens_of ys
  unfolding cost
  cost-append [] ys = omega arith
  cost-append (x ∷ xs) ys = omega (arith, cost-append xs ys)

  -- No room for an item: enough are kept, or its tokens pass the budget.
  abbrev NoRoom : ℕ → ℕ → Text → Type 0
  NoRoom kept used id = (request.k ≤ kept) ⊎ (request.budget_tokens < used + tokens_of id)

  -- What the loop keeps: the tokens used are those of the kept items and within the budget, no more
  -- than `k` items are kept, and no dropped item has room.
  pub record IsSelection (s : Selection f) : Type 0 where
    pub used : s.used ≡ cost f tokens_of s.ranked
    pub within : s.used ≤ request.budget_tokens
    pub at_most : length s.ranked ≤ request.k
    pub no_room : All (NoRoom (length s.ranked) s.used) s.dropped

  NoRoom-mono :
      (kept kept' used used' : ℕ) (ids : List Text)
      → kept ≤ kept'
      → used ≤ used'
      → All (NoRoom kept used) ids
      → All (NoRoom kept' used') ids
  NoRoom-mono kept kept' used used' [] h k a = tt
  NoRoom-mono kept kept' used used' (id ∷ ids) h k a =
      (omega arith, NoRoom-mono kept kept' used used' ids h k a.1)

  select_step-IsSelection :
      (s : Selection f) (row : Row f)
      → IsSelection s
      → IsSelection (select_step f tokens_of request s row)
  unfolding select_step
  select_step-IsSelection s row h =
      elim (Bool-cases (
        leb request.k (length s.ranked) || ltb request.budget_tokens (s.used + tokens_of row.id))) [
          | inl e ↦
              rw (e, select_step)
                (record {
                  used = h.used;
                  within = h.within;
                  at_most = h.at_most;
                  no_room =
                      All-append (NoRoom (length s.ranked) s.used) s.dropped (row.id ∷ []) h.no_room
                        (ground arith, tt);
                })
          | inr e ↦
              let last : List (RecallRanked f) =
                record { id = row.id; score = row.score; why = row.why } ∷ [] in
              rw (e, select_step)
                (record {
                  used = rw (cost-append s.ranked last) (unfold cost in omega (arith, h.used));
                  within = ground arith;
                  at_most = rw (length-append s.ranked last) (ground arith);
                  no_room = rw (length-append s.ranked last) (
                      NoRoom-mono (length s.ranked) _ s.used _ s.dropped (omega arith) (omega arith)
                        h.no_room);
                })
        ]

  -- No item is lost or made: the ids that are ranked and dropped, together.
  abbrev names : Selection f → Text → ℕ
  names s a = count a (map (λ r. r.id) s.ranked) + count a s.dropped

  select_step-names :
      (s : Selection f) (row : Row f) (a : Text)
      → names (select_step f tokens_of request s row) a ≡ names s a + count a (row.id ∷ [])
  unfolding select_step
  select_step-names s row a =
      let last : List (RecallRanked f) =
        record { id = row.id; score = row.score; why = row.why } ∷ [] in
      ground (
        arith,
        count-append a s.dropped (row.id ∷ []),
        ap (count a) (map-append (λ (r : RecallRanked f). r.id) s.ranked last),
        count-append a (map (λ r. r.id) s.ranked) (row.id ∷ []),
      )

  select-names_from :
      (s : Selection f) (rows : List (Row f)) (a : Text)
      → names (each (select_step f tokens_of request) s rows) a
        ≡ names s a + count a (map (λ r. r.id) rows)
  unfolding count
  select-names_from s [] a = omega arith
  select-names_from s (row ∷ rows) a = omega (
    arith,
    select-names_from (select_step f tokens_of request s row) rows a,
    select_step-names s row a,
  )

  pub select-names :
      (rows : List (Row f)) (a : Text)
      → names (select f tokens_of request rows) a ≡ count a (map (λ r. r.id) rows)
  unfolding select count
  select-names rows a =
      omega (arith, select-names_from (record { ranked = []; dropped = []; used = 0 }) rows a)

  pub select-IsSelection : (rows : List (Row f)) → IsSelection (select f tokens_of request rows)
  unfolding select cost
  select-IsSelection rows =
      each_inv IsSelection (select_step f tokens_of request) select_step-IsSelection
        (record { ranked = []; dropped = []; used = 0 }) rows
        (record { used = refl; within = omega arith; at_most = omega arith; no_room = tt })

-- `b` does not score more than `a`.
abbrev pub by_score : (f : Floats) → RecallRanked f → RecallRanked f → Bool
by_score f a b = f.le b.score a.score

IsSorted-append_one {ℓ} :
    {A : Type ℓ} (le : A → A → Bool) (xs : List A) (y : A)
    → IsSorted le xs
    → All (λ x. le x y ≡ true) xs
    → IsSorted le (xs ++ y ∷ [])
IsSorted-append_one le [] y s a = (tt, tt)
IsSorted-append_one le (x ∷ xs) y s a =
    (All-append (λ z. le x z ≡ true) xs (y ∷ []) s.0 (a.0, tt), IsSorted-append_one le xs y s.1 a.1)

module _ (f : Floats) (laws : FloatLaws f) where
  before_row-IsOrder : IsOrder (before_row f)
  before_row-IsOrder = record {
    total = λ a b h. ground (
      arith,
      laws.le_total a.score b.score,
      laws.le_total b.score a.score,
      text_le-total a.id b.id,
    );
    trans = λ a b c h k. ground (
      arith,
      laws.le_total a.score b.score,
      laws.le_total b.score c.score,
      laws.le_trans a.score b.score c.score,
      laws.le_trans c.score b.score a.score,
      laws.le_trans c.score a.score b.score,
      laws.le_trans b.score c.score a.score,
      laws.le_trans a.score c.score b.score,
      laws.le_trans b.score a.score c.score,
      laws.le_total a.score c.score,
      text_le_trans a.id b.id c.id,
    );
  }

module _ (f : Floats) (laws : FloatLaws f) (tokens_of : Text → ℕ) (request : RecallRequest) where
  -- What is ranked is in order, and before all rows to come.
  record IsAhead (ranked : List (RecallRanked f)) (rows : List (Row f)) : Type 0 where
    ordered : IsSorted (by_score f) ranked
    ahead : All (λ r. All (λ row. f.le row.score r.score ≡ true) rows) ranked

  All-tail :
      (ranked : List (RecallRanked f)) (row : Row f) (rows : List (Row f))
      → All (λ r. All (λ x. f.le x.score r.score ≡ true) (row ∷ rows)) ranked
      → All (λ r. f.le row.score r.score ≡ true) ranked
        × All (λ r. All (λ x. f.le x.score r.score ≡ true) rows) ranked
  All-tail [] row rows h = (tt, tt)
  All-tail (r ∷ ranked) row rows h =
      let rest = All-tail ranked row rows h.1 in ((h.0.0, rest.0), (h.0.1, rest.1))

  score_of_before :
      (row : Row f) (rows : List (Row f))
      → All (λ x. before_row f row x ≡ true) rows
      → All (λ x. f.le x.score row.score ≡ true) rows
  score_of_before row [] h = tt
  score_of_before row (x ∷ rows) h =
      (ground (arith, h.0, laws.le_total row.score x.score), score_of_before row rows h.1)

  select-IsAhead :
      (s : Selection f) (rows : List (Row f))
      → IsSorted (before_row f) rows
      → IsAhead s.ranked rows
      → IsSorted (by_score f) (each (select_step f tokens_of request) s rows).ranked
  unfolding select_step
  select-IsAhead s [] sorted h = h.ordered
  select-IsAhead s (row ∷ rows) sorted h =
      let (now, later) = All-tail s.ranked row rows h.ahead in
      elim (Bool-cases (
        leb request.k (length s.ranked) || ltb request.budget_tokens (s.used + tokens_of row.id))) [
          | inl e ↦
              rw (each, e, select_step)
                (select-IsAhead (record s { dropped = s.dropped ++ row.id ∷ [] }) rows sorted.1
                  (record { ordered = h.ordered; ahead = later }))
          | inr e ↦
              let last : RecallRanked f = record {
                id = row.id;
                score = row.score;
                why = row.why;
              } in
              let s' : Selection f = record {
                ranked = s.ranked ++ last ∷ [];
                dropped = s.dropped;
                used = s.used + tokens_of row.id;
              } in
              rw (each, e, select_step)
                (select-IsAhead s' rows sorted.1 (record {
                  ordered = IsSorted-append_one (by_score f) s.ranked last h.ordered now;
                  ahead =
                      All-append _ s.ranked (last ∷ []) later
                        (score_of_before row rows sorted.0, tt);
                }))
        ]

  pub select-IsSorted :
      (rows : List (Row f))
      → IsSorted (before_row f) rows
      → IsSorted (by_score f) (select f tokens_of request rows).ranked
  unfolding select
  select-IsSorted rows sorted =
      select-IsAhead (record { ranked = []; dropped = []; used = 0 }) rows sorted
        (record { ordered = tt; ahead = tt })

module _ (f : Floats) (encode : Text → ℕ) (request : RecallRequest)
    (lexical dense_scores : Dict f.Float) where
  map-id_score_item :
      (lexical_rank dense_rank : Dict ℕ) (seqs : List ℕ) (is : List RecallItem)
      → map (λ (r : Row f). r.id) (map (score_item f request lexical_rank dense_rank seqs) is)
        ≡ map (λ i. i.id) is
  unfolding score_item
  map-id_score_item lexical_rank dense_rank seqs [] = refl
  map-id_score_item lexical_rank dense_rank seqs (i ∷ is) =
      ap (◌∷◌ i.id) (map-id_score_item lexical_rank dense_rank seqs is)

  -- Each item is ranked or dropped, as often as it was sent.
  pub recall-names :
      (a : Text)
      → count a (map (λ r. r.id) (recall f encode request lexical dense_scores).ranked)
          + count a (recall f encode request lexical dense_scores).dropped
        ≡ count a (map (λ i. i.id) request.items)
  unfolding recall scored
  recall-names a =
      select-names f (tokens_of_item f encode request) request _ a
      ∙ (count-sort (before_row f) (λ r. r.id) a _
          ∙ ap (count a) (map-id_score_item _ _ _ request.items))

  -- The tokens used are those of the ranked items and within the budget, at most `k` items are
  -- ranked, and every dropped item has no room beside the ranked ones.
  pub recall-IsSelection :
      IsSelection f
        (tokens_of_item f encode request)
        request
        (recall f encode request lexical dense_scores)
  unfolding recall
  recall-IsSelection =
      select-IsSelection f (tokens_of_item f encode request) request
        (scored f request lexical dense_scores)

  scored-IsSorted : FloatLaws f → IsSorted (before_row f) (scored f request lexical dense_scores)
  unfolding scored
  scored-IsSorted laws = sort-IsSorted (before_row f) (before_row-IsOrder f laws) (
      map
        (score_item f request (rrf_ranks f lexical) (rrf_ranks f dense_scores)
          (sorted_seqs request.items))
        request.items)

  -- The ranked items come with falling scores.
  pub recall-IsSorted :
      FloatLaws f → IsSorted (by_score f) (recall f encode request lexical dense_scores).ranked
  unfolding recall
  recall-IsSorted laws =
      select-IsSorted f laws (tokens_of_item f encode request) request
        (scored f request lexical dense_scores) (scored-IsSorted laws)
