-- ===== src/Recall.antt =====
-- src/memoryos_lite/recall.py: `POST /recall`, a ranking of the host's items and the best of them
-- within a budget; and `POST /similar`.

pub mod Select
pub mod Embedding
pub mod Vectors
use memry_os_lite.Prelude.{
  ℕ, zero, suc, ◌+◌, ◌-◌, Text, codes, Bool, true, false, not, ◌&&◌, ◌||◌, ◌==◌, leb, ltb,
  if◌then◌else◌, Option, none, some, is_some, List, [], ◌∷◌, ◌++◌, map, keep, any, all, each,
  length, Dict, get, put, keys, elem, teq, text_le, sort,
}
use memry_os_lite.Lexical.{tokenize, content_tokens, intersects, count_tokens}
use memry_os_lite.Floats.{Floats}

pub record RecallItem : Type 0 where
  pub id : Text
  pub text : Text
  pub thread_id : Option Text
  pub roles : List Text
  pub seq : ℕ

pub record RecallRequest : Type 0 where
  pub query : Text
  pub items : List RecallItem
  pub hint_thread : Option Text
  pub hint_role : Option Text
  pub budget_tokens : ℕ
  pub k : ℕ

-- Why an item scored.
pub data Why : Type 0 where
  bm25 dense thread role : Why

abbrev pub rrf_k : ℕ
rrf_k = 60

abbrev same_option : Option Text → Option Text → Bool
same_option none b = false
same_option (some a) none = false
same_option (some a) (some b) = teq a b

-- `sorted({item.seq ...})`: the numbers, ascending, each once
unfoldable pub insert_seq : ℕ → List ℕ → List ℕ
insert_seq n [] = n ∷ []
insert_seq n (m ∷ ms) =
    if ltb n m then n ∷ m ∷ ms else if n == m then m ∷ ms else m ∷ insert_seq n ms

unfoldable pub sorted_seqs : List RecallItem → List ℕ
unfolding insert_seq
sorted_seqs [] = []
sorted_seqs (i ∷ rest) = insert_seq i.seq (sorted_seqs rest)

-- `{seq: index for index, seq in enumerate(seqs)}[seq]`
unfoldable pub seq_index : ℕ → List ℕ → ℕ
seq_index n [] = 0
seq_index n (m ∷ ms) = if n == m then 0 else suc (seq_index n ms)

-- `texts[id]`
unfoldable pub text_of : List RecallItem → Text → Text
text_of [] id = []
text_of (i ∷ rest) id = if teq id i.id then i.text else text_of rest id

module _ (f : Floats) where
  open f use {Float, of_nat, decimal, add, mul, div, round, le}

  -- `(-a[1], a[0]) <= (-b[1], b[0])`
  abbrev pub before_score : Text × Float → Text × Float → Bool
  before_score a b = not (le a.1 b.1) || (le b.1 a.1 && text_le a.0 b.0)

  -- `{item_id: rank ...}` of a sorted list, from a rank on
  unfoldable pub enumerate : ℕ → List (Text × Float) → Dict ℕ
  enumerate rank [] = []
  enumerate rank ((id, _) ∷ rest) = (id, rank) ∷ enumerate (suc rank) rest

  -- `_rrf_ranks`; the keys of `scores` are distinct
  unfoldable pub rrf_ranks : Dict Float → Dict ℕ
  unfolding enumerate sort
  rrf_ranks scores = enumerate 1 (sort before_score scores)

  pub record Row : Type 0 where
    pub score : Float
    pub seq : ℕ
    pub id : Text
    pub why : List Why

  -- `(-a.score, -a.seq, a.id) <= (-b.score, -b.seq, b.id)`
  abbrev pub before_row : Row → Row → Bool
  before_row a b =
      not (le a.score b.score)
      || (le b.score a.score && (ltb b.seq a.seq || (a.seq == b.seq && text_le a.id b.id)))

  -- A bonus, with what it is for; `false` adds nothing.
  abbrev bonus : Bool → Float → Why → Float × List Why → Float × List Why
  bonus false amount w (score, why) = (score, why)
  bonus true amount w (score, why) = (add score amount, why ++ w ∷ [])

  abbrev rank_bonus : Option ℕ → Why → Float × List Why → Float × List Why
  rank_bonus none w s = s
  rank_bonus (some rank) w (score, why) =
      (add score (div (decimal 1 0) (of_nat (rrf_k + rank))), why ++ w ∷ [])

  -- The score of one item, rounded.
  unfoldable pub score_item : RecallRequest → Dict ℕ → Dict ℕ → List ℕ → RecallItem → Row
  unfolding get seq_index elem
  score_item request lexical_rank dense_rank seqs i =
      let ranked =
        rank_bonus (get dense_rank i.id) dense
          (rank_bonus (get lexical_rank i.id) bm25 (decimal 0 0, [])) in
      let threaded =
        bonus (same_option request.hint_thread i.thread_id) (decimal 2 2) thread ranked in
      let hinted =
        bonus (elim request.hint_role [ none ↦ false | some r ↦ elem r i.roles ]) (decimal 1 2) role
          threaded in
      let recent : Float =
        if ltb 1 (length seqs)
        then add hinted.0
            (div (mul (decimal 5 3) (of_nat (seq_index i.seq seqs))) (of_nat (length seqs - 1)))
        else hinted.0 in
      record { score = round recent 6; seq = i.seq; id = i.id; why = hinted.1 }

  -- The items that share a content token with the query, with their scores.
  unfoldable pub hits : List Text → List RecallItem → List (List Text) → List Float → Dict Float
  unfolding content_tokens intersects
  hits content (i ∷ rest_items) (tokens ∷ corpus) (s ∷ scores) =
      let rest = hits content rest_items corpus scores in
      if intersects content (content_tokens tokens) then (i.id, s) ∷ rest else rest
  hits content rest_items corpus scores = []

  -- The lexical scores; `bm25_scores` is `BM25Okapi(corpus).get_scores(query)`.
  unfoldable pub lexical_scores :
      (Text → Text) → (List (List Text) → List Text → List Float) → RecallRequest → Dict Float
  unfolding tokenize hits
  lexical_scores lower bm25_scores request =
      let query_tokens = tokenize lower request.query in
      let query_content = content_tokens query_tokens in
      let corpus = map (λ i. tokenize lower i.text) request.items in
      if length request.items == 0
        || length query_content == 0
        || not (any (λ tokens. not (length tokens == 0)) corpus)
      then []
      else hits query_content request.items corpus (bm25_scores corpus query_tokens)

  pub record RecallRanked : Type 0 where
    pub id : Text
    pub score : Float
    pub why : List Why

  -- The state of the last loop of `recall`.
  pub record Selection : Type 0 where
    pub ranked : List RecallRanked
    pub dropped : List Text
    pub used : ℕ

  module _ (tokens_of : Text → ℕ) (request : RecallRequest) where
    unfoldable pub select_step : Selection → Row → Selection
    select_step s row =
        let tokens = tokens_of row.id in
        if leb request.k (length s.ranked) || ltb request.budget_tokens (s.used + tokens)
        then record s { dropped = s.dropped ++ row.id ∷ [] }
        else record {
          ranked = s.ranked ++ record { id = row.id; score = row.score; why = row.why } ∷ [];
          dropped = s.dropped;
          used = s.used + tokens;
        }

    unfoldable pub select : List Row → Selection
    unfolding select_step
    select rows = each select_step (record { ranked = []; dropped = []; used = 0 }) rows

  -- `self.tokenizer.count(texts[item_id])`
  unfoldable pub tokens_of_item : (Text → ℕ) → RecallRequest → Text → ℕ
  unfolding count_tokens text_of
  tokens_of_item encode request id = count_tokens encode (text_of request.items id)

  -- `scored`, in order
  unfoldable pub scored : RecallRequest → Dict Float → Dict Float → List Row
  unfolding rrf_ranks sorted_seqs score_item sort
  scored request lexical dense_scores =
      let seqs = sorted_seqs request.items in
      sort before_row
        (map (score_item request (rrf_ranks lexical) (rrf_ranks dense_scores) seqs) request.items)

  -- `recall`, from the two kinds of scores on.
  unfoldable pub recall : (Text → ℕ) → RecallRequest → Dict Float → Dict Float → Selection
  unfolding scored select tokens_of_item
  recall encode request lexical dense_scores =
      select (tokens_of_item encode request) request (scored request lexical dense_scores)
