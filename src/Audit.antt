-- ===== src/Audit.antt =====
-- src/memoryos_lite/audit.py and audit_graph.py: `POST /audit`, which ranks the messages that may
-- have relied on a statement, and keeps the verdicts of the LLM that quote a message. The LLM, the
-- BM25 scores of `rank_bm25` and the similarities of the embeddings are parameters.
pub mod Verify
use memry_os_lite.Prelude.{
  ℕ, zero, suc, ◌+◌, Text, codes, Bool, true, false, not, ◌&&◌, ◌||◌, ◌==◌, ltb, leb, if◌then◌else◌,
  Option, none, some, or_else, List, [], ◌∷◌, ◌++◌, map, keep, each, length, take, Dict, get, put,
  keys, elem, teq, text_le, sort, is_space, strip, occurs, concat_map, any,
}
use memry_os_lite.Lexical.{tokenize, content_tokens, intersects, is_latin}
use memry_os_lite.Json.{
  other_number, Json, null, boolean, number, str, obj, Fields, field_of, get_field, as_str, as_obj,
  as_arr,
}
use memry_os_lite.Floats.{Floats}
use memry_os_lite.Curate.Loop.{Answer, value, schema_error, llm_error}
use memry_os_lite.Recall.{rrf_k, before_score}

pub record AuditItem : Type 0 where
  pub id : Text
  pub text : Text
  pub speaker : Option Text
  pub seq : ℕ

pub record AuditRequest : Type 0 where
  pub old : Text
  pub new : Text
  pub items : List AuditItem
  pub k : ℕ
  pub expand : Bool

pub record AuditFlag : Type 0 where
  pub id : Text
  pub quote : Text

pub record AuditResponse : Type 0 where
  pub flagged : List AuditFlag
  pub candidates : List Text
  pub queries : ℕ
  pub expanded : ℕ
  pub dense : Bool
  pub judged : ℕ
  pub dropped_quotes : ℕ
  pub llm_calls : ℕ

abbrev pub recent_count : ℕ
recent_count = 20

abbrev pub expansions_count : ℕ
expansions_count = 4

abbrev pub quote_chars : ℕ
quote_chars = 120

-- `_unique_ids` holds: no id is there twice
unfoldable pub unique_ids : List AuditItem → Bool
unfolding elem
unique_ids [] = true
unique_ids (i ∷ items) = not (elem i.id (map (λ j. j.id) items)) && unique_ids items

module _ (f : Floats) where
  open f use {Float, of_nat, decimal, add, div}

  -- `score[item_id] += 1.0 / (RRF_K + rank)` of one ranking, from a rank on
  unfoldable pub add_ranking : ℕ → Dict Float → List Text → Dict Float
  unfolding get put
  add_ranking rank score [] = score
  add_ranking rank score (id ∷ ids) =
      add_ranking (suc rank)
        (put score id
          (add (or_else (get score id) (decimal 0 0)) (div (decimal 1 0) (of_nat (rrf_k + rank)))))
        ids

  unfoldable pub rrf : List (List Text) → List Text
  unfolding add_ranking sort
  rrf rankings = map (λ e. e.0) (sort (before_score f) (each (add_ranking 1) [] rankings))

-- `(-a.seq, a.id) <= (-b.seq, b.id)`
abbrev pub before_item : AuditItem → AuditItem → Bool
before_item a b = ltb b.seq a.seq || (a.seq == b.seq && text_le a.id b.id)

unfoldable pub recent : List AuditItem → List Text
unfolding sort
recent items = map (λ i. i.id) (take recent_count (sort before_item items))

-- `{item.id: item.text ...}`
unfoldable pub texts : List AuditItem → Dict Text
unfolding put
texts items = each (λ d i. put d i.id i.text) [] items

-- `v.get("dep") in (1, True, "1")`; the test is given whether the float of a literal equals 1
abbrev pub is_dep : (Text → Bool) → Json → Bool
is_dep is_one (boolean b) = b
is_dep is_one (number n) = n == 1
is_dep is_one (other_number s) = is_one s
is_dep is_one (str s) = teq s (codes "1")
is_dep is_one _ = false

-- The state of the loop of `verify`.
pub record Verified : Type 0 where
  pub flags : List AuditFlag
  pub dropped : ℕ

-- The test of a quote in the text of its item.
unfoldable pub is_quote : Text → Text → Bool
unfolding strip occurs
is_quote text quote =
    not (length (strip is_space quote) == 0)
    && leb (length quote) (quote_chars + 20)
    && occurs quote text

unfoldable pub verify_step : (Text → Bool) → Dict Text → Fields → Verified → Text → Verified
unfolding get get_field is_quote
verify_step is_one text verdicts r item_id = elim (as_obj (get_field item_id verdicts)) [
  | none ↦ r
  | some v ↦
      if is_dep is_one (get_field (codes "dep") v)
      then elim (as_str (get_field (codes "quote") v)) [
        | none ↦ record r { dropped = r.dropped + 1 }
        | some quote ↦
            if is_quote (or_else (get text item_id) []) quote
            then record r { flags = r.flags ++ record { id = item_id; quote = quote } ∷ [] }
            else record r { dropped = r.dropped + 1 }
      ]
      else r
]

unfoldable pub verify : (Text → Bool) → List AuditItem → List Text → Json → Verified
unfolding texts verify_step
verify is_one items candidates (obj verdicts) =
    each (verify_step is_one (texts items) verdicts) (record { flags = []; dropped = 0 }) candidates
verify is_one items candidates _ = record { flags = []; dropped = 0 }

-- What a prompt is built from: `expand_prompt`, and `judge_prompt` with the items to judge.
pub data AuditPrompt : Type 0 where
  expand : Text → Text → AuditPrompt
  judge : Text → Text → List AuditItem → AuditPrompt

-- `re.findall(r"`([^`\n]+)`", s)`; `span` is the text behind a backtick that is being read
unfoldable pub code_spans : Option Text → Text → List Text
code_spans span [] = []
code_spans span (c ∷ s) = elim (c == 96) [
  | true ↦ elim span [
    | none ↦ code_spans (some []) s
    | some [] ↦ code_spans (some []) s
    | some (d ∷ w) ↦ (d ∷ w) ∷ code_spans none s
  ]
  | false ↦ elim (c == 10) [
    | true ↦ code_spans none s
    | false ↦ elim span [ none ↦ code_spans none s | some w ↦ code_spans (some (w ++ c ∷ [])) s ]
  ]
]

-- `[A-Za-z0-9]`
abbrev is_alnum : ℕ → Bool
is_alnum c = is_latin c || (leb b'A' c && leb c b'Z')

-- `[A-Za-z_]`
abbrev starts_name : ℕ → Bool
starts_name c = (is_alnum c && not (leb b'0' c && leb c b'9')) || c == 95

abbrev flush_name : Text → List Text → List Text
flush_name w names = if leb 3 (length w) then w ∷ names else names

-- `re.findall(r"[A-Za-z_][A-Za-z0-9_.]{2,}", s)`; `w` is the name that is being read
unfoldable pub names : Text → Text → List Text
names w [] = flush_name w []
names [] (c ∷ s) = if starts_name c then names (c ∷ []) s else names [] s
names (d ∷ w) (c ∷ s) = elim (is_alnum c || c == 95 || c == 46) [
  | true ↦ names (d ∷ w ++ c ∷ []) s
  | false ↦ flush_name (d ∷ w) (names [] s)
]

-- `GENERIC`
abbrev generic : List Text
generic = codes "md" ∷ codes "py" ∷ codes "spec" ∷ codes "true" ∷ codes "false" ∷ []

-- `list(dict.fromkeys(xs))`
unfoldable pub distinct : List Text → List Text
unfolding elem
distinct xs = each (λ seen x. if elem x seen then seen else seen ++ x ∷ []) [] xs

module _ (lower : Text → Text) where
  unfoldable pub rule_queries : Text → Text → List Text
  unfolding code_spans names distinct elem strip
  rule_queries old new =
      let both = old ++ 10 ∷ new in
      let spans =
        keep (λ s. leb 3 (length (keep is_alnum s)) && not (elem (lower s) generic))
          (map (strip is_space) (code_spans none both)) in
      distinct (
        if length spans == 0
        then keep (λ w. not (elem (lower w) generic)) (names [] both)
        else spans)

-- What the graph takes from outside: `str.lower`; the LLM at its n-th call; the scores of
-- `BM25Okapi(corpus)` for a query; and the similarities of queries and items by their embeddings, a
-- list for each query with a number for each item, or nothing without embeddings; and whether the
-- float of a JSON literal equals 1.
pub record Outside (f : Floats) : Type 0 where
  pub lower : Text → Text
  pub equals_one : Text → Bool
  pub complete : ℕ → AuditPrompt → Answer
  pub scores : List (List Text) → List Text → List f.Float
  pub similarities : List AuditItem → List Text → Option (List (List f.Float))

module _ (f : Floats) (o : Outside f) (items : List AuditItem) where
  open o use {lower, scores, similarities}

  -- The items that share a content token with a query, with their scores.
  unfoldable pub lexical_hits :
      List Text → List AuditItem → List (List Text) → List f.Float → Dict f.Float
  unfolding content_tokens intersects
  lexical_hits content (i ∷ rest_items) (tokens ∷ corpus) (s ∷ ss) =
      let rest = lexical_hits content rest_items corpus ss in
      if intersects content (content_tokens tokens) then (i.id, s) ∷ rest else rest
  lexical_hits content rest_items corpus ss = []

  -- The BM25 ranking of a query, if it has one.
  unfoldable pub lexical_ranking : List (List Text) → Text → List (List Text)
  unfolding lexical_hits sort tokenize
  lexical_ranking corpus query =
      let q_tokens = tokenize lower query in
      let q_content = content_tokens q_tokens in
      if not (any (λ tokens. not (length tokens == 0)) corpus) || length q_content == 0
      then []
      else map (λ e. e.0)
          (sort (before_score f) (lexical_hits q_content items corpus (scores corpus q_tokens)))
        ∷ []

  abbrev zip_ids : List AuditItem → List f.Float → Dict f.Float
  zip_ids (i ∷ is) (x ∷ xs) = (i.id, x) ∷ zip_ids is xs
  zip_ids is xs = []

  -- The ranking of a query by its similarities: those above 0, best first.
  unfoldable pub dense_ranking : List f.Float → List Text
  unfolding sort
  dense_ranking sims =
      map (λ e. e.0)
        (keep (λ e. not (f.le e.1 (f.decimal 0 0))) (sort (before_score f) (zip_ids items sims)))

  -- `Retriever.rank`
  unfoldable pub rank : List Text → List Text × Bool
  unfolding lexical_ranking dense_ranking rrf tokenize
  rank queries =
      let corpus = map (λ i. tokenize lower i.text) items in
      let lexical = concat_map (lexical_ranking corpus) queries in
      if length items == 0 || length queries == 0
      then ([], false)
      else elim (similarities items queries) as (λ _. List Text × Bool) [
        | none ↦ (rrf f lexical, false)
        | some columns ↦ (rrf f (lexical ++ map dense_ranking columns), true)
      ]

-- `[q.strip() for q in qs if isinstance(q, str) and q.strip()]`
unfoldable pub stripped_queries : List Json → List Text
unfolding strip
stripped_queries = concat_map (λ q. elim (as_str q) [
  | none ↦ []
  | some s ↦ if length (strip is_space s) == 0 then [] else strip is_space s ∷ []
])

abbrev pub list_of : Json → List Json
list_of j = or_else (as_arr j) []

abbrev pub fields_of : Json → Fields
fields_of j = or_else (as_obj j) Fields.end

module _ (f : Floats) (o : Outside f) (request : AuditRequest) where
  open o use {complete, lower}

  -- `expand`: the queries, and the calls of the LLM; `none` is a provider error, which is raised
  unfoldable pub expand_node : Option (List Text × ℕ)
  unfolding stripped_queries get_field
  expand_node =
      if not request.expand || length request.items == 0
      then some ([], 0)
      else elim (complete 0 (AuditPrompt.expand request.old request.new)) [
        | value reply ↦ some (
          take expansions_count
              (stripped_queries (list_of (get_field (codes "queries") (fields_of reply)))),
          1,
        )
        | schema_error ↦ some ([], 1)
        | llm_error ↦ none
      ]

  pub record Retrieved : Type 0 where
    pub candidates : List Text
    pub queries : ℕ
    pub dense : Bool

  unfoldable pub retrieve_node : List Text → Retrieved
  unfolding rrf recent rank rule_queries
  retrieve_node expansions =
      let rules = request.old ∷ rule_queries lower request.old request.new in
      let (by_rules, dense) = rank f o request.items rules in
      let lists = elim expansions as (λ _. List (List Text)) [
        | [] ↦ by_rules ∷ recent request.items ∷ []
        | q ∷ qs ↦
            by_rules
            ∷ (rank f o request.items ((request.old ++ 10 ∷ request.new) ∷ q ∷ qs)).0
            ∷ recent request.items
            ∷ []
      ] in
      record {
        candidates = take request.k (rrf f lists);
        queries = length rules + length expansions;
        dense = dense;
      }

  -- `judge`: the verdicts, and the calls of the LLM
  unfoldable pub judge_node : ℕ → List Text → Option (Json × ℕ)
  unfolding get_field elem
  judge_node llm_calls [] = some (obj Fields.end, llm_calls)
  judge_node llm_calls (c ∷ cs) =
      let judged = keep (λ i. elem i.id (c ∷ cs)) request.items in
      elim (complete llm_calls (AuditPrompt.judge request.old request.new judged)) [
        | value (obj reply) ↦ some (get_field (codes "verdicts") reply, llm_calls + 1)
        | value _ ↦ some (obj Fields.end, llm_calls + 1)
        | schema_error ↦ some (null, llm_calls + 1)
        | llm_error ↦ none
      ]

  -- `run_audit`; `none` is a provider error
  unfoldable pub run_audit : Option AuditResponse
  unfolding expand_node retrieve_node judge_node verify
  run_audit = elim expand_node [
    | none ↦ none
    | some (expansions, calls) ↦
        let r = retrieve_node expansions in
        elim (judge_node calls r.candidates) [
          | none ↦ none
          | some (verdicts, llm_calls) ↦
              let v = verify o.equals_one request.items r.candidates verdicts in
              some (record {
                flagged = v.flags;
                candidates = r.candidates;
                queries = r.queries;
                expanded = length expansions;
                dense = r.dense;
                judged = length r.candidates;
                dropped_quotes = v.dropped;
                llm_calls = llm_calls;
              })
        ]
  ]
