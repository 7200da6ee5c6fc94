-- ===== src/Ask.antt =====
-- memoryos_eval/ask.py: `memory_ask`, the graph that retrieves, grades and rewrites the query. The
-- retriever is a parameter, and so is the LLM: what it does at its n-th call.
pub mod Rounds
pub mod Found
use memry_os_lite.Prelude.{
  ℕ, zero, suc, ◌+◌, ◌*◌, Text, codes, Bool, true, false, not, ◌&&◌, ◌||◌, ◌==◌, ltb, leb,
  if◌then◌else◌, Option, none, some, bind, or_else, is_some, ◌⊎◌, inl, inr, List, [], ◌∷◌, ◌++◌,
  map, keep, any, all, each, length, take, Dict, elem, teq, is_space, strip,
}
use memry_os_lite.Unicode.{Unicode}
use memry_os_lite.Json.{get_field, as_str, as_obj}
use memry_os_lite.Lexical.{tokenize, is_latin}
use memry_os_lite.Curate.Loop.{Answer, value, schema_error, llm_error}
use memry_os_lite.Supersede.{SupersededQuote, match_superseded}

pub record AskRequest : Type 0 where
  pub question : Text
  pub budget : ℕ
  pub max_rounds : ℕ

-- An item of the evidence, as the retriever gives it.
pub record EvidenceItem : Type 0 where
  pub item_id : Text
  pub layer : Text
  pub text : Text
  pub estimated_tokens : ℕ
  pub document_id : Option Text
  pub source_refs : List (Dict Text)

-- An item that was found, with what `retrieve_node` adds.
pub record FoundItem : Type 0 where
  pub item : EvidenceItem
  pub query : Text
  pub outdated : Bool
  pub current : Option Text

pub record AskItem : Type 0 where
  pub rank : ℕ
  pub found : FoundItem

-- The values of `stopped`.
pub data Stopped : Type 0 where
  enough no_llm no_rounds rewrite_failed no_new_query : Stopped

pub record AskResponse : Type 0 where
  pub queries : List Text
  pub items : List AskItem
  pub retrievals : ℕ
  pub llm_calls : ℕ
  pub stopped : Stopped
  pub omitted : ℕ

-- The state behind a retrieval; `query` is the last of `queries`.
pub record AskState : Type 0 where
  pub earlier : List Text
  pub query : Text
  pub found : List FoundItem
  pub retrievals : ℕ
  pub llm_calls : ℕ

abbrev pub queries : AskState → List Text
queries s = s.earlier ++ s.query ∷ []

-- `_STOPWORDS`
abbrev pub stopwords : List Text
stopwords =
    codes "a"
    ∷ codes "an"
    ∷ codes "and"
    ∷ codes "are"
    ∷ codes "as"
    ∷ codes "at"
    ∷ codes "be"
    ∷ codes "by"
    ∷ codes "did"
    ∷ codes "do"
    ∷ codes "does"
    ∷ codes "for"
    ∷ codes "from"
    ∷ codes "had"
    ∷ codes "has"
    ∷ codes "have"
    ∷ codes "how"
    ∷ codes "i"
    ∷ codes "in"
    ∷ codes "is"
    ∷ codes "it"
    ∷ codes "its"
    ∷ codes "of"
    ∷ codes "on"
    ∷ codes "or"
    ∷ codes "our"
    ∷ codes "the"
    ∷ codes "their"
    ∷ codes "them"
    ∷ codes "they"
    ∷ codes "this"
    ∷ codes "to"
    ∷ codes "was"
    ∷ codes "we"
    ∷ codes "were"
    ∷ codes "what"
    ∷ codes "when"
    ∷ codes "where"
    ∷ codes "which"
    ∷ codes "who"
    ∷ codes "why"
    ∷ codes "will"
    ∷ codes "with"
    ∷ codes "you"
    ∷ codes "your"
    ∷ codes "now"
    ∷ codes "still"
    ∷ codes "current"
    ∷ codes "currently"
    ∷ []

-- `set.add`
unfoldable pub add : List Text → Text → List Text
unfolding elem
add xs x = if elem x xs then xs else xs ++ x ∷ []

-- The round of `keywords` for one token.
unfoldable pub keyword_step : List Text → Text → List Text
unfolding add elem
keyword_step out token =
    if not (length token == 0) && all is_latin token
    then (if leb 3 (length token) && not (elem token stopwords)
        then add out (take 5 token)
        else out)
    else if length token == 2
    then add out token
    else out

module _ (lower : Text → Text) where
  unfoldable pub keywords : Text → List Text
  unfolding tokenize keyword_step
  keywords text = each keyword_step [] (tokenize lower text)

  -- `coverage(question, text) >= ENOUGH_COVERAGE`: the quotient of two lengths is at least 0.5
  unfoldable pub covers : Text → Text → Bool
  unfolding keywords elem
  covers question text =
      let wanted = keywords question in
      length wanted == 0
      || leb (length wanted) (2 * length (keep (λ w. elem w (keywords text)) wanted))

  -- `grade`: the best coverage of the current items, 0 if there are none
  unfoldable pub grade : Text → List FoundItem → Bool
  unfolding covers
  grade question = any (λ f. not f.outdated && covers question f.item.text)

module _ (u : Unicode) (retrieve : Text → List EvidenceItem) (marks : List SupersededQuote) where
  -- One round of the loop of `retrieve_node`; `seen` are the ids in `found`.
  unfoldable pub found_step : Text → List FoundItem → EvidenceItem → List FoundItem
  unfolding elem match_superseded
  found_step query found i =
      if elem i.item_id (map (λ f. f.item.item_id) found)
      then found
      else let mark = match_superseded u i.text marks in
        found
        ++ record {
          item = i;
          query = query;
          outdated = is_some mark;
          current = bind mark (λ m. m.current);
        }
          ∷ []

  unfoldable pub retrieve_node : Text → List FoundItem → List FoundItem
  unfolding found_step
  retrieve_node query found = each (found_step query) found (retrieve query)

-- The LLM of the graph, if there is one: its answer at the n-th call, to a question and evidence.
abbrev pub AskLlm : Type 0
AskLlm = Option (ℕ → Text → List FoundItem → Answer)

-- The query of a reply to `rewrite`: `query.strip()[:500]`, or nothing.
unfoldable pub new_query : Answer → Option Text
unfolding get_field strip
new_query (value j) =
    let query = bind (as_obj j) (λ fs. as_str (get_field (codes "query") fs)) in
    some (or_else (bind query (λ q. some (take 500 (strip is_space q)))) [])
new_query schema_error = none
new_query llm_error = none

module _ (u : Unicode) (lower : Text → Text) (retrieve : Text → List EvidenceItem)
    (marks : List SupersededQuote) (llm : AskLlm) (request : AskRequest) where
  -- `rewrite` and `after_rewrite`: a new query, or the end
  unfoldable pub rewrite : (ℕ → Text → List FoundItem → Answer) → AskState → Stopped ⊎ Text
  unfolding new_query elem
  rewrite complete s = elim (new_query (complete s.llm_calls request.question s.found)) [
    | none ↦ inl rewrite_failed
    | some query ↦
        if length query == 0 || elem query (queries s) then inl no_new_query else inr query
  ]

  -- The state behind `rewrite` and the next `retrieve_node`.
  abbrev pub next_state : AskState → Text → AskState
  unfolding retrieve_node
  next_state s query = record {
    earlier = queries s;
    query = query;
    found = retrieve_node u retrieve marks query s.found;
    retrievals = s.retrievals + 1;
    llm_calls = s.llm_calls + 1;
  }

  -- The rounds of the graph from a state behind a retrieval on; `none` is fuel that ran out.
  unfoldable pub rounds : ℕ → AskState → Option (AskState × Stopped)
  unfolding grade retrieve_node rewrite
  rounds zero s = none
  rounds (suc fuel) s = elim (grade lower request.question s.found) [
    | true ↦ some (s, enough)
    | false ↦ elim llm [
      | none ↦ some (s, no_llm)
      | some complete ↦ elim (ltb request.max_rounds s.retrievals) [
        | true ↦ some (s, no_rounds)
        | false ↦ elim (rewrite complete s) [
          | inl why ↦ some (record s { llm_calls = s.llm_calls + 1 }, why)
          | inr query ↦ rounds fuel (next_state s query)
        ]
      ]
    ]
  ]

  abbrev pub first_state : AskState
  unfolding retrieve_node
  first_state = record {
    earlier = [];
    query = request.question;
    found = retrieve_node u retrieve marks request.question [];
    retrievals = 1;
    llm_calls = 0;
  }

-- `ordered`: current items, then outdated ones
abbrev pub ordered : List FoundItem → List FoundItem
ordered found = keep (λ f. not f.outdated) found ++ keep (λ f. f.outdated) found

-- The state of the loop of `run_ask`.
pub record Chosen : Type 0 where
  pub items : List AskItem
  pub spent : ℕ
  pub omitted : ℕ

unfoldable pub choose_step : ℕ → Chosen → FoundItem → Chosen
choose_step budget c f =
    let tokens = f.item.estimated_tokens in
    if ltb budget (c.spent + tokens) then record c { omitted = c.omitted + 1 } else record {
      items = c.items ++ record { rank = length c.items + 1; found = f } ∷ [];
      spent = c.spent + tokens;
      omitted = c.omitted;
    }

unfoldable pub choose : ℕ → List FoundItem → Chosen
unfolding choose_step
choose budget found =
    each (choose_step budget) (record { items = []; spent = 0; omitted = 0 }) (ordered found)

module _ (u : Unicode) (lower : Text → Text) (retrieve : Text → List EvidenceItem)
    (marks : List SupersededQuote) (llm : AskLlm) (request : AskRequest) where
  -- `run_ask`; `max_rounds + 1` rounds are enough
  unfoldable pub run_ask : Option AskResponse
  unfolding rounds choose
  run_ask =
      elim (rounds u lower retrieve marks llm request (suc request.max_rounds)
        (first_state u lower retrieve marks llm request)) [
          | none ↦ none
          | some (s, why) ↦
              let chosen = choose request.budget s.found in
              some (record {
                queries = queries s;
                items = chosen.items;
                retrievals = s.retrievals;
                llm_calls = s.llm_calls;
                stopped = why;
                omitted = chosen.omitted;
              })
        ]
