-- ===== src/Ask/Rounds.antt =====
-- The rounds of the graph of `memory_ask`.
use memry_os_lite.Prelude.{
  ℕ, zero, suc, ◌+◌, ◌≤◌, ◌<◌, ◌≡◌, refl, arith, Text, ltb, Bool-cases, Option-cases, Either-cases,
  ◌∙◌, inl, inr, Option, some, List, [], ◌∷◌, length, length-append,
}
use memry_os_lite.Unicode.{Unicode}
use memry_os_lite.Supersede.{SupersededQuote}
use memry_os_lite.Ask.{
  AskRequest, AskLlm, AskResponse, AskState, EvidenceItem, Stopped, queries, grade, rewrite, rounds,
  first_state, run_ask, choose, next_state,
}

module _ (u : Unicode) (lower : Text → Text) (retrieve : Text → List EvidenceItem)
    (marks : List SupersededQuote) (llm : AskLlm) (request : AskRequest) where
  -- A retrieval for each query, an LLM call between two retrievals, at most `max_rounds + 1`
  -- retrievals.
  abbrev InRounds : AskState → Type 0
  InRounds s =
      (s.llm_calls + 1 ≡ s.retrievals)
      × (s.retrievals ≤ request.max_rounds + 1)
      × (length (queries s) ≡ s.retrievals)

  -- At the end the last call of the LLM may have given no query.
  abbrev IsBounded : AskState → Type 0
  IsBounded s =
      (s.llm_calls ≤ request.max_rounds)
      × (s.llm_calls ≤ s.retrievals)
      × (s.retrievals ≤ s.llm_calls + 1)
      × (s.retrievals ≤ request.max_rounds + 1)
      × (length (queries s) ≡ s.retrievals)

  abbrev Ends : Option (AskState × Stopped) → Type 0
  Ends o = (s : AskState) × (why : Stopped) × (o ≡ some (s, why)) × IsBounded s

  rounds-Ends :
      (fuel : ℕ) (s : AskState)
      → InRounds s
      → request.max_rounds + 1 < fuel + s.retrievals
      → Ends (rounds u lower retrieve marks llm request fuel s)
  unfolding rounds
  rounds-Ends zero s h enough = absurd (omega (arith, h.1))
  rounds-Ends (suc fuel) s h enough = elim (Bool-cases (grade lower request.question s.found)) [
    | inl e ↦
        (s, Stopped.enough, rw (rounds, e) refl, (omega arith, omega arith, omega arith, h.1, h.2))
    | inr e ↦ elim (Option-cases llm) [
      | inl l ↦ (
        s,
        Stopped.no_llm,
        rw (rounds, e, l) refl,
        (omega arith, omega arith, omega arith, h.1, h.2),
      )
      | inr (complete, l) ↦ elim (Bool-cases (ltb request.max_rounds s.retrievals)) [
        | inl m ↦ (
          s,
          Stopped.no_rounds,
          rw (rounds, e, l, m) refl,
          (omega arith, omega arith, omega arith, h.1, h.2),
        )
        | inr m ↦ elim (Either-cases (rewrite u lower retrieve marks llm request complete s)) [
          | inl (why, r) ↦ (
            record s { llm_calls = s.llm_calls + 1 },
            why,
            rw (rounds, e, l, m, r) refl,
            (ground (arith, h.0), omega (arith, h.0), omega (arith, h.0), h.1, h.2),
          )
          | inr (query, r) ↦
              let s' : AskState = next_state u lower retrieve marks llm request s query in
              let (last, why, made, bounded) =
                rounds-Ends fuel s'
                  (
                    omega (arith, h.0),
                    ground arith,
                    length-append (queries s) (query ∷ []) ∙ omega (arith, h.2),
                  )
                  (omega arith) in
              (last, why, rw (rounds, e, l, m, r, made) refl, bounded)
        ]
      ]
    ]
  ]

-- `run_ask` returns, whatever the retriever and the LLM do, after at most `max_rounds + 1`
-- retrievals, each for one of the queries, and at most `max_rounds` calls of the LLM, which are as
-- many as the retrievals or one less.
pub run_ask-ends :
    (u : Unicode) (lower : Text → Text) (retrieve : Text → List EvidenceItem)
    (marks : List SupersededQuote) (llm : AskLlm) (request : AskRequest)
    → (response : AskResponse) × (run_ask u lower retrieve marks llm request ≡ some response)
      × (response.llm_calls ≤ request.max_rounds)
      × (response.llm_calls ≤ response.retrievals)
      × (response.retrievals ≤ response.llm_calls + 1)
      × (response.retrievals ≤ request.max_rounds + 1)
      × (length response.queries ≡ response.retrievals)
unfolding run_ask
run_ask-ends u lower retrieve marks llm request =
    let (s, why, made, bounded) =
      rounds-Ends u lower retrieve marks llm request (suc request.max_rounds)
        (first_state u lower retrieve marks llm request) (refl, omega arith, refl) (omega arith) in
    let chosen = choose request.budget s.found in
    (
      record {
        queries = queries s;
        items = chosen.items;
        retrievals = s.retrievals;
        llm_calls = s.llm_calls;
        stopped = why;
        omitted = chosen.omitted;
      },
      rw (run_ask, made) refl,
      bounded.0,
      bounded.1,
      bounded.2,
      bounded.3,
      bounded.4,
    )
