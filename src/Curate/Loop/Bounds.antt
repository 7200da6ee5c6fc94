-- ===== src/Curate/Loop/Bounds.antt =====
-- How the repair loop ends.
use memry_os_lite.Prelude.{
  ℕ, zero, suc, ◌+◌, ◌≤◌, ◌<◌, ◌≡◌, ◌⊎◌, refl, arith, true, false, Bool-cases, Option-cases, inl,
  inr, Option, none, some, List, [],
}
use memry_os_lite.Unicode.{Unicode}
use memry_os_lite.Curate.Model.{CheckResult, CurateRequest, CurateResponse, Violation}
use memry_os_lite.Curate.Consolidate.{Hashing}
use memry_os_lite.Curate.Proposals.{check_reply}
use memry_os_lite.Curate.Response.{consolidate}
use memry_os_lite.Curate.Encodable.{is_encodable_check}
use memry_os_lite.Curate.Total.{dismissals-encodable}
use memry_os_lite.Json.{Fields}
use memry_os_lite.Curate.Loop.{
  Llm, Prompt, Answer, CurateState, ask, checked, wants_repair, repair_round, cycle,
}

module _ (h : Hashing) (u : Unicode) (llm : Llm) (request : CurateRequest) where
  -- The calls of the LLM that the request makes: one to extract, and one to repair each reply.
  pub data IsCalled : ℕ → Prompt → Type 0 where
    extracted : IsCalled 0 (Prompt.extract request)
    repaired :
        {n : ℕ} {prompt : Prompt} {reply : Option Fields}
        → IsCalled n prompt
        → ask llm n prompt ≡ some reply
        → IsCalled (n + 1) (Prompt.repair request reply (check_reply u request reply).violations)

  -- A call of the LLM raised a provider error.
  abbrev pub Raised : Type 0
  Raised = (n : ℕ) × (prompt : Prompt) × IsCalled n prompt × (llm n prompt ≡ Answer.llm_error)

  llm_error_of_ask :
      (n : ℕ) (prompt : Prompt) → ask llm n prompt ≡ none → llm n prompt ≡ Answer.llm_error
  unfolding ask
  llm_error_of_ask n prompt e = ground arith

  -- A reply of the LLM to one of the calls.
  abbrev pub IsReply : Option Fields → Type 0
  IsReply reply = (n : ℕ) × (prompt : Prompt) × IsCalled n prompt × (ask llm n prompt ≡ some reply)

  -- For a reply of the LLM, the request or what is accepted of the reply has a text that is not
  -- encodable.
  abbrev pub Unencodable : Type 0
  Unencodable =
      (reply : Option Fields) × IsReply reply
      × (is_encodable_check request (check_reply u request reply) ≡ false)

  -- What ends a request without a response.
  abbrev pub Failed : Type 0
  Failed = Raised ⊎ Unencodable

  checked-check_reply :
      (reply : Option Fields) (c : CheckResult)
      → checked u request reply ≡ some c
      → c ≡ check_reply u request reply
  unfolding checked
  checked-check_reply reply c e = ground (arith, e)

  Failed-checked :
      (reply : Option Fields) → IsReply reply → checked u request reply ≡ none → Unencodable
  unfolding checked
  Failed-checked reply asked e =
      elim (Bool-cases (is_encodable_check request (check_reply u request reply))) [
        | inr f ↦ (reply, asked, f)
        | inl f ↦
            absurd (ground (arith, e, dismissals-encodable request (check_reply u request reply) f))
      ]

  Failed-repair_round :
      (s : CurateState)
      → IsCalled s.llm_calls (Prompt.repair request s.reply s.check.violations)
      → repair_round h u llm request s ≡ none
      → Failed
  unfolding repair_round
  Failed-repair_round s called e =
      elim (Option-cases (ask llm s.llm_calls (Prompt.repair request s.reply s.check.violations))) [
        | inl f ↦ inl (
          s.llm_calls,
          Prompt.repair request s.reply s.check.violations,
          called,
          llm_error_of_ask _ _ f,
        )
        | inr (reply, f) ↦ elim (Option-cases (checked u request reply)) [
          | inl g ↦ inr (Failed-checked reply (_, _, called, f) g)
          | inr (c, g) ↦ absurd (ground (arith, e, f, g))
        ]
      ]

  -- A state of the loop: the check is that of the last reply, and no more than the repairs that
  -- are allowed were made.
  pub record IsRunning (first : List Violation) (s : CurateState) : Type 0 where
    pub checked : s.check ≡ check_reply u request s.reply
    pub called : 1 ≤ s.llm_calls
    pub bounded : s.llm_calls ≤ 1 + request.max_repairs
    pub initial : s.initial_violations ≡ first
    pub asked : IsReply s.reply
    pub next_call : IsCalled s.llm_calls (Prompt.repair request s.reply s.check.violations)

  repair_round-IsRunning :
      (first : List Violation) (s s' : CurateState)
      → IsRunning first s
      → wants_repair h u llm request s ≡ true
      → repair_round h u llm request s ≡ some s'
      → IsRunning first s' × (s'.llm_calls ≡ s.llm_calls + 1)
  unfolding repair_round wants_repair
  repair_round-IsRunning first s s' run wants e =
      elim (Option-cases (ask llm s.llm_calls (Prompt.repair request s.reply s.check.violations))) [
        | inl f ↦ absurd (ground (arith, e, f))
        | inr (reply, f) ↦ elim (Option-cases (checked u request reply)) [
          | inl g ↦ absurd (ground (arith, e, f, g))
          | inr (c, g) ↦
              let same = checked-check_reply reply c g in
              let made = rw (f, repair_round, g) at e in
              let replied : s'.reply ≡ reply = ground (arith, made) in
              let called : s'.llm_calls ≡ s.llm_calls + 1 = ground (arith, made) in
              let check : s'.check ≡ check_reply u request reply = ground (arith, made, same) in
              (
                record {
                  checked = ground (arith, made, same);
                  called = ground (arith, made, run.called);
                  bounded = ground (arith, made, wants, run.bounded);
                  initial = ground (arith, made, run.initial);
                  asked = rw replied (_, _, run.next_call, f);
                  next_call = rw (replied, called, check) (repaired run.next_call f);
                },
                called,
              )
        ]
      ]

  -- The loop, with the rounds that are left as fuel, ends: by an error of the provider, or in a
  -- state from which no repair is wanted.
  pub cycle-ends :
      (fuel : ℕ) (first : List Violation) (s : CurateState)
      → IsRunning first s
      → request.max_repairs + 1 < fuel + s.llm_calls
      → ((cycle h u llm request fuel s ≡ some none) × Failed)
        ⊎ ((s' : CurateState) × (cycle h u llm request fuel s ≡ some (some s'))
            × IsRunning first s'
            × (wants_repair h u llm request s' ≡ false))
  unfolding cycle
  cycle-ends zero first s run enough = absurd (omega (arith, run.bounded))
  cycle-ends (suc fuel) first s run enough = elim (Bool-cases (wants_repair h u llm request s)) [
    | inr e ↦ inr (s, rw (e, cycle) refl, run, e)
    | inl e ↦ elim (Option-cases (repair_round h u llm request s)) [
      | inl failed ↦ inl (rw (e, cycle, failed) refl, Failed-repair_round s run.next_call failed)
      | inr (s', made) ↦
          let (run', counted) = repair_round-IsRunning first s s' run e made in
          rw (e, cycle, made) (cycle-ends fuel first s' run' (omega arith))
    ]
  ]

  -- `finish` reports what the state holds.
  pub record IsFinal (first : List Violation) (r : CurateResponse) : Type 0 where
    pub state : CurateState
    pub running : IsRunning first state
    pub memories :
        (response : CurateResponse) × (consolidate h u request (check_reply u request state.reply)
          ≡ some response)
        × (r.memories ≡ response.memories)
    pub final_violations :
        r.diagnostics.final_violations ≡ (check_reply u request state.reply).violations
    pub initial_violations : r.diagnostics.initial_violations ≡ first
    pub calls : r.diagnostics.llm_calls ≡ r.diagnostics.repairs + 1
    pub repairs : r.diagnostics.repairs ≤ request.max_repairs
    pub done : (r.diagnostics.final_violations ≡ []) ⊎ (r.diagnostics.repairs ≡ request.max_repairs)
