-- ===== src/Curate/Loop.antt =====
-- src/memoryos_lite/curator/graph.py: extract, check, and repair while there are violations and
-- repairs left; then consolidate. The LLM is a parameter: what it does at its n-th call, with what
-- it is asked, given by what the prompt is built from; `render_request` itself is in Curate/Prompts.
pub mod Bounds
use memry_os_lite.Prelude.{
  ℕ, zero, suc, ◌+◌, ◌-◌, ltb, Bool, true, false, ◌&&◌, if◌then◌else◌, all, bind, or_else, Option,
  none, some, List, [], ◌∷◌,
}
use memry_os_lite.Unicode.{Unicode}
use memry_os_lite.Json.{Json, obj, Fields, as_obj}
use memry_os_lite.Curate.Model.{CurateRequest, CurateResponse, CheckResult, Violation}
use memry_os_lite.Curate.Consolidate.{Hashing, is_encodable}
use memry_os_lite.Curate.Proposals.{check_reply}
use memry_os_lite.Curate.Response.{consolidate}

-- What a prompt is built from: `render_request`, and `build_repair_prompt`.
pub data Prompt : Type 0 where
  extract : CurateRequest → Prompt
  repair : CurateRequest → Option Fields → List Violation → Prompt

-- `llm.complete_json`: a value, `CuratorSchemaError`, or `CuratorLLMError`.
pub data Answer : Type 0 where
  value : Json → Answer
  schema_error llm_error : Answer

abbrev pub Llm : Type 0
Llm = ℕ → Prompt → Answer

-- `_ask`: the reply, if it is an object; `none` outside is a provider error, which is raised
unfoldable pub ask : Llm → ℕ → Prompt → Option (Option Fields)
ask llm n prompt = elim (llm n prompt) [
  | value j ↦ some (as_obj j)
  | schema_error ↦ some none
  | llm_error ↦ none
]

-- `check_reply`, or `none` where an assignment that it makes is refused: a `CurateAssignment` wants
-- a reason that is encodable.
unfoldable pub checked : Unicode → CurateRequest → Option Fields → Option CheckResult
checked u request reply =
    let result = check_reply u request reply in
    if all (λ a. is_encodable (or_else a.dismiss [])) result.assignments then some result else none

-- `CurateState` after a check.
pub record CurateState : Type 0 where
  pub reply : Option Fields
  pub llm_calls : ℕ
  pub check : CheckResult
  pub initial_violations : List Violation

abbrev pub has_violations : CheckResult → Bool
has_violations result = elim result.violations [ [] ↦ false | v ∷ vs ↦ true ]

module _ (h : Hashing) (u : Unicode) (llm : Llm) (request : CurateRequest) where
  -- `extract`, and the first `check`
  unfoldable pub start : Option CurateState
  unfolding ask
  start = elim (ask llm 0 (Prompt.extract request)) [
    | none ↦ none
    | some reply ↦ bind (checked u request reply) (λ result. some (record {
      reply = reply;
      llm_calls = 1;
      check = result;
      initial_violations = result.violations;
    }))
  ]

  -- `route`: to `repair`, or to `consolidate`
  unfoldable pub wants_repair : CurateState → Bool
  wants_repair s = has_violations s.check && ltb (s.llm_calls - 1) request.max_repairs

  -- `repair`, and the `check` behind it
  unfoldable pub repair_round : CurateState → Option CurateState
  unfolding ask
  repair_round s = elim (ask llm s.llm_calls (Prompt.repair request s.reply s.check.violations)) [
    | none ↦ none
    | some reply ↦
        bind (checked u request reply)
          (λ result. some (record s { reply = reply; llm_calls = s.llm_calls + 1; check = result }))
  ]

  -- The cycle of the graph; the outer `none` is fuel that ran out, the inner one an error raised.
  unfoldable pub cycle : ℕ → CurateState → Option (Option CurateState)
  unfolding wants_repair repair_round
  cycle zero s = none
  cycle (suc fuel) s = elim (wants_repair s) [
    | false ↦ some (some s)
    | true ↦ elim (repair_round s) [ none ↦ some none | some s' ↦ cycle fuel s' ]
  ]

  -- `finish`: the diagnostics of a response, from the state
  abbrev pub with_diagnostics : CurateState → CurateResponse → CurateResponse
  with_diagnostics s response = record response {
    diagnostics = record response.diagnostics {
      llm_calls = s.llm_calls;
      repairs = s.llm_calls - 1;
      initial_violations = s.initial_violations;
      final_violations = s.check.violations;
    };
  }

  unfoldable pub finish : CurateState → Option CurateResponse
  unfolding consolidate
  finish s = bind (consolidate h u request s.check) (λ response. some (with_diagnostics s response))

  -- `run_curate`; `none` is an exception: a provider error, or a text that is not encodable. With
  -- `max_repairs + 1` rounds the fuel is enough.
  unfoldable pub run_curate : Option CurateResponse
  unfolding start cycle finish
  run_curate = elim start [
    | none ↦ none
    | some s ↦ elim (cycle (suc request.max_repairs) s) [
      | none ↦ none
      | some none ↦ none
      | some (some done) ↦ finish done
    ]
  ]
