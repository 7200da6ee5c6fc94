-- ===== src/Curate/Model.antt =====
-- The request and response types of src/memoryos_lite/curator/curate.py, and what the checker builds.
-- The bounds that the models declare on the lengths of fields are not part of these types.
use memry_os_lite.Json.{Json}
use memry_os_lite.Prelude.{
  ℕ, Text, codes, Bool, true, false, Option, none, some, List, [], ◌∷◌, ◌++◌, keep, Dict, map, ◌≤◌,
  count,
}

abbrev pub max_statement_chars : ℕ
max_statement_chars = 600

abbrev pub max_topic_key_chars : ℕ
max_topic_key_chars = 255

abbrev pub max_sources : ℕ
max_sources = 3

abbrev pub max_lesson_sources : ℕ
max_lesson_sources = 8

abbrev pub max_dismiss_chars : ℕ
max_dismiss_chars = 200

abbrev pub max_conflict_reason_chars : ℕ
max_conflict_reason_chars = 200

abbrev pub max_repairs_limit : ℕ
max_repairs_limit = 2

pub data ActivityType : Type 0 where
  message review_objection gate_failure contract_revision : ActivityType

-- `activity.type in FAILURE_TYPES`
abbrev pub is_failure_type : ActivityType → Bool
is_failure_type review_objection = true
is_failure_type gate_failure = true
is_failure_type _ = false

pub data MemoryKind : Type 0 where
  lesson decision fact rule preference convention assumption question : MemoryKind

-- The value of the `Literal`.
abbrev pub kind_name : MemoryKind → Text
kind_name lesson = codes "lesson"
kind_name decision = codes "decision"
kind_name fact = codes "fact"
kind_name rule = codes "rule"
kind_name preference = codes "preference"
kind_name convention = codes "convention"
kind_name assumption = codes "assumption"
kind_name question = codes "question"

abbrev pub is_lesson : MemoryKind → Bool
is_lesson lesson = true
is_lesson _ = false

abbrev pub is_question : MemoryKind → Bool
is_question question = true
is_question _ = false

pub data Profile : Type 0 where
  module_profile room collab : Profile

abbrev pub is_collab : Profile → Bool
is_collab collab = true
is_collab _ = false

-- `PROFILE_MEMORY_KINDS`
abbrev pub profile_memory_kinds : Profile → List MemoryKind
profile_memory_kinds module_profile = decision ∷ fact ∷ []
profile_memory_kinds room = fact ∷ decision ∷ rule ∷ preference ∷ lesson ∷ []
profile_memory_kinds collab = decision ∷ convention ∷ assumption ∷ question ∷ lesson ∷ []

pub record CurateActivity : Type 0 where
  pub id : Text
  pub seq : ℕ
  pub type : ActivityType
  pub kind : Option Text
  pub speaker : Text
  pub text : Text

pub record CurateSource : Type 0 where
  pub activity_id : Text
  pub quote : Text

pub record CurateMemory : Type 0 where
  pub id : Text
  pub kind : MemoryKind
  pub topic_key : Text
  pub statement : Text
  pub version : ℕ
  pub occurrences : ℕ
  pub sources : List CurateSource

pub record CurateMemoryVersion : Type 0 where
  pub memory : CurateMemory
  pub open memory use *
  pub supersedes_id : Option Text
  pub resolves_ids : Option (List Text)

pub record CurateRequest : Type 0 where
  pub scope_id : Text
  pub profile : Profile
  pub active : List CurateMemory
  pub context : List CurateActivity
  pub window : List CurateActivity
  pub max_repairs : ℕ

-- `request.failures`
unfoldable pub failures : CurateRequest → List CurateActivity
failures request = keep (λ a. is_failure_type a.type) request.window

-- `[*request.context, *request.window]`
abbrev pub activities : CurateRequest → List CurateActivity
activities request = request.context ++ request.window

-- `len(ids) == len(set(ids))` in `_unique_activity_ids`: each id is there once at most.
pub record HasUniqueIds (request : CurateRequest) : Type 0 where
  pub once : (a : Text) → count a (map (λ x. x.id) (activities request)) ≤ 1

pub record CurateAssignment : Type 0 where
  pub activity_id : Text
  pub lesson : Option Text
  pub quote : Option Text
  pub dismiss : Option Text

pub record CurateConflict : Type 0 where
  pub a_id : Text
  pub b_id : Text
  pub reason : Text
  pub sources : List CurateSource

pub record MemoryProposal : Type 0 where
  pub kind : MemoryKind
  pub topic_key : Text
  pub statement : Text
  pub sources : List CurateSource
  pub version : ℕ
  pub resolves : List Text

-- `("active", id)` or `("new", topic_key)`
pub data Ref : Type 0 where
  active : Text → Ref
  new : Text → Ref

pub record ConflictProposal : Type 0 where
  pub a : Ref
  pub b : Ref
  pub reason : Text
  pub sources : List CurateSource

-- The messages of `check_reply`, with the values that their texts name.
pub data Violation : Type 0 where
  reply_not_json : Violation
  lessons_not_list lesson_not_object : Violation
  lesson_malformed : Json → Violation
  assignments_not_list assignment_without_id : Violation
  not_a_failure not_an_activity assigned_twice lesson_or_dismiss bad_dismissal : Text → Violation
  unknown_lesson : Text → Json → Violation
  bad_quote : Text → Violation
  no_assignment : Text → ActivityType → Violation
  lesson_without_failure : Text → Violation
  memories_not_list memory_not_object : Violation
  lesson_as_memory memory_malformed : Json → Violation
  memory_bad_source : Text → Json → Violation
  memory_bad_resolves : Text → Violation
  conflicts_not_list conflict_malformed : Violation
  conflict_bad_source : Ref → Ref → Json → Violation

-- The check of one entry of a reply: what it is worth, or the violation that it is skipped with.
pub data Checked {ℓ} (A : Type ℓ) : Type ℓ where
  ok : A → Checked A
  err : Violation → Checked A

infixl 5 ◌>>=◌ ◌>>◌
abbrev pub ◌>>=◌ {ℓ κ} : {A : Type ℓ} {B : Type κ} → Checked A → (A → Checked B) → Checked B
ok a >>= f = f a
err v >>= f = err v

abbrev pub ◌>>◌ {ℓ} : {B : Type ℓ} → Checked (Unit {0}) → Checked B → Checked B
m >> k = m >>= λ _. k

-- `if not b: violation; continue`
abbrev pub require : Bool → Violation → Checked (Unit {0})
require true v = ok tt
require false v = err v

abbrev pub present {ℓ} : {A : Type ℓ} → Option A → Violation → Checked A
present (some a) v = ok a
present none v = err v

pub record CheckResult : Type 0 where
  pub violations : List Violation
  pub assignments : List CurateAssignment
  pub lessons : Dict Text
  pub memories : List MemoryProposal
  pub conflicts : List ConflictProposal
  pub rejected_memories : ℕ
  pub unaccounted : List Text

abbrev pub empty_result : CheckResult
empty_result = record {
  violations = [];
  assignments = [];
  lessons = [];
  memories = [];
  conflicts = [];
  rejected_memories = 0;
  unaccounted = [];
}

pub record CurateDiagnostics : Type 0 where
  pub llm_calls : ℕ
  pub repairs : ℕ
  pub initial_violations : List Violation
  pub final_violations : List Violation
  pub rejected_memories : ℕ
  pub noop_memories : ℕ
  pub stale_memories : ℕ

pub record CurateResponse : Type 0 where
  pub scope_id : Text
  pub memories : List CurateMemoryVersion
  pub assignments : List CurateAssignment
  pub unaccounted : List Text
  pub conflicts : Option (List CurateConflict)
  pub diagnostics : CurateDiagnostics
