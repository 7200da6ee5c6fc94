-- ===== src/Examples/Curation.antt =====
-- Grounding and curation at a concrete request.
use memry_os_lite.Prelude.{
  bind, is_some, Option, zero, suc, ◌<◌, length, ◌≡◌, refl, arith, Text, codes, true, teq, teq_iff,
  get, none, some, [], ◌∷◌, map, All, count, elem, is_space,
}
use memry_os_lite.Json.{Json, str, arr, obj, nil, item, Fields, field, get_field, items, as_arr}
use memry_os_lite.Grounding.{repair_quote}
use memry_os_lite.Grounding.Spans.{IsGrounded, repair_quote-IsGrounded}
use memry_os_lite.Curate.Model.{
  CurateRequest, CurateActivity, CurateMemory, CurateResponse, HasUniqueIds, activities, failures,
  room, gate_failure, message, lesson, decision,
}
use memry_os_lite.Curate.Assigned.{IsDecided}
use memry_os_lite.Curate.Assigned.Reply.{check_reply-IsDecided}
use memry_os_lite.Curate.Check.{
  by_id, drop_lessons_without_failures, parse_assignments, assignment_of, parse_lessons,
}
use memry_os_lite.Curate.Sourced.{IsSourced}
use memry_os_lite.Curate.Sourced.Reply.{check_reply-IsSourced}
use memry_os_lite.Curate.Prompts.{join_with, render_request}
use memry_os_lite.Curate.Listed.{EndsWith, render_request-failures}
use memry_os_lite.Curate.TopicKey.{normalize_topic_key, statement_text}
use memry_os_lite.Curate.Proposals.{check_reply, parse_memories}
use memry_os_lite.Curate.Accounting.{IsAccounted, check_reply-IsAccounted}
use memry_os_lite.Curate.Consolidate.{newest, bucket, memory_is_encodable, is_encodable, memory_id}
use memry_os_lite.Curate.Response.{consolidate, each_or_raise}
use memry_os_lite.Curate.Versions.{IsInOrder, replaced_by, consolidate-IsInOrder}
use memry_os_lite.Curate.Newest.{IsNewest, newest-IsNewest}
use memry_os_lite.Curate.Loop.{value, Llm}
use memry_os_lite.Examples.Base.{ascii, ascii-laws, no_hashing}

-- Grounding.
abbrev log : Text
log = codes "the Build  failed twice today"

grounded : repair_quote ascii log (codes "build failed twice") ≡ some (codes "Build  failed twice")
unfolding repair_quote is_space
grounded = refl

repair_quote-IsGrounded_example :
    IsGrounded ascii log (codes "build failed twice") (codes "Build  failed twice")
repair_quote-IsGrounded_example =
    repair_quote-IsGrounded ascii ascii-laws log (codes "build failed twice") grounded

-- Curation: one failure, an active lesson with its key and another active memory.
abbrev failure : CurateActivity
failure = record {
  id = codes "f1";
  seq = 4;
  type = gate_failure;
  kind = none;
  speaker = codes "gate";
  text = log;
}

abbrev remark : CurateActivity
remark = record {
  id = codes "m1";
  seq = 3;
  type = message;
  kind = none;
  speaker = codes "ann";
  text = codes "deploys go out on monday now";
}

abbrev prior_lesson : CurateMemory
prior_lesson = record {
  id = codes "l1";
  kind = lesson;
  topic_key = codes "build.checks";
  statement = codes "run the build twice";
  version = 2;
  occurrences = 1;
  sources = [];
}

abbrev prior_decision : CurateMemory
prior_decision = record {
  id = codes "d1";
  kind = decision;
  topic_key = codes "deploy.day";
  statement = codes "deploys go out on friday";
  version = 1;
  occurrences = 1;
  sources = [];
}

abbrev pub curation : CurateRequest
curation = record {
  scope_id = codes "s";
  profile = room;
  active = prior_lesson ∷ prior_decision ∷ [];
  context = remark ∷ [];
  window = failure ∷ [];
  max_repairs = 1;
}

curation-HasUniqueIds : HasUniqueIds curation
unfolding count
curation-HasUniqueIds = record {
  once = λ a. ground (arith, teq_iff a (codes "m1"), teq_iff a (codes "f1"));
}

abbrev assignment_json : Json
assignment_json = obj (
    field (codes "activity_id") (str (codes "f1")) (
      field (codes "lesson") (str (codes "build.checks"))
        (field (codes "quote") (str (codes "build failed twice")) Fields.end)))

abbrev source_json : Json
source_json = obj (
    field (codes "activity_id") (str (codes "m1"))
      (field (codes "quote") (str (codes "go out on monday")) Fields.end))

abbrev memory_json : Json
memory_json = obj (
    field (codes "kind") (str (codes "decision")) (
      field (codes "topic_key") (str (codes "deploy.day")) (
        field (codes "statement") (str (codes "deploys go out on monday"))
          (field (codes "sources") (arr (item source_json nil)) Fields.end))))

abbrev good_reply : Fields
good_reply =
    field (codes "assignments") (arr (item assignment_json nil))
      (field (codes "memories") (arr (item memory_json nil)) Fields.end)

-- A good reply has no violation, and what is missing is reported.
no_violation : (check_reply ascii curation (some good_reply)).violations ≡ []
unfolding check_reply is_space parse_memories get_field teq items normalize_topic_key statement_text
    get repair_quote drop_lessons_without_failures parse_assignments elem assignment_of
    parse_lessons as_arr
no_violation = refl

missing : (check_reply ascii curation (some Fields.end)).unaccounted ≡ codes "f1" ∷ []
unfolding check_reply is_space parse_memories get_field drop_lessons_without_failures
    parse_assignments elem parse_lessons
missing = refl

check_reply-IsAccounted_example :
    IsAccounted curation (check_reply ascii curation (some good_reply))
check_reply-IsAccounted_example =
    check_reply-IsAccounted ascii curation (some good_reply) curation-HasUniqueIds

check_reply-IsDecided_example :
    All
      (IsDecided (by_id (failures curation)))
      (check_reply ascii curation (some good_reply)).assignments
check_reply-IsDecided_example = check_reply-IsDecided ascii ascii-laws curation (some good_reply)

check_reply-IsSourced_example :
    All
      (IsSourced (by_id (activities curation)))
      (check_reply ascii curation (some good_reply)).memories
check_reply-IsSourced_example = check_reply-IsSourced ascii ascii-laws curation (some good_reply)

versions :
    bind
      (consolidate no_hashing ascii curation (check_reply ascii curation (some good_reply)))
      (λ r. some (map (λ v. v.version) r.memories))
    ≡ some (4 ∷ 3 ∷ [])
unfolding consolidate check_reply is_space parse_memories get_field teq items normalize_topic_key
    statement_text get repair_quote drop_lessons_without_failures parse_assignments elem
    assignment_of parse_lessons as_arr each_or_raise memory_is_encodable is_encodable memory_id
versions = refl

the : (o : Option CurateResponse) → is_some o ≡ true → CurateResponse
the none e = absurd (ground (arith, e))
the (some r) e = r

some-the : (o : Option CurateResponse) (e : is_some o ≡ true) → o ≡ some (the o e)
unfolding the
some-the none e = absurd (ground (arith, e))
some-the (some r) e = refl

consolidated :
    is_some (consolidate no_hashing ascii curation (check_reply ascii curation (some good_reply)))
    ≡ true
unfolding consolidate check_reply is_space parse_memories get_field teq items normalize_topic_key
    statement_text get repair_quote drop_lessons_without_failures parse_assignments elem
    assignment_of parse_lessons as_arr each_or_raise memory_is_encodable is_encodable memory_id
consolidated = refl

abbrev response : CurateResponse
response =
    the (consolidate no_hashing ascii curation (check_reply ascii curation (some good_reply)))
      consolidated

consolidate-IsInOrder_example :
    All (λ v. IsInOrder ascii (replaced_by curation v) v) response.memories
consolidate-IsInOrder_example =
    consolidate-IsInOrder no_hashing ascii curation (check_reply ascii curation (some good_reply))
      response (some-the _ _)

newest_lesson : newest (bucket true curation (codes "build.checks")) ≡ some prior_lesson
unfolding newest bucket teq
newest_lesson = refl

newest-IsNewest_example : IsNewest true curation (codes "build.checks") prior_lesson
newest-IsNewest_example = newest-IsNewest true curation (codes "build.checks") newest_lesson

-- An LLM that answers well at the second call.
abbrev second_try : Llm
second_try zero prompt = value (obj Fields.end)
second_try (suc n) prompt = value (obj good_reply)

-- A key that is normalized twice.
dotted : normalize_topic_key ascii (codes "a._.b") ≡ some (codes "a..b")
unfolding normalize_topic_key is_space
dotted = refl

dotted_again : normalize_topic_key ascii (codes "a..b") ≡ some (codes "a.b")
unfolding normalize_topic_key is_space
dotted_again = refl

curation-failures : 0 < length (join_with (codes ", ") (map (λ a. a.id) (failures curation)))
unfolding failures join_with
curation-failures = omega arith

render_request-failures_example :
    EndsWith room
      (join_with (codes ", ") (map (λ a. a.id) (failures curation)))
      (render_request curation)
render_request-failures_example = render_request-failures curation curation-failures
