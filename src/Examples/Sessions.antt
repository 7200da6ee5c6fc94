-- ===== src/Examples/Sessions.antt =====
-- Runs of the session curator at a concrete store.
use memry_os_lite.Prelude.{
  ℕ, ◌+◌, ◌≡◌, inl, refl, arith, Text, codes, true, false, Option, none, some, or_else, [], ◌∷◌,
  ◌++◌, map, length, put, teq, teq_iff, elem, is_space, get, count,
}
use memry_os_lite.Json.{str, arr, obj, nil, item, Fields, field, end, get_field, items, as_arr}
use memry_os_lite.Grounding.{repair_quote}
use memry_os_lite.Curate.TopicKey.{normalize_topic_key, statement_text}
use memry_os_lite.Curate.Check.{
  drop_lessons_without_failures, parse_assignments, assignment_of, parse_lessons,
}
use memry_os_lite.Curate.Proposals.{check_reply, parse_memories}
use memry_os_lite.Curate.Response.{consolidate, each_or_raise}
use memry_os_lite.Curate.Consolidate.{memory_is_encodable, is_encodable, memory_id}
use memry_os_lite.Curate.Loop.{checked, Answer, value, Llm, run_curate, start, ask, cycle, finish}
use memry_os_lite.Session.Store.{
  count_session_messages, get_curator_state, list_messages_for_curation,
  list_active_curated_memories, apply_curator_window, bump_curator_state,
}
use memry_os_lite.Session.Tables.{
  CuratedMemoryRow, CuratedMemoryWrite, Message, user, Host, active_status,
}
use memry_os_lite.Session.Window.{
  WindowCounts, curate_window, window_request, window_writes, has_not_json,
}
use memry_os_lite.Session.Activities.{valid_request}
use memry_os_lite.Session.Run.{
  Ran, run_session, commit_window, run_windows, loop, round, round_of, work, conclude, curated,
  context_of, active_rows, fail_window, register_window_failure, skip_window, count_failure,
}
use memry_os_lite.Session.Variables.{
  Settings, Curator, CuratorRunResult, first_result, LoopState, infos_from, attempts, remember,
  forget, note_write, zip_writes,
}
use memry_os_lite.Session.Steps.{Reach, IsOnward}
use memry_os_lite.Session.Ends.{Refused, run_id_of, first_state, run_session-ends}
use memry_os_lite.Session.History.{Extends, run_session-Extends}
use memry_os_lite.Session.Linked.{IsLinked, run_session-IsLinked}
use memry_os_lite.Session.Tallies.{run_session-tallies}
use memry_os_lite.Session.Lookups.{lookup_active}
use memry_os_lite.Session.Mirror.{Mirrors, IsFresh, commit_window-Mirrors}
use memry_os_lite.Examples.Base.{ascii, no_hashing}

abbrev host : Host
host = record { new_id = λ prefix n. prefix ++ n ∷ []; utc_now = λ n. 1000 + n }

abbrev room_id : Text
room_id = codes "room"

-- A decision that is active, and a message that changes it.
abbrev friday : CuratedMemoryRow
friday = record {
  id = codes "old";
  session_id = room_id;
  kind = codes "decision";
  topic_key = codes "deploy.day";
  statement = codes "deploys go out on friday";
  sources = [];
  status = active_status;
  supersedes_id = none;
  superseded_by_id = none;
  run_id = [];
  model = [];
  created_at = 1;
  version = 0;
  occurrences = 1;
}

abbrev remark : Message
remark = record {
  id = codes "m1";
  session_id = room_id;
  role = user;
  content = codes "deploys go out on monday now";
  metadata = end;
  created_at = 5;
}

abbrev curator : Curator
curator = record {
  store = record {
    memories = friday ∷ [];
    states = [];
    messages = remark ∷ [];
    ids = 0;
    times = 0;
  };
  window_failures = [];
  requests = 0;
}

abbrev reply : Fields
reply =
    field (codes "memories")
      (arr (
        item
          (obj (
            field (codes "kind") (str (codes "decision")) (
              field (codes "topic_key") (str (codes "deploy.day")) (
                field (codes "statement") (str (codes "deploys go out on monday")) (
                  field (codes "sources")
                    (arr (
                      item
                        (obj (
                          field (codes "activity_id") (str (codes "m1"))
                            (field (codes "quote") (str (codes "go out on monday")) end)))
                        nil))
                    end)))))
          nil))
      end

abbrev settings_with : (ℕ → Llm) → Settings
settings_with llm = record {
  window_messages = 12;
  idle_flush = 20;
  max_active_in_prompt = 40;
  model = codes "model";
  has_key = true;
  llm = some llm;
  has_langgraph = true;
}

abbrev settings : Settings
settings = settings_with (λ k n prompt. value (obj reply))

abbrev outcome : Option Ran → Ran
outcome r = or_else r (curator, none)

abbrev result_of : Ran → CuratorRunResult
result_of r = or_else r.1 first_result

run : Settings → Curator → Option Ran
unfolding run_session run_windows loop round round_of work conclude curated context_of infos_from
    active_rows commit_window fail_window register_window_failure skip_window count_failure attempts
    remember forget note_write zip_writes get_curator_state count_session_messages
    list_messages_for_curation list_active_curated_memories apply_curator_window bump_curator_state
    curate_window window_request window_writes valid_request has_not_json run_curate start ask cycle
    finish check_reply is_space parse_memories get_field teq items normalize_topic_key
    statement_text get put elem repair_quote drop_lessons_without_failures parse_assignments
    assignment_of parse_lessons as_arr consolidate checked each_or_raise memory_is_encodable
    is_encodable memory_id
run settings c = run_session host settings no_hashing ascii room_id true c

abbrev after : Settings → Curator → Curator
after settings c = (outcome (run settings c)).0

abbrev result : Settings → Curator → CuratorRunResult
result settings c = result_of (outcome (run settings c))

-- The run supersedes the decision.
returns :
    run_session host settings no_hashing ascii room_id true curator
    ≡ some (after settings curator, some (result settings curator))
unfolding run
returns = refl

superseded :
    map (λ r. r.superseded_by_id) (after settings curator).store.memories
    ≡ some (codes "cmem" ++ 1 ∷ []) ∷ none ∷ []
unfolding run
superseded = refl

run_session-ends_example :
    (outcome : Ran) × (run_session host settings no_hashing ascii room_id true curator
      ≡ some outcome)
    × Reach host room_id curator.store outcome.0.store
    × IsOnward host room_id curator.store outcome.0.store
    × (outcome.1 ≡ none
        → (llm : ℕ → Llm) × (settings.llm ≡ some llm)
          × Refused host settings no_hashing ascii room_id true llm
              (run_id_of host settings no_hashing ascii room_id true curator)
              (first_state host settings no_hashing ascii room_id true curator))
run_session-ends_example = run_session-ends host settings no_hashing ascii room_id true curator

run_session-Extends_example : Extends room_id (friday ∷ []) (after settings curator).store.memories
run_session-Extends_example =
    run_session-Extends host settings no_hashing ascii room_id true curator
      (after settings curator, some (result settings curator)) returns

run_session-IsLinked_example : IsLinked (after settings curator).store.memories
run_session-IsLinked_example =
    run_session-IsLinked host settings no_hashing ascii room_id true curator
      (after settings curator, some (result settings curator)) returns (inl (refl, refl), tt)

run_session-tallies_example :
    ((result settings curator).operations
      ≡ (result settings curator).added
        + (result settings curator).superseded
        + (result settings curator).noop
        + (result settings curator).stale
        + (result settings curator).rejected_grounding)
    × (length (after settings curator).store.memories
        ≡ 1 + (result settings curator).added + (result settings curator).superseded)
run_session-tallies_example =
    run_session-tallies host settings no_hashing ascii room_id true curator (after settings curator)
      (result settings curator) returns

-- The provider is down: the message is passed over at the third run.
abbrev down_llm : ℕ → Llm
down_llm k n prompt = Answer.llm_error

abbrev down : Settings
down = settings_with down_llm

abbrev once : Curator
once = after down curator

abbrev twice : Curator
twice = after down once

abbrev thrice : Curator
thrice = after down twice

-- A window whose write supersedes the decision.
abbrev replacement : CuratedMemoryWrite
replacement = record {
  kind = codes "decision";
  topic_key = codes "deploy.day";
  statement = codes "deploys go out on monday";
  sources = [];
  supersedes_id = some (codes "old");
  version = 1;
  occurrences = 1;
  also_supersedes = [];
  superseded_by_id = none;
}

abbrev counts : WindowCounts
counts = record {
  added = 0;
  superseded = 1;
  noop = 0;
  rejected = 0;
  stale = 0;
  writes = replacement ∷ [];
}

abbrev state : LoopState
state = record {
  curator = curator;
  active = (codes "old", friday) ∷ [];
  result = first_result;
  run_counted = false;
  seq = 0;
}

state-IsFresh : IsFresh host 0 (friday ∷ []) (replacement ∷ [])
unfolding elem teq
state-IsFresh = record {
  new_rows = λ n h. refl;
  new_targets = λ n h. (refl, tt);
  distinct = λ m n e. ground (arith, e);
}

state-Mirrors : Mirrors room_id (friday ∷ []) ((codes "old", friday) ∷ [])
unfolding get lookup_active count teq
state-Mirrors = record {
  once = λ j. ground (arith, teq_iff j (codes "old"));
  same = λ k. ground (arith, teq_iff k (codes "old"));
}

commit_window-Mirrors_example :
    let s = commit_window host settings room_id state (remark ∷ []) (codes "run") counts in
    Mirrors room_id s.curator.store.memories s.active
commit_window-Mirrors_example =
    commit_window-Mirrors host settings room_id state (remark ∷ []) (codes "run") counts
      state-IsFresh state-Mirrors
