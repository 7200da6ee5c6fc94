-- ===== src/Session/Store.antt =====
-- memoryos_eval/memory/store_curator.py: the tables of curated memories, of curator states and of
-- messages, and the operations on them. The database is a record of lists in the order of insertion;
-- a query that names an order sorts. Times are microseconds, and a clock and a source of ids are
-- parameters, read by counters that the store keeps.
use memry_os_lite.Prelude.{
  ℕ, ◌+◌, min, max, elem, Text, codes, Bool, ◌&&◌, ◌||◌, ltb, ◌==◌, if◌then◌else◌, Option, none,
  some, or_else, is_some, List, [], ◌∷◌, ◌++◌, map, keep, each, length, take, drop, Dict, get, put,
  teq, sort, text_le,
}
use mathlib.Core.List.{reverse}
use memry_os_lite.Session.Tables.{
  CuratedMemoryRow, CuratedMemoryWrite, CuratorStateRow, ErrorCode, Host, Message, Store,
  active_status, is_active, superseded_status,
}

unfoldable pub get_curator_state : Store → Text → Option CuratorStateRow
unfolding get
get_curator_state store session_id = get store.states session_id

-- `db.get(CuratedMemoryRecord, memory_id)`: ids are primary keys.
unfoldable pub get_curated_memory : List CuratedMemoryRow → Text → Option CuratedMemoryRow
get_curated_memory [] memory_id = none
get_curated_memory (row ∷ rows) memory_id =
    if teq row.id memory_id then some row else get_curated_memory rows memory_id

-- An active row of the session.
abbrev pub is_active_in : Text → CuratedMemoryRow → Bool
is_active_in session_id row = teq row.session_id session_id && is_active row

-- `order_by(created_at.asc(), id.asc())`
abbrev pub row_le : CuratedMemoryRow → CuratedMemoryRow → Bool
row_le a b = ltb a.created_at b.created_at || (a.created_at == b.created_at && text_le a.id b.id)

abbrev pub message_le : Message → Message → Bool
message_le a b =
    ltb a.created_at b.created_at || (a.created_at == b.created_at && text_le a.id b.id)

-- `limit` is `none` in the calls that the curator makes.
unfoldable pub list_active_curated_memories : Store → Text → Option ℕ → List CuratedMemoryRow
unfolding sort
list_active_curated_memories store session_id limit =
    let rows = sort row_le (keep (is_active_in session_id) store.memories) in
    elim limit [ none ↦ rows | some n ↦ take (max 1 n) rows ]

-- The newest rows, oldest first; `order_by(created_at.desc(), id.desc())`, reversed.
unfoldable pub list_curated_memories : Store → Text → ℕ → List CuratedMemoryRow
unfolding sort
list_curated_memories store session_id limit = reverse (
    take (max 1 (min limit 64))
      (sort (λ a b. row_le b a) (keep (λ row. teq row.session_id session_id) store.memories)))

abbrev pub in_session : Text → Message → Bool
in_session session_id message = teq message.session_id session_id

unfoldable pub count_session_messages : Store → Text → ℕ
count_session_messages store session_id = length (keep (in_session session_id) store.messages)

unfoldable pub list_messages_for_curation : Store → Text → ℕ → ℕ → List Message
unfolding sort
list_messages_for_curation store session_id after_seq limit =
    take (max 1 limit)
      (drop after_seq (sort message_le (keep (in_session session_id) store.messages)))

-- The ids once each, in order: those of messages and of states.
unfoldable pub list_curator_session_ids : Store → List Text
unfolding sort elem
list_curator_session_ids store = sort text_le (
    each (λ ids id. if elem id ids then ids else ids ++ id ∷ []) []
      (map (λ m. m.session_id) store.messages ++ map (λ e. e.0) store.states))

-- What the rows of a window have in common.
pub record Stamp : Type 0 where
  pub session_id : Text
  pub run_id : Text
  pub model : Text
  pub now : ℕ

unfoldable pub record_of : Stamp → Text → CuratedMemoryWrite → CuratedMemoryRow
record_of stamp id write = record {
  id = id;
  session_id = stamp.session_id;
  kind = write.kind;
  topic_key = write.topic_key;
  statement = write.statement;
  sources = write.sources;
  status = if is_some write.superseded_by_id then superseded_status else active_status;
  supersedes_id = write.supersedes_id;
  superseded_by_id = write.superseded_by_id;
  run_id = stamp.run_id;
  model = stamp.model;
  created_at = stamp.now;
  version = write.version;
  occurrences = write.occurrences;
}

abbrev pub targets_of : CuratedMemoryWrite → List Text
targets_of write = elim write.supersedes_id [
  | none ↦ write.also_supersedes
  | some target ↦ target ∷ write.also_supersedes
]

-- The row behind `db.get(CuratedMemoryRecord, target)` is flipped, if it is active in the session.
unfoldable pub flip_row : Text → Text → Text → CuratedMemoryRow → CuratedMemoryRow
flip_row session_id by target row =
    if teq row.id target && is_active_in session_id row
    then record row { status = superseded_status; superseded_by_id = some by }
    else row

unfoldable pub flip : Text → Text → List CuratedMemoryRow → Text → List CuratedMemoryRow
unfolding flip_row
flip session_id by rows target = map (flip_row session_id by target) rows

-- One round of the loop over the writes, on the table and the rows created.
unfoldable pub insert_write :
    Host
    → Stamp
    → List CuratedMemoryRow × List CuratedMemoryRow × ℕ
    → CuratedMemoryWrite
    → List CuratedMemoryRow × List CuratedMemoryRow × ℕ
unfolding record_of flip
insert_write host stamp (rows, created, ids) write =
    let row = record_of stamp (host.new_id (codes "cmem") ids) write in
    (
      each (flip stamp.session_id row.id) (rows ++ row ∷ []) (targets_of write),
      created ++ row ∷ [],
      ids + 1,
    )

-- The keyword arguments of `_mutate_curator_state`.
pub record StateChange : Type 0 where
  pub last_message_seq : Option ℕ
  pub last_run_at : Option ℕ
  pub last_error_code : Option ErrorCode
  pub runs : ℕ
  pub proposals : ℕ
  pub rejected_grounding : ℕ
  pub rejected_schema : ℕ
  pub llm_errors : ℕ

abbrev pub fresh_state : CuratorStateRow
fresh_state = record {
  last_message_seq = 0;
  last_run_at = none;
  last_error_code = none;
  runs = 0;
  proposals = 0;
  rejected_grounding = 0;
  rejected_schema = 0;
  llm_errors = 0;
}

unfoldable pub changed_state : CuratorStateRow → StateChange → CuratorStateRow
changed_state state change = record {
  last_message_seq = or_else change.last_message_seq state.last_message_seq;
  last_run_at = if is_some change.last_run_at then change.last_run_at else state.last_run_at;
  last_error_code =
      if ltb 0 change.runs || is_some change.last_error_code
      then change.last_error_code
      else state.last_error_code;
  runs = state.runs + change.runs;
  proposals = state.proposals + change.proposals;
  rejected_grounding = state.rejected_grounding + change.rejected_grounding;
  rejected_schema = state.rejected_schema + change.rejected_schema;
  llm_errors = state.llm_errors + change.llm_errors;
}

-- `_mutate_curator_state`
unfoldable pub mutate_curator_state :
    Dict CuratorStateRow → Text → StateChange → Dict CuratorStateRow
unfolding get put changed_state
mutate_curator_state states session_id change =
    put states session_id (changed_state (or_else (get states session_id) fresh_state) change)

-- The keyword arguments of `apply_curator_window` and `bump_curator_state` that both have.
pub record WindowReport : Type 0 where
  pub ops_count : ℕ
  pub runs : ℕ
  pub rejected_grounding : ℕ
  pub rejected_schema : ℕ
  pub llm_errors : ℕ
  pub error_code : Option ErrorCode

abbrev pub change_of : Option ℕ → Option ℕ → WindowReport → StateChange
change_of last_message_seq last_run_at report = record {
  last_message_seq = last_message_seq;
  last_run_at = last_run_at;
  last_error_code = report.error_code;
  runs = report.runs;
  proposals = report.ops_count;
  rejected_grounding = report.rejected_grounding;
  rejected_schema = report.rejected_schema;
  llm_errors = report.llm_errors;
}

-- The new store, and the rows created.
unfoldable pub apply_curator_window :
    Host
    → Store
    → Text
    → Text
    → Text
    → ℕ
    → List CuratedMemoryWrite
    → WindowReport
    → Store × List CuratedMemoryRow
unfolding insert_write mutate_curator_state
apply_curator_window host store session_id run_id model last_message_seq writes report =
    let now = host.utc_now store.times in
    let stamp : Stamp = record {
      session_id = session_id;
      run_id = run_id;
      model = model;
      now = now;
    } in
    let (rows, created, ids) =
      each (insert_write host stamp) (store.memories, [], store.ids) writes in
    (
      record store {
        memories = rows;
        states =
            mutate_curator_state store.states session_id
              (change_of (some last_message_seq) (some now) report);
        ids = ids;
        times = store.times + 1;
      },
      created,
    )

-- The clock is read if `runs` is not 0.
unfoldable pub bump_curator_state : Host → Store → Text → WindowReport → Store
unfolding mutate_curator_state
bump_curator_state host store session_id report =
    let counted = ltb 0 report.runs in
    record store {
      states =
          mutate_curator_state store.states session_id
            (change_of none (if counted then some (host.utc_now store.times) else none) report);
      times = if counted then store.times + 1 else store.times;
    }
