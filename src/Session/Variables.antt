-- ===== src/Session/Variables.antt =====
-- memoryos_eval/memory/session_curator.py: the variables of `Curator.run_session`, its result, and
-- the failures of windows that the curator keeps.
use memry_os_lite.Prelude.{
  ℕ, ◌+◌, Text, Bool, ◌&&◌, ltb, ◌==◌, if◌then◌else◌, Option, none, some, List, [], ◌∷◌, each, Dict,
  put, delete, teq,
}
use memry_os_lite.Curate.Loop.{Llm}
use memry_os_lite.Session.Store.{targets_of}
use memry_os_lite.Session.Tables.{
  CuratedMemoryRow, CuratedMemoryWrite, Message, Store, ErrorCode, curate_requires_langgraph,
  is_active,
}
use memry_os_lite.Session.Activities.{MessageInfo, message_info}

abbrev pub skip_after_failures : ℕ
skip_after_failures = 3

abbrev pub context_messages : ℕ
context_messages = 4

pub data Status : Type 0 where
  no_messages llm_unavailable ok idle skipped failed : Status

pub record CuratorRunResult : Type 0 where
  pub windows : ℕ
  pub operations : ℕ
  pub added : ℕ
  pub superseded : ℕ
  pub noop : ℕ
  pub rejected_grounding : ℕ
  pub rejected_schema : ℕ
  pub llm_errors : ℕ
  pub stale : ℕ
  pub status : Status
  pub error_code : Option ErrorCode

abbrev pub first_result : CuratorRunResult
first_result = record {
  windows = 0;
  operations = 0;
  added = 0;
  superseded = 0;
  noop = 0;
  rejected_grounding = 0;
  rejected_schema = 0;
  llm_errors = 0;
  stale = 0;
  status = no_messages;
  error_code = none;
}

-- The settings that are read, and what the process has: an API key, an LLM, and langgraph.
pub record Settings : Type 0 where
  pub window_messages : ℕ
  pub idle_flush : ℕ
  pub max_active_in_prompt : ℕ
  pub model : Text
  pub has_key : Bool
  pub llm : Option (ℕ → Llm)
  pub has_langgraph : Bool

-- `self._window_failures`, by session and watermark
abbrev pub Failures : Type 0
Failures = List ((Text × ℕ) × ℕ)

abbrev pub same_key : Text × ℕ → Text × ℕ → Bool
same_key a b = teq a.0 b.0 && a.1 == b.1

-- `get(key, 0)`
unfoldable pub attempts : Failures → Text × ℕ → ℕ
attempts [] key = 0
attempts ((k, n) ∷ fs) key = if same_key key k then n else attempts fs key

-- `pop(key, None)`
unfoldable pub forget : Failures → Text × ℕ → Failures
forget [] key = []
forget ((k, n) ∷ fs) key = if same_key key k then forget fs key else (k, n) ∷ forget fs key

unfoldable pub remember : Failures → Text × ℕ → ℕ → Failures
unfolding forget
remember fs key n = (key, n) ∷ forget fs key

-- The curator: its store, the failures of windows, and how many curate requests were made.
pub record Curator : Type 0 where
  pub store : Store
  pub window_failures : Failures
  pub requests : ℕ

-- The variables of the loop.
pub record LoopState : Type 0 where
  pub curator : Curator
  pub active : Dict CuratedMemoryRow
  pub result : CuratorRunResult
  pub run_counted : Bool
  pub seq : ℕ

-- How a round ends: with the next one, with the result, or by a `ValidationError`.
pub data Next : Type 0 where
  again finished raised : LoopState → Next

-- The loop over a write, the row that it created, and the rows that are active.
unfoldable pub note_write :
    Dict CuratedMemoryRow → CuratedMemoryWrite × CuratedMemoryRow → Dict CuratedMemoryRow
unfolding put delete
note_write active (write, row) =
    let left = each delete active (targets_of write) in
    if is_active row then put left row.id row else left

-- `zip(counts.writes, created)`
unfoldable pub zip_writes :
    List CuratedMemoryWrite → List CuratedMemoryRow → List (CuratedMemoryWrite × CuratedMemoryRow)
zip_writes [] rows = []
zip_writes (w ∷ ws) [] = []
zip_writes (w ∷ ws) (r ∷ rs) = (w, r) ∷ zip_writes ws rs

-- `enumerate`, with the position of the first
unfoldable pub infos_from : Dict MessageInfo → ℕ → List Message → Dict MessageInfo
unfolding put message_info
infos_from infos position [] = infos
infos_from infos position (m ∷ ms) =
    infos_from (put infos m.id (message_info m position)) (position + 1) ms

abbrev pub count_request : LoopState → LoopState
count_request s = record s { curator = record s.curator { requests = s.curator.requests + 1 } }

abbrev pub read_clock : LoopState → LoopState
read_clock s = record s {
  curator = record s.curator {
    store = record s.curator.store { times = s.curator.store.times + 1 };
  };
}

-- What `except ImportError` leaves.
abbrev pub without_langgraph : LoopState → LoopState
without_langgraph s = record s {
  result = record s.result {
    status = llm_unavailable;
    error_code = some curate_requires_langgraph;
    llm_errors = s.result.llm_errors + 1;
  };
}

abbrev pub stop_early : LoopState → LoopState
stop_early s = record s {
  result = record s.result { status = if ltb 0 s.result.windows then ok else idle };
}
