-- ===== src/Session/Tables.antt =====
-- memoryos_eval/memory/store_curator.py: the rows of the tables of curated memories, of curator
-- states and of messages, as lists in the order of insertion, and the clock and the source of ids,
-- which are parameters, read by counters that the store keeps. Times are microseconds.
use memry_os_lite.Prelude.{ℕ, Text, codes, Bool, Option, List, Dict, teq}
use memry_os_lite.Json.{Fields}

pub record CuratedMemoryRow : Type 0 where
  pub id : Text
  pub session_id : Text
  pub kind : Text
  pub topic_key : Text
  pub statement : Text
  pub sources : List Fields
  pub status : Text
  pub supersedes_id : Option Text
  pub superseded_by_id : Option Text
  pub run_id : Text
  pub model : Text
  pub created_at : ℕ
  pub version : ℕ
  pub occurrences : ℕ

pub data ErrorCode : Type 0 where
  curator_llm_key_missing curator_llm_init_error curator_llm_error : ErrorCode
  curator_schema_error curate_requires_langgraph : ErrorCode

pub record CuratorStateRow : Type 0 where
  pub last_message_seq : ℕ
  pub last_run_at : Option ℕ
  pub last_error_code : Option ErrorCode
  pub runs : ℕ
  pub proposals : ℕ
  pub rejected_grounding : ℕ
  pub rejected_schema : ℕ
  pub llm_errors : ℕ

pub record CuratedMemoryWrite : Type 0 where
  pub kind : Text
  pub topic_key : Text
  pub statement : Text
  pub sources : List Fields
  pub supersedes_id : Option Text
  pub version : ℕ
  pub occurrences : ℕ
  pub also_supersedes : List Text
  pub superseded_by_id : Option Text

pub data Role : Type 0 where
  user assistant system tool : Role

-- What is read of a `Message`.
pub record Message : Type 0 where
  pub id : Text
  pub session_id : Text
  pub role : Role
  pub content : Text
  pub metadata : Fields
  pub created_at : ℕ

-- The tables, and how many ids and times were taken.
pub record Store : Type 0 where
  pub memories : List CuratedMemoryRow
  pub states : Dict CuratorStateRow
  pub messages : List Message
  pub ids : ℕ
  pub times : ℕ

-- `new_id(prefix)` and `utc_now()`, at their n-th calls
pub record Host : Type 0 where
  pub new_id : Text → ℕ → Text
  pub utc_now : ℕ → ℕ

abbrev pub active_status : Text
active_status = codes "active"

abbrev pub superseded_status : Text
superseded_status = codes "superseded"

abbrev pub is_active : CuratedMemoryRow → Bool
is_active row = teq row.status active_status
