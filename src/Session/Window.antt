-- ===== src/Session/Window.antt =====
-- memoryos_eval/memory/session_curator.py: how a window of messages becomes a curate request, and
-- how the response becomes writes. The bounds that the models of curate.py declare on requests are
-- checked where the request is built.
use memry_os_lite.Prelude.{
  ℕ, ◌+◌, min, Text, codes, Bool, true, false, not, ◌&&◌, if◌then◌else◌, none, some, or_else,
  is_some, List, [], ◌∷◌, ◌++◌, map, keep, each, length, take_last, Dict, get, teq,
}
use memry_os_lite.Unicode.{Unicode}
use memry_os_lite.Json.{Fields, field, str}
use memry_os_lite.Curate.Model.{
  kind_name, is_lesson, room, CurateSource, CurateMemoryVersion, CurateRequest, CurateResponse,
  Violation, max_repairs_limit,
}
use memry_os_lite.Curate.Consolidate.{Hashing}
use memry_os_lite.Curate.Loop.{Llm, run_curate}
use memry_os_lite.Session.Tables.{CuratedMemoryRow, CuratedMemoryWrite, Message}
use memry_os_lite.Session.Activities.{
  MessageInfo, message_info, curate_activity, curate_memory, valid_request,
}

pub record WindowCounts : Type 0 where
  pub added : ℕ
  pub superseded : ℕ
  pub noop : ℕ
  pub rejected : ℕ
  pub stale : ℕ
  pub writes : List CuratedMemoryWrite

-- `counts.proposals`, which is set last
abbrev pub proposals : WindowCounts → ℕ
proposals counts = length counts.writes + counts.noop + counts.stale + counts.rejected

abbrev same_bool : Bool → Bool → Bool
same_bool true b = b
same_bool false b = not b

-- The other active rows of a topic that a new version retires.
unfoldable pub also_superseded : Dict CuratedMemoryRow → CurateMemoryVersion → Text → List Text
also_superseded active version supersedes_id =
    map (λ e. e.1.id)
      (keep
        (λ e.
          teq e.1.topic_key version.topic_key
          && same_bool (teq e.1.kind (codes "lesson")) (is_lesson version.kind)
          && not (teq e.1.id supersedes_id))
        active)

abbrev pub stored_source : CurateSource → Fields
stored_source source =
    field (codes "message_id") (str source.activity_id)
      (field (codes "quote") (str source.quote) Fields.end)

unfoldable pub write_of : Dict CuratedMemoryRow → CurateMemoryVersion → CuratedMemoryWrite
unfolding also_superseded
write_of active version = record {
  kind = kind_name version.kind;
  topic_key = version.topic_key;
  statement = version.statement;
  sources = map stored_source version.sources;
  supersedes_id = version.supersedes_id;
  version = version.version;
  occurrences = version.occurrences;
  also_supersedes = elim version.supersedes_id [
    | none ↦ []
    | some id ↦ also_superseded active version id
  ];
  superseded_by_id = none;
}

-- One round of the loop over the new versions.
unfoldable pub count_version :
    Dict CuratedMemoryRow → WindowCounts → CurateMemoryVersion → WindowCounts
unfolding write_of
count_version active counts version =
    let replaces = is_some version.supersedes_id in
    record counts {
      added = if replaces then counts.added else counts.added + 1;
      superseded = if replaces then counts.superseded + 1 else counts.superseded;
      writes = counts.writes ++ write_of active version ∷ [];
    }

-- `_window_writes`
unfoldable pub window_writes : CurateResponse → Dict CuratedMemoryRow → WindowCounts
unfolding count_version
window_writes response active =
    each (count_version active)
      (record {
        added = 0;
        superseded = 0;
        noop = response.diagnostics.noop_memories;
        rejected = response.diagnostics.rejected_memories;
        stale = response.diagnostics.stale_memories;
        writes = [];
      })
      response.memories

-- What `_curate_window` returns or raises: counts, `ImportError`, `ValidationError`,
-- `CuratorLLMError` and `_UnusableReply`. Every other exception of `run_curate` becomes a
-- `CuratorLLMError`.
pub data Curated : Type 0 where
  counts_of : WindowCounts → Curated
  import_error invalid_request provider_error unusable_reply : Curated

-- `REPLY_NOT_JSON in violations`
unfoldable pub has_not_json : List Violation → Bool
has_not_json [] = false
has_not_json (Violation.reply_not_json ∷ vs) = true
has_not_json (_ ∷ vs) = has_not_json vs

abbrev pub info_of : Dict MessageInfo → Message → MessageInfo
unfolding get message_info
info_of infos message = or_else (get infos message.id) (message_info message 0)

-- The request; the id of each message is a key of `infos`.
unfoldable pub window_request :
    ℕ
    → Text
    → List Message
    → List Message
    → Dict CuratedMemoryRow
    → Dict MessageInfo
    → CurateRequest
unfolding curate_memory curate_activity get message_info
window_request max_active session_id context window active infos = record {
  scope_id = session_id;
  profile = room;
  active = map (λ e. curate_memory e.1) (take_last (min max_active 60) active);
  context = map (λ m. curate_activity m (info_of infos m)) context;
  window = map (λ m. curate_activity m (info_of infos m)) window;
  max_repairs = max_repairs_limit;
}

module _ (h : Hashing) (u : Unicode) where
  unfoldable pub curate_window : Bool → Llm → CurateRequest → Dict CuratedMemoryRow → Curated
  unfolding valid_request run_curate has_not_json window_writes
  curate_window has_langgraph llm request active = elim (has_langgraph) [
    | false ↦ import_error
    | true ↦ elim (valid_request request) [
      | false ↦ invalid_request
      | true ↦ elim (run_curate h u llm request) [
        | none ↦ provider_error
        | some response ↦
            if has_not_json response.diagnostics.final_violations
            then unusable_reply
            else counts_of (window_writes response active)
      ]
    ]
  ]
