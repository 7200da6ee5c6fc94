-- ===== src/Session/Activities.antt =====
-- memoryos_eval/memory/session_curator.py: messages and rows as the parts of a curate request, and
-- the bounds that the models of curate.py declare on requests.
use memry_os_lite.Prelude.{
  ℕ, max, Text, codes, Bool, true, false, not, ◌&&◌, leb, if◌then◌else◌, Option, none, some,
  or_else, List, [], ◌∷◌, ◌++◌, map, keep, all, length, take, teq, elem, strip, is_space,
}
use memry_os_lite.Json.{Json, number, Fields, get_field, as_str}
use memry_os_lite.Curate.Model.{
  ActivityType, MemoryKind, CurateActivity, CurateSource, CurateMemory, CurateRequest, activities,
  max_repairs_limit,
}
use memry_os_lite.Curate.Proposals.{find_kind}
use memry_os_lite.Session.Tables.{CuratedMemoryRow, Role, user, assistant, system, tool, Message}

pub record MessageInfo : Type 0 where
  pub content : Text
  pub version : ℕ
  pub created_at : ℕ
  pub activity_type : Option Text

-- A sequence number counts if it is an integer of at least 0.
abbrev pub version_or : ℕ → Json → ℕ
version_or position (number n) = n
version_or position _ = position

-- `_message_info`
unfoldable pub message_info : Message → ℕ → MessageInfo
unfolding get_field
message_info message position = record {
  content = message.content;
  version = version_or position (get_field (codes "activity_seq") message.metadata);
  created_at = message.created_at;
  activity_type = as_str (get_field (codes "activity_type") message.metadata);
}

abbrev pub role_value : Role → Text
role_value user = codes "user"
role_value assistant = codes "assistant"
role_value system = codes "system"
role_value tool = codes "tool"

abbrev pub speaker_kind : Role → Text
speaker_kind user = codes "human"
speaker_kind _ = codes "agent"

-- The loop over the keys: the first that holds a text that is not blank.
unfoldable pub speaker_in : Fields → List Text → Option Text
unfolding get_field strip
speaker_in metadata [] = none
speaker_in metadata (key ∷ keys) =
    let rest = speaker_in metadata keys in
    elim (strip is_space (or_else (as_str (get_field key metadata)) [])) [
      | [] ↦ rest
      | c ∷ s ↦ some (c ∷ s)
    ]

unfoldable pub speaker_label : Message → Text × Text
unfolding speaker_in
speaker_label message = (
  or_else (speaker_in message.metadata (codes "speaker_name" ∷ codes "participant_id" ∷ []))
      (role_value message.role),
  speaker_kind message.role,
)

-- `info.activity_type if info.activity_type in ACTIVITY_TYPES else "message"`
unfoldable pub activity_type_of : Option Text → ActivityType
activity_type_of none = ActivityType.message
activity_type_of (some name) =
    if teq name (codes "review_objection")
    then ActivityType.review_objection
    else if teq name (codes "gate_failure")
    then ActivityType.gate_failure
    else if teq name (codes "contract_revision")
    then ActivityType.contract_revision
    else ActivityType.message

-- `message.content or " "`
abbrev pub text_or_blank : Text → Text
text_or_blank [] = codes " "
text_or_blank (c ∷ s) = c ∷ s

-- `_curate_activity`
unfoldable pub curate_activity : Message → MessageInfo → CurateActivity
unfolding speaker_label activity_type_of
curate_activity message info =
    let (label, kind) = speaker_label message in
    record {
      id = message.id;
      seq = info.version;
      type = activity_type_of info.activity_type;
      kind = none;
      speaker = take 128 (label ++ codes ", " ++ kind);
      text = text_or_blank message.content;
    }

-- `MEMORY_KINDS`
abbrev pub memory_kinds : List MemoryKind
memory_kinds =
    MemoryKind.fact ∷ MemoryKind.decision ∷ MemoryKind.rule ∷ MemoryKind.preference
    ∷ MemoryKind.lesson ∷ []

-- `source[key]`, for a source whose values are texts
abbrev pub text_field : Text → Fields → Text
unfolding get_field
text_field key source = or_else (as_str (get_field key source)) []

abbrev pub is_empty : Text → Bool
is_empty [] = true
is_empty (c ∷ s) = false

-- `_curate_memory`
unfoldable pub curate_memory : CuratedMemoryRow → CurateMemory
unfolding find_kind get_field
curate_memory row = record {
  id = row.id;
  kind = or_else (find_kind row.kind memory_kinds) MemoryKind.fact;
  topic_key = row.topic_key;
  statement = row.statement;
  version = row.version;
  occurrences = max 1 row.occurrences;
  sources =
      map
        (λ source. record {
          activity_id = text_field (codes "message_id") source;
          quote = text_field (codes "quote") source;
        })
        (keep
          (λ source.
            not (is_empty (text_field (codes "message_id") source))
            && not (is_empty (text_field (codes "quote") source)))
          row.sources);
}

-- `min_length` and `max_length`
abbrev pub sized_within : ℕ → ℕ → Text → Bool
sized_within low high s = leb low (length s) && leb (length s) high

abbrev pub valid_activity : CurateActivity → Bool
valid_activity a =
    sized_within 1 128 a.id && leb (length a.speaker) 128 && sized_within 1 200000 a.text

abbrev pub valid_source : CurateSource → Bool
valid_source s = sized_within 1 128 s.activity_id && leb 1 (length s.quote)

abbrev pub valid_memory : CurateMemory → Bool
valid_memory m =
    sized_within 1 128 m.id
    && sized_within 1 255 m.topic_key
    && leb 1 (length m.statement)
    && leb 1 m.occurrences
    && all valid_source m.sources

unfoldable pub unique_texts : List Text → Bool
unfolding elem
unique_texts [] = true
unique_texts (x ∷ xs) = not (elem x xs) && unique_texts xs

-- What the declarations of `CurateRequest` and its parts accept.
unfoldable pub valid_request : CurateRequest → Bool
unfolding unique_texts
valid_request request =
    sized_within 1 255 request.scope_id
    && leb (length request.active) 60
    && all valid_memory request.active
    && leb (length request.context) 8
    && all valid_activity request.context
    && leb 1 (length request.window)
    && leb (length request.window) 32
    && all valid_activity request.window
    && leb request.max_repairs max_repairs_limit
    && unique_texts (map (λ a. a.id) (activities request))
