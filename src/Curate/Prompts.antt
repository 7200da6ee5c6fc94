-- ===== src/Curate/Prompts.antt =====
-- The prompt of a request: `render_request` of src/memoryos_lite/curator/graph.py, and the functions
-- of src/memoryos_lite/curator/prompt.py that it calls.
use memry_os_lite.Prelude.{
  ℕ, zero, suc, ◌+◌, ◌-◌, ◌*◌, ◌/◌, Text, codes, not, ◌&&◌, ◌||◌, ◌==◌, ltb, leb, if◌then◌else◌,
  none, some, List, [], ◌∷◌, ◌++◌, map, keep, length, take, take_last, sort, text_le, teq,
}
use memry_os_lite.Curate.Model.{
  ActivityType, Profile, message, review_objection, gate_failure, contract_revision, module_profile,
  room, collab, kind_name, is_lesson, is_collab, CurateActivity, CurateMemory, CurateRequest,
  failures,
}

-- `str(n)`; a number has no more digits than it counts, and one
unfoldable pub digits : ℕ → ℕ → Text
digits zero n = []
digits (suc fuel) n =
    let rest = digits fuel (n / 10) in
    if ltb n 10 then (48 + n) ∷ [] else rest ++ (48 + (n - 10 * (n / 10))) ∷ []

abbrev pub str_of : ℕ → Text
unfolding digits
str_of n = digits (suc n) n

-- `separator.join(texts)`
unfoldable pub join_with : Text → List Text → Text
join_with separator [] = []
join_with separator (t ∷ []) = t
join_with separator (t ∷ u ∷ texts) = t ++ (separator ++ join_with separator (u ∷ texts))

-- `text or "(none)"`
unfoldable pub or_none : Text → Text
or_none [] = codes "(none)"
or_none (c ∷ text) = c ∷ text

abbrev pub line : Text
line = 10 ∷ []

abbrev pub type_name : ActivityType → Text
type_name message = codes "message"
type_name review_objection = codes "review_objection"
type_name gate_failure = codes "gate_failure"
type_name contract_revision = codes "contract_revision"

-- An f-string: its parts, one after the other.
unfoldable pub concat : List Text → Text
concat [] = []
concat (t ∷ parts) = t ++ concat parts

abbrev pub gate_log_head_chars : ℕ
gate_log_head_chars = 1500

abbrev pub gate_log_tail_chars : ℕ
gate_log_tail_chars = 2500

unfoldable pub bounded_gate_log : Text → Text
unfolding concat
bounded_gate_log content =
    if leb (length content) (gate_log_head_chars + gate_log_tail_chars)
    then content
    else concat (
        take gate_log_head_chars content
        ∷ line
        ∷ codes "[... "
        ∷ str_of (length content - gate_log_head_chars - gate_log_tail_chars)
        ∷ codes " characters of the log omitted ...]"
        ∷ line
        ∷ take_last gate_log_tail_chars content
        ∷ [])

-- `_label`
unfoldable pub label : CurateRequest → CurateActivity → Text
label request activity =
    let name = type_name activity.type in
    elim activity.type [
      | message ↦
          if is_collab request.profile
          then elim activity.kind [ none ↦ name | some [] ↦ name | some (c ∷ kind) ↦ c ∷ kind ]
          else name
      | _ ↦ name
    ]

-- `speaker or "unknown"`
abbrev pub speaker_of : Text → Text
speaker_of [] = codes "unknown"
speaker_of (c ∷ speaker) = c ∷ speaker

-- `render_activity` of an activity with its label; a label may be `gate_failure` as the kind of a
-- message too
unfoldable pub render_activity : CurateRequest → CurateActivity → Text
unfolding concat bounded_gate_log label
render_activity request a =
    let activity_type = label request a in
    let body =
      if teq activity_type (codes "gate_failure") then bounded_gate_log a.text else a.text in
    concat (
      codes "["
      ∷ a.id
      ∷ codes "] "
      ∷ speaker_of a.speaker
      ∷ codes " ("
      ∷ activity_type
      ∷ codes "): "
      ∷ body
      ∷ [])

-- A line of a list of memories.
abbrev pub memory_line : CurateMemory → Text
unfolding concat
memory_line m =
    concat (codes "- " ∷ kind_name m.kind ∷ codes " " ∷ m.topic_key ∷ codes ": " ∷ m.statement ∷ [])

abbrev pub entry_line : CurateMemory → Text
unfolding concat
entry_line m = concat (
    codes "- ["
    ∷ m.id
    ∷ codes "] "
    ∷ kind_name m.kind
    ∷ codes " "
    ∷ m.topic_key
    ∷ codes ": "
    ∷ m.statement
    ∷ [])

abbrev pub lesson_line : CurateMemory → Text
unfolding concat
lesson_line m = concat (
    codes "- "
    ∷ m.topic_key
    ∷ codes " (failed "
    ∷ str_of m.occurrences
    ∷ codes " time"
    ∷ (if m.occurrences == 1 then [] else codes "s")
    ∷ codes "): "
    ∷ m.statement
    ∷ [])

-- A block of lines, `(none)` if there are none.
abbrev pub block : List Text → Text
unfolding or_none join_with
block texts = or_none (join_with line texts)

abbrev pub failure_head : List Text
failure_head =
    line
    ∷ line
    ∷ codes "Failures to account for (each needs exactly one assignment, as in "
    ∷ codes
        "{\"assignments\":[{\"activity_id\":\"...\",\"lesson\":\"<topic_key>\",\"quote\":\"...\"}]} or "
    ∷ codes "{\"activity_id\":\"...\",\"dismiss\":\"<reason>\"}): "
    ∷ []

-- `_failure_block`
unfoldable pub failure_block : List Text → Text
unfolding concat join_with
failure_block [] = []
failure_block (id ∷ ids) = concat (failure_head ++ join_with (codes ", ") (id ∷ ids) ∷ [])

module _ (request : CurateRequest) where
  abbrev pub context_block : Text
  unfolding render_activity
  context_block = block (map (render_activity request) request.context)

  abbrev pub window_block : Text
  unfolding render_activity
  window_block = join_with line (map (render_activity request) request.window)

  abbrev pub failure_ids : List Text
  unfolding failures
  failure_ids = map (λ a. a.id) (failures request)

  abbrev pub curate_head : List CurateMemory → List CurateMemory → List Text
  curate_head lessons others =
      codes "Module: "
      ∷ request.scope_id
      ∷ line
      ∷ line
      ∷ codes "Active lessons (reuse a topic_key when a failure has the same root cause):"
      ∷ line
      ∷ block (map lesson_line lessons)
      ∷ line
      ∷ line
      ∷ codes "Active decisions and facts (reuse a topic_key for the same subject):"
      ∷ line
      ∷ block (map memory_line others)
      ∷ line
      ∷ line
      ∷ codes "Earlier activity (read-only; memories may quote it):"
      ∷ line
      ∷ context_block
      ∷ line
      ∷ line
      ∷ codes "Activities to curate:"
      ∷ line
      ∷ window_block
      ∷ line
      ∷ line
      ∷ []

  -- `build_curate_prompt`
  unfoldable pub build_curate_prompt : List CurateMemory → List CurateMemory → Text
  unfolding concat join_with or_none failures
  build_curate_prompt lessons others = concat (
      curate_head lessons others
      ++ codes "Failures to account for (each needs exactly one assignment): "
        ∷ or_none (join_with (codes ", ") failure_ids)
        ∷ [])

  -- The part that the prompts of rooms and of collaborations share.
  abbrev pub messages_part : Text
  unfolding concat
  messages_part = concat (
      codes "Earlier context (read-only; you may quote these messages):"
      ∷ line
      ∷ context_block
      ∷ line
      ∷ line
      ∷ codes "Messages to curate:"
      ∷ line
      ∷ window_block
      ∷ [])

  abbrev pub room_head : List CurateMemory → List Text
  room_head memories =
      codes "Active memories (reuse a topic_key from this list for the same subject):"
      ∷ line
      ∷ block (map memory_line memories)
      ∷ line
      ∷ line
      ∷ messages_part
      ∷ []

  -- `build_room_curate_prompt`
  unfoldable pub build_room_curate_prompt : List CurateMemory → Text
  unfolding concat failure_block failures
  build_room_curate_prompt memories = concat (room_head memories ++ failure_block failure_ids ∷ [])

  abbrev pub collab_head : List CurateMemory → List Text
  collab_head entries =
      codes "Topic: "
      ∷ request.scope_id
      ∷ line
      ∷ line
      ∷ codes "Active entries (never propose these again; reuse a topic_key to replace one):"
      ∷ line
      ∷ block (map entry_line entries)
      ∷ line
      ∷ line
      ∷ messages_part
      ∷ []

  -- `build_collab_curate_prompt`
  unfoldable pub build_collab_curate_prompt : List CurateMemory → Text
  unfolding concat failure_block failures
  build_collab_curate_prompt entries =
      concat (collab_head entries ++ failure_block failure_ids ∷ [])

  -- `render_request`, by the profile
  unfoldable pub render_profile : Profile → Text
  unfolding build_curate_prompt build_room_curate_prompt build_collab_curate_prompt sort
  render_profile collab = build_collab_curate_prompt (
      sort (λ m n. ltb m.version n.version || (m.version == n.version && text_le m.id n.id))
        request.active)
  render_profile room =
      build_room_curate_prompt (sort (λ m n. leb m.version n.version) request.active)
  render_profile module_profile =
      build_curate_prompt
        (keep (λ m. is_lesson m.kind)
          (sort
            (λ m n.
              ltb n.occurrences m.occurrences
              || (n.occurrences == m.occurrences && leb n.version m.version))
            request.active))
        (keep (λ m. not (is_lesson m.kind)) (sort (λ m n. leb n.version m.version) request.active))

  unfoldable pub render_request : Text
  unfolding render_profile
  render_request = render_profile request.profile
