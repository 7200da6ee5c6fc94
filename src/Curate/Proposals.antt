-- ===== src/Curate/Proposals.antt =====
-- `check_reply` of src/memoryos_lite/curator/curate.py, continued: memory proposals and conflicts,
-- and the whole check.
use memry_os_lite.Prelude.{
  ℕ, ◌+◌, max, Text, codes, Bool, true, false, not, ◌&&◌, ◌||◌, leb, if◌then◌else◌, Option, none,
  some, List, [], ◌∷◌, ◌++◌, map, keep, any, each, length, Dict, get, elem, teq, is_space, strip,
  bind,
}
use memry_os_lite.Unicode.{Unicode}
use memry_os_lite.Json.{
  Json, null, arr, Fields, items, field_of, get_field, as_str, as_obj, as_arr, is_null,
}
use memry_os_lite.Grounding.{repair_quote}
use memry_os_lite.Curate.Model.{
  CurateActivity, CurateRequest, CurateSource, MemoryKind, MemoryProposal, ConflictProposal, Ref,
  Violation, CheckResult, Checked, ok, err, ◌>>=◌, ◌>>◌, require, present, failures, activities,
  is_question, is_lesson, is_collab, kind_name, profile_memory_kinds, max_sources,
  max_conflict_reason_chars, empty_result, reply_not_json, memories_not_list, memory_not_object,
  lesson_as_memory, memory_malformed, memory_bad_source, memory_bad_resolves, conflicts_not_list,
  conflict_malformed, conflict_bad_source,
}
use memry_os_lite.Curate.TopicKey.{normalize_topic_key}
use memry_os_lite.Curate.Check.{
  violate, by_id, topic_key_of, statement_of, parse_lessons, parse_assignments,
  drop_lessons_without_failures,
}

-- `kind in kinds`, and the kind
unfoldable pub find_kind : Text → List MemoryKind → Option MemoryKind
find_kind name [] = none
find_kind name (k ∷ ks) = if teq name (kind_name k) then some k else find_kind name ks

-- `list(dict.fromkeys(xs))`
unfoldable pub first_occurrences : List Text → List Text → List Text
first_occurrences seen [] = []
first_occurrences seen (x ∷ xs) = elim (elem x seen) [
  | true ↦ first_occurrences seen xs
  | false ↦ x ∷ first_occurrences (x ∷ seen) xs
]

-- The ids, if every value is the id of an active question.
unfoldable pub question_ids : List Text → List Json → Option (List Text)
question_ids questions [] = some []
question_ids questions (j ∷ js) =
    bind (as_str j)
      λ r. bind (question_ids questions js) λ rs. if elem r questions then some (r ∷ rs) else none

-- The ids in "resolves"; the key counts in the collab profile alone, and `None` is no id.
unfoldable pub resolves_of : CurateRequest → Fields → Option (List Text)
unfolding question_ids
resolves_of request fs =
    let raw = get_field (codes "resolves") fs in
    let questions = map (λ m. m.id) (keep (λ m. is_question m.kind) request.active) in
    if not (is_collab request.profile) || is_null raw
    then some []
    else bind (as_arr raw) (question_ids questions)

-- `max(activities[s.activity_id].seq for s in sources)`
unfoldable pub newest_seq : Dict CurateActivity → List CurateSource → ℕ
newest_seq acts [] = 0
newest_seq acts (s ∷ sources) = elim (get acts s.activity_id) [
  | none ↦ newest_seq acts sources
  | some a ↦ max a.seq (newest_seq acts sources)
]

abbrev pub same_source : CurateSource → CurateSource → Bool
same_source s r = teq s.activity_id r.activity_id && teq s.quote r.quote

-- The activity id that a bad source is reported with.
abbrev bad_id : Json → Json
bad_id source = elim (as_obj source) [ none ↦ null | some fs ↦ get_field (codes "activity_id") fs ]

-- The list of sources, if it is a list of a length that is allowed.
abbrev pub sized : ℕ → Json → Option (List Json)
sized least raw = bind (as_arr raw) λ sources.
    if leb least (length sources) && leb (length sources) max_sources then some sources else none

unfoldable pub grounded_or :
    {A : Type 0}
    → List CurateSource × Option Json
    → (Json → Violation)
    → (List CurateSource → Checked A)
    → Checked A
grounded_or (sources, some bad) complain use_them = err (complain bad)
grounded_or (sources, none) complain use_them = use_them sources

module _ (u : Unicode) where
  -- One source, if its activity is there and its quote is grounded.
  unfoldable pub source_of : Dict CurateActivity → Json → Option CurateSource
  source_of acts source = bind (as_obj source) λ fs.
      bind (as_str (get_field (codes "activity_id") fs)) λ activity_id.
        bind (get acts activity_id) λ activity.
          bind (as_str (get_field (codes "quote") fs)) λ quote.
            bind (repair_quote u activity.text quote)
              λ grounded. some (record { activity_id = activity.id; quote = grounded })

  -- The loop of `_ground_sources`: the sources, and the id of the first that fails.
  unfoldable pub ground_loop :
      Dict CurateActivity → List CurateSource → List Json → List CurateSource × Option Json
  unfolding source_of
  ground_loop acts sources [] = (sources, none)
  ground_loop acts sources (raw ∷ rest) = elim (source_of acts raw) [
    | none ↦ (sources, some (bad_id raw))
    | some s ↦
        ground_loop acts (if any (same_source s) sources then sources else sources ++ s ∷ []) rest
  ]

  unfoldable pub ground_sources : List Json → Dict CurateActivity → List CurateSource × Option Json
  unfolding ground_loop
  ground_sources raw acts = ground_loop acts [] raw

  unfoldable pub memory_of : CurateRequest → Json → Checked MemoryProposal
  unfolding find_kind resolves_of newest_seq first_occurrences ground_sources grounded_or by_id
  memory_of request item = do
    fs ← present (as_obj item) memory_not_object
    let kinds = profile_memory_kinds request.profile
    let kind_raw = get_field (codes "kind") fs
    let label = get_field (codes "topic_key") fs
    let found = bind (as_str kind_raw) (λ name. find_kind name kinds)
    let names_lesson : Bool = elim (as_str kind_raw) [
      | none ↦ false
      | some name ↦ teq name (codes "lesson")
    ]
    require (not (names_lesson && not (any is_lesson kinds))) (lesson_as_memory label)
    kind ← present found (memory_malformed label)
    key ← present (topic_key_of u label) (memory_malformed label)
    statement ← present (statement_of u (get_field (codes "statement") fs)) (memory_malformed label)
    raw ← present (sized 1 (get_field (codes "sources") fs)) (memory_malformed label)
    let acts = by_id (activities request)
    grounded_or (ground_sources raw acts) (memory_bad_source key) λ sources. do
      resolves ← present (resolves_of request fs) (memory_bad_resolves key)
      ok (record {
        kind = kind;
        topic_key = key;
        statement = statement;
        sources = sources;
        version = newest_seq acts sources;
        resolves = first_occurrences [] resolves;
      })

  unfoldable pub memory_step : CurateRequest → CheckResult → Json → CheckResult
  unfolding memory_of
  memory_step request result item = elim (memory_of request item) [
    | err v ↦ record result {
      violations = result.violations ++ v ∷ [];
      rejected_memories = result.rejected_memories + 1;
    }
    | ok proposal ↦ record result { memories = result.memories ++ proposal ∷ [] }
  ]

  unfoldable pub parse_memories : Json → CurateRequest → CheckResult → CheckResult
  unfolding memory_step
  parse_memories null request result = result
  parse_memories (arr entries) request result = each (memory_step request) result (items entries)
  parse_memories raw request result = violate result memories_not_list

  -- One side of a conflict: an active id, or the topic key of a memory of this reply.
  unfoldable pub ref_of : List Text → List Text → Json → List Ref
  ref_of active_ids proposed value = elim (as_str value) [
    | none ↦ []
    | some v ↦ if elem v active_ids then Ref.active v ∷ [] else elim (normalize_topic_key u v) [
      | none ↦ []
      | some key ↦ if elem key proposed then Ref.new key ∷ [] else []
    ]
  ]

abbrev pub same_ref : Ref → Ref → Bool
same_ref (Ref.active a) (Ref.active b) = teq a b
same_ref (Ref.active a) (Ref.new b) = false
same_ref (Ref.new a) (Ref.active b) = false
same_ref (Ref.new a) (Ref.new b) = teq a b

abbrev both_new : Ref → Ref → Bool
both_new (Ref.new a) (Ref.new b) = true
both_new (Ref.new a) (Ref.active b) = false
both_new (Ref.active a) r = false

-- Two refs that differ and are not both new.
unfoldable pub ref_pair : List Ref → Option (Ref × Ref)
ref_pair (a ∷ b ∷ []) = if same_ref a b || both_new a b then none else some (a, b)
ref_pair _ = none

-- `frozenset(refs) in seen`
abbrev pub same_pair : Ref × Ref → Ref × Ref → Bool
same_pair (a, b) (c, d) = (same_ref a c && same_ref b d) || (same_ref a d && same_ref b c)

module _ (u : Unicode) where
  unfoldable pub conflict_of :
      List Text → List Text → Dict CurateActivity → Json → Checked ConflictProposal
  unfolding ref_of ref_pair ground_sources grounded_or
  conflict_of active_ids proposed acts item = do
    fs ← present (as_obj item) conflict_malformed
    let sides =
        ref_of u active_ids proposed (get_field (codes "a_id") fs)
        ++ ref_of u active_ids proposed (get_field (codes "b_id") fs)
    refs ← present (ref_pair sides) conflict_malformed
    let reason : Text = elim (as_str (get_field (codes "reason") fs)) [
      | none ↦ []
      | some s ↦ strip is_space s
    ]
    require (leb 1 (length reason) && leb (length reason) max_conflict_reason_chars)
        conflict_malformed
    raw ←
        present
          (elim (field_of (codes "sources") fs) [ none ↦ some [] | some sources ↦ sized 0 sources ])
          conflict_malformed
    grounded_or (ground_sources u raw acts) (conflict_bad_source refs.0 refs.1)
        λ sources. ok (record { a = refs.0; b = refs.1; reason = reason; sources = sources })

  -- The loop's state is the set `seen` and the result.
  unfoldable pub conflict_step :
      List Text
      → List Text
      → Dict CurateActivity
      → List (Ref × Ref) × CheckResult
      → Json
      → List (Ref × Ref) × CheckResult
  unfolding conflict_of
  conflict_step active_ids proposed acts (seen, result) item =
      elim (conflict_of active_ids proposed acts item) [
        | err v ↦ (seen, violate result v)
        | ok c ↦
            if any (same_pair (c.a, c.b)) seen
            then (seen, result)
            else ((c.a, c.b) ∷ seen, record result { conflicts = result.conflicts ++ c ∷ [] })
      ]

  unfoldable pub parse_conflicts : Json → CurateRequest → CheckResult → CheckResult
  unfolding conflict_step by_id
  parse_conflicts null request result = result
  parse_conflicts (arr entries) request result =
      (each
        (conflict_step (map (λ m. m.id) request.active) (map (λ m. m.topic_key) result.memories)
          (by_id (activities request)))
        ([], result) (items entries)).1
  parse_conflicts raw request result = violate result conflicts_not_list

  -- `check_reply`; no reply is one that was not a JSON object.
  unfoldable pub check_reply : CurateRequest → Option Fields → CheckResult
  unfolding failures
  check_reply request none = record empty_result {
    violations = reply_not_json ∷ [];
    unaccounted = map (λ a. a.id) (failures request);
  }
  check_reply request (some reply) =
      let lessons = parse_lessons u (get_field (codes "lessons") reply) empty_result in
      let assigned = parse_assignments u (get_field (codes "assignments") reply) request lessons in
      let dropped = drop_lessons_without_failures assigned in
      let proposed = parse_memories u (get_field (codes "memories") reply) request dropped in
      if is_collab request.profile
      then parse_conflicts (get_field (codes "conflicts") reply) request proposed
      else proposed
