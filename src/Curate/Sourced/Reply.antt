-- ===== src/Curate/Sourced/Reply.antt =====
-- The memories in the result of `check_reply`, stage by stage.
use memry_os_lite.Prelude.{
  refl, Text, codes, Bool-cases, inl, inr, Option, none, some, List, [], ◌∷◌, each_inv, any, All,
  All-append, Dict, elem, keys, ◌≡◌,
}
use memry_os_lite.Unicode.{Unicode, FoldLaws}
use memry_os_lite.Json.{Json, arr, null, Fields, items, get_field}
use memry_os_lite.Curate.Model.{
  CurateRequest, CurateActivity, CurateAssignment, CheckResult, Checked, ok, err, failures,
  activities, MemoryProposal, ConflictProposal, Ref, is_collab, empty_result,
}
use memry_os_lite.Curate.Check.{
  by_id, assignment_of, assignment_step, assignment_entries, unaccounted_step, parse_assignments,
  parse_lessons, lesson_step, lesson_of, drop_step, drop_lessons_without_failures, assigned_keys,
}
use memry_os_lite.Curate.Proposals.{
  memory_of, memory_step, parse_memories, conflict_of, conflict_step, parse_conflicts, same_pair,
  check_reply,
}
use memry_os_lite.Curate.Sourced.{IsSourced, memory_of-IsSourced}

module _ (u : Unicode) (request : CurateRequest) where
  abbrev Sourced : CheckResult → Type 0
  Sourced r = All (IsSourced (by_id (activities request))) r.memories

  lesson_step-Sourced : (r : CheckResult) (item : Json) → Sourced r → Sourced (lesson_step u r item)
  lesson_step-Sourced r item h = go (lesson_of u item) refl
    where
      go : (m : Checked (Text × Text)) → lesson_of u item ≡ m → Sourced (lesson_step u r item)
      go (err v) e = unfold lesson_step in rw (e, lesson_step) h
      go (ok l) e = unfold lesson_step in rw (e, lesson_step) h

  parse_lessons-Sourced :
      (raw : Json) (r : CheckResult) → Sourced r → Sourced (parse_lessons u raw r)
  unfolding parse_lessons
  parse_lessons-Sourced (arr entries) r h =
      each_inv Sourced (lesson_step u) lesson_step-Sourced r (items entries) h
  parse_lessons-Sourced null r h = h
  parse_lessons-Sourced _ r h = h

  assignment_step-Sourced :
      (failing : Dict CurateActivity) (other_ids lesson_keys : List Text)
      (s : List Text × CheckResult) (item : Json)
      → Sourced s.1
      → Sourced (assignment_step u failing other_ids lesson_keys s item).1
  assignment_step-Sourced failing other_ids lesson_keys (assigned, r) item h =
      go (assignment_of u failing other_ids lesson_keys assigned item) refl
    where
      go :
          (m : Checked CurateAssignment)
          → assignment_of u failing other_ids lesson_keys assigned item ≡ m
          → Sourced (assignment_step u failing other_ids lesson_keys (assigned, r) item).1
      go (err v) e = unfold assignment_step in rw (e, assignment_step) h
      go (ok a) e = unfold assignment_step in rw (e, assignment_step) h

  unaccounted_step-Sourced :
      (assigned : List Text) (r : CheckResult) (e : Text × CurateActivity)
      → Sourced r
      → Sourced (unaccounted_step assigned r e)
  unfolding unaccounted_step
  unaccounted_step-Sourced assigned r (id, activity) h = elim (Bool-cases (elem id assigned)) [
    | inl b ↦ rw (unaccounted_step, b) h
    | inr b ↦ rw (unaccounted_step, b) h
  ]

  entries-Sourced :
      (raw : Json) (r : CheckResult) → Sourced r → Sourced (assignment_entries raw r).1
  entries-Sourced null r h = h
  entries-Sourced (arr entries) r h = h
  entries-Sourced _ r h = h

  parse_assignments-Sourced :
      (raw : Json) (r : CheckResult) → Sourced r → Sourced (parse_assignments u raw request r)
  unfolding parse_assignments
  parse_assignments-Sourced raw r h =
      each_inv Sourced _ (unaccounted_step-Sourced _) _ (by_id (failures request)) (
        each_inv (λ s. Sourced s.1) _ (assignment_step-Sourced (by_id (failures request)) _ _)
          ([], (assignment_entries raw r).1) (assignment_entries raw r).0 (entries-Sourced raw r h))

  drop_step-Sourced :
      (used : List Text) (r : CheckResult) (key : Text) → Sourced r → Sourced (drop_step used r key)
  unfolding drop_step
  drop_step-Sourced used r key h = elim (Bool-cases (elem key used)) [
    | inl b ↦ rw (drop_step, b) h
    | inr b ↦ rw (drop_step, b) h
  ]

  drop-Sourced : (r : CheckResult) → Sourced r → Sourced (drop_lessons_without_failures r)
  unfolding drop_lessons_without_failures
  drop-Sourced r h =
      each_inv Sourced (drop_step (assigned_keys r.assignments))
        (drop_step-Sourced (assigned_keys r.assignments)) r (keys r.lessons) h

  conflict_step-Sourced :
      (active_ids proposed : List Text) (acts : Dict CurateActivity)
      (s : List (Ref × Ref) × CheckResult) (item : Json)
      → Sourced s.1
      → Sourced (conflict_step u active_ids proposed acts s item).1
  conflict_step-Sourced active_ids proposed acts (seen, r) item h =
      go (conflict_of u active_ids proposed acts item) refl
    where
      go :
          (m : Checked ConflictProposal)
          → conflict_of u active_ids proposed acts item ≡ m
          → Sourced (conflict_step u active_ids proposed acts (seen, r) item).1
      go (err v) e = unfold conflict_step in rw (e, conflict_step) h
      go (ok c) e =
          unfold conflict_step in
          elim (Bool-cases (any (same_pair (c.a, c.b)) seen)) [
            | inl b ↦ rw (e, conflict_step, b) h
            | inr b ↦ rw (e, conflict_step, b) h
          ]

  parse_conflicts-Sourced :
      (raw : Json) (r : CheckResult) → Sourced r → Sourced (parse_conflicts u raw request r)
  unfolding parse_conflicts
  parse_conflicts-Sourced (arr entries) r h =
      each_inv (λ s. Sourced s.1) _ (conflict_step-Sourced _ _ _) ([], r) (items entries) h
  parse_conflicts-Sourced null r h = h
  parse_conflicts-Sourced _ r h = h

module _ (u : Unicode) (laws : FoldLaws u) (request : CurateRequest) where
  memory_step-Sourced :
      (r : CheckResult) (item : Json)
      → Sourced u request r
      → Sourced u request (memory_step u request r item)
  memory_step-Sourced r item h = go (memory_of u request item) refl
    where
      go :
          (m : Checked MemoryProposal)
          → memory_of u request item ≡ m
          → Sourced u request (memory_step u request r item)
      go (err v) e = unfold memory_step in rw (e, memory_step) h
      go (ok p) e =
          unfold memory_step in
          rw (e, memory_step)
            (All-append (IsSourced (by_id (activities request))) r.memories (p ∷ []) h
              (memory_of-IsSourced u laws request item e, tt))

  parse_memories-Sourced :
      (raw : Json) (r : CheckResult)
      → Sourced u request r
      → Sourced u request (parse_memories u raw request r)
  unfolding parse_memories
  parse_memories-Sourced (arr entries) r h =
      each_inv (Sourced u request) (memory_step u request) memory_step-Sourced r (items entries) h
  parse_memories-Sourced null r h = h
  parse_memories-Sourced _ r h = h

  -- Whatever the reply is, each memory that `check_reply` accepts has 1 to `max_sources` sources, and
  -- each of them quotes a verbatim span of the text of the activity that it names.
  pub check_reply-IsSourced :
      (reply : Option Fields)
      → All (IsSourced (by_id (activities request))) (check_reply u request reply).memories
  unfolding check_reply
  check_reply-IsSourced none = tt
  check_reply-IsSourced (some reply) =
      let lessons =
        parse_lessons-Sourced u request (get_field (codes "lessons") reply) empty_result tt in
      let assigned =
        parse_assignments-Sourced u request (get_field (codes "assignments") reply) _ lessons in
      let dropped = drop-Sourced u request _ assigned in
      let proposed = parse_memories-Sourced (get_field (codes "memories") reply) _ dropped in
      elim (Bool-cases (is_collab request.profile)) [
        | inl e ↦
            rw e
              (parse_conflicts-Sourced u request (get_field (codes "conflicts") reply) _ proposed)
        | inr e ↦ rw e proposed
      ]
