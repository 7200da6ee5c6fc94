-- ===== src/Curate/Assigned/Reply.antt =====
-- The assignments in the result of `check_reply`, stage by stage.
use memry_os_lite.Prelude.{
  ◌≡◌, refl, Text, codes, Bool-cases, inl, inr, Option, none, some, List, [], each_inv, any, All,
  Dict, keys, elem,
}
use memry_os_lite.Unicode.{Unicode, FoldLaws}
use memry_os_lite.Json.{Json, arr, null, Fields, items, get_field}
use memry_os_lite.Curate.Model.{
  CurateRequest, CurateActivity, CheckResult, Checked, ok, err, failures, MemoryProposal,
  ConflictProposal, Ref, is_collab, empty_result,
}
use memry_os_lite.Curate.Check.{
  by_id, assignment_entries, parse_assignments, parse_lessons, lesson_step, lesson_of, drop_step,
  drop_lessons_without_failures, assigned_keys,
}
use memry_os_lite.Curate.Proposals.{
  memory_of, memory_step, parse_memories, conflict_of, conflict_step, parse_conflicts, same_pair,
  check_reply,
}
use memry_os_lite.Curate.Assigned.{
  IsDecided, AreDecided, assignment_step-AreDecided, unaccounted_step-AreDecided,
}

module _ (u : Unicode) (laws : FoldLaws u) where
  module _ (request : CurateRequest) where
    abbrev Decided : CheckResult → Type 0
    Decided = AreDecided u laws (by_id (failures request))

    entries-Decided :
        (raw : Json) (r : CheckResult) → Decided r → Decided (assignment_entries raw r).1
    entries-Decided null r h = h
    entries-Decided (arr entries) r h = h
    entries-Decided _ r h = h

    parse_assignments-Decided :
        (raw : Json) (r : CheckResult) → Decided r → Decided (parse_assignments u raw request r)
    unfolding parse_assignments
    parse_assignments-Decided raw r h =
        each_inv Decided _ (unaccounted_step-AreDecided u laws (by_id (failures request)) _) _
          (by_id (failures request))
          (each_inv (λ s. Decided s.1) _
            (assignment_step-AreDecided u laws (by_id (failures request)) _ _)
            ([], (assignment_entries raw r).1) (assignment_entries raw r).0
            (entries-Decided raw r h))

    drop_step-Decided :
        (used : List Text) (r : CheckResult) (key : Text)
        → Decided r
        → Decided (drop_step used r key)
    unfolding drop_step
    drop_step-Decided used r key h = elim (Bool-cases (elem key used)) [
      | inl b ↦ rw (drop_step, b) h
      | inr b ↦ rw (drop_step, b) h
    ]

    drop-Decided : (r : CheckResult) → Decided r → Decided (drop_lessons_without_failures r)
    unfolding drop_lessons_without_failures
    drop-Decided r h =
        each_inv Decided (drop_step (assigned_keys r.assignments))
          (λ s key k. drop_step-Decided (assigned_keys r.assignments) s key k) r (keys r.lessons) h

    lesson_step-Decided :
        (r : CheckResult) (item : Json) → Decided r → Decided (lesson_step u r item)
    lesson_step-Decided r item h = go (lesson_of u item) refl
      where
        go : (m : Checked (Text × Text)) → lesson_of u item ≡ m → Decided (lesson_step u r item)
        go (err v) e = unfold lesson_step in rw (e, lesson_step) h
        go (ok l) e = unfold lesson_step in rw (e, lesson_step) h

    parse_lessons-Decided :
        (raw : Json) (r : CheckResult) → Decided r → Decided (parse_lessons u raw r)
    unfolding parse_lessons
    parse_lessons-Decided (arr entries) r h =
        each_inv Decided (lesson_step u) lesson_step-Decided r (items entries) h
    parse_lessons-Decided null r h = h
    parse_lessons-Decided _ r h = h

    memory_step-Decided :
        (r : CheckResult) (item : Json) → Decided r → Decided (memory_step u request r item)
    memory_step-Decided r item h = go (memory_of u request item) refl
      where
        go :
            (m : Checked MemoryProposal)
            → memory_of u request item ≡ m
            → Decided (memory_step u request r item)
        go (ok p) e = unfold memory_step in rw (e, memory_step) h
        go (err v) e = unfold memory_step in rw (e, memory_step) h

    parse_memories-Decided :
        (raw : Json) (r : CheckResult) → Decided r → Decided (parse_memories u raw request r)
    unfolding parse_memories
    parse_memories-Decided (arr entries) r h =
        each_inv Decided (memory_step u request) memory_step-Decided r (items entries) h
    parse_memories-Decided null r h = h
    parse_memories-Decided _ r h = h

    conflict_step-Decided :
        (active_ids proposed : List Text) (acts : Dict CurateActivity)
        (s : List (Ref × Ref) × CheckResult) (item : Json)
        → Decided s.1
        → Decided (conflict_step u active_ids proposed acts s item).1
    conflict_step-Decided active_ids proposed acts (seen, r) item h =
        go (conflict_of u active_ids proposed acts item) refl
      where
        go :
            (m : Checked ConflictProposal)
            → conflict_of u active_ids proposed acts item ≡ m
            → Decided (conflict_step u active_ids proposed acts (seen, r) item).1
        go (err v) e = unfold conflict_step in rw (e, conflict_step) h
        go (ok c) e =
            unfold conflict_step in
            elim (Bool-cases (any (same_pair (c.a, c.b)) seen)) [
              | inl b ↦ rw (e, conflict_step, b) h
              | inr b ↦ rw (e, conflict_step, b) h
            ]

    parse_conflicts-Decided :
        (raw : Json) (r : CheckResult) → Decided r → Decided (parse_conflicts u raw request r)
    unfolding parse_conflicts
    parse_conflicts-Decided (arr entries) r h =
        each_inv (λ s. Decided s.1) _ (conflict_step-Decided _ _ _) ([], r) (items entries) h
    parse_conflicts-Decided null r h = h
    parse_conflicts-Decided _ r h = h

  -- Whatever the reply is, each assignment that `check_reply` accepts is of a failure of the window:
  -- it dismisses it with a reason of 1 to `max_dismiss_chars` characters, or it gives it to a lesson
  -- with a quote that is a verbatim span of the failure's text.
  pub check_reply-IsDecided :
      (request : CurateRequest) (reply : Option Fields)
      → All (IsDecided (by_id (failures request))) (check_reply u request reply).assignments
  unfolding check_reply
  check_reply-IsDecided request none = tt
  check_reply-IsDecided request (some reply) =
      let lessons =
        parse_lessons-Decided request (get_field (codes "lessons") reply) empty_result tt in
      let assigned =
        parse_assignments-Decided request (get_field (codes "assignments") reply) _ lessons in
      let dropped = drop-Decided request _ assigned in
      let proposed =
        parse_memories-Decided request (get_field (codes "memories") reply) _ dropped in
      elim (Bool-cases (is_collab request.profile)) [
        | inl e ↦
            rw e (parse_conflicts-Decided request (get_field (codes "conflicts") reply) _ proposed)
        | inr e ↦ rw e proposed
      ]
