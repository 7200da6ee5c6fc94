-- ===== src/Curate/Accounting.antt =====
-- Closed-world accounting: the failures of a request in the result of `check_reply`.
mod Tally
use Tally.{
  HasOnce, by_id-HasOnce, assignments-IsTally, IsTally, count-keep, unaccounted-each,
  unaccounted-clean, append-singleton, count-ids-keep,
}
use memry_os_lite.Prelude.{
  ◌⊎◌, length, count-append, ◌≢◌, any, codes, ℕ, zero, suc, ◌+◌, ◌≤◌, ◌<◌, ◌≡◌, refl, ap, ◌∙◌, sym,
  arith, Text, Bool, true, false, not, ◌&&◌, ◌||◌, if◌then◌else◌, Bool-cases, Option-cases, inl,
  inr, Option, none, some, List, [], ◌∷◌, ◌++◌, map, map-append, keep, each, each_inv, Dict, get,
  put, keys, get-put, count-keys-put, get-elem, count, elem, elem_iff_count, teq, teq_iff,
  append-nil, append_assoc, is_some,
}
use memry_os_lite.Unicode.{Unicode}
use memry_os_lite.Json.{
  Json, get_field, items, null, boolean, number, other_number, str, arr, obj, Fields,
}
use memry_os_lite.Curate.Model.{
  CurateActivity, CurateAssignment, CurateRequest, CheckResult, Checked, ok, err, ◌>>=◌, ◌>>◌,
  Violation, MemoryProposal, ConflictProposal, Ref, memories_not_list, conflicts_not_list,
  lesson_without_failure, is_collab, is_failure_type, present, require, no_assignment, failures,
  activities, empty_result, HasUniqueIds,
}
use memry_os_lite.Curate.Proposals.{
  memory_of, memory_step, parse_memories, conflict_of, conflict_step, parse_conflicts, check_reply,
  same_pair,
}
use memry_os_lite.Curate.Check.{
  violate, drop_step, assigned_keys, by_id, assignment_of, dismissal_of, lesson_assignment_of,
  assignment_step, unaccounted_step, parse_assignments, parse_lessons, lesson_step,
  assignment_entries, drop_lessons_without_failures,
}

-- Each failure is assigned once or reported; where there is one to report, there is a violation.
pub record IsAccounted (request : CurateRequest) (result : CheckResult) : Type 0 where
  pub tally :
      (a : Text)
      → count a (map (λ x. x.activity_id) result.assignments) + count a result.unaccounted
        ≡ (if elem a (map (λ x. x.id) (failures request)) then 1 else 0)
  pub clean : (0 < length result.violations) ⊎ (result.unaccounted ≡ [])

-- The same, as the steps keep it.
record Accounts (request : CurateRequest) (result : CheckResult) : Type 0 where
  tally :
      (a : Text)
      → count a (map (λ x. x.activity_id) result.assignments) + count a result.unaccounted
        ≡ (if elem a (map (λ x. x.id) (failures request)) then 1 else 0)
  clean : result.violations ≡ [] → result.unaccounted ≡ []

clean-cases :
    {A B : Type 0} (vs : List A) (xs : List B) → (vs ≡ [] → xs ≡ []) → (0 < length vs) ⊎ (xs ≡ [])
clean-cases [] xs h = inr (h refl)
clean-cases (v ∷ vs) xs h = inl (omega arith)

Accounts-IsAccounted :
    {request : CurateRequest} {result : CheckResult}
    → Accounts request result
    → IsAccounted request result
Accounts-IsAccounted {request} {result} h = record {
  tally = h.tally;
  clean = clean-cases result.violations result.unaccounted h.clean;
}

elem-put :
    {V : Type 0} (d : Dict V) (k j : Text) (v : V)
    → elem j (keys (put d k v)) ≡ (elem j (keys d) || teq j k)
unfolding put elem
elem-put [] k j v = ground arith
elem-put ((i, w) ∷ d) k j v =
    ground (arith, elem-put d k j v, teq_iff k i, teq_iff j k, teq_iff j i)

elem-by_id_from :
    (d : Dict CurateActivity) (j : Text) (xs : List CurateActivity)
    → elem j (keys (each (λ d a. put d a.id a) d xs))
      ≡ (elem j (keys d) || elem j (map (λ a. a.id) xs))
unfolding elem
elem-by_id_from d j [] = ground arith
elem-by_id_from d j (a ∷ xs) =
    ground (arith, elem-by_id_from (put d a.id a) j xs, elem-put d a.id j a)

-- A key of the dictionary is an id of the list.
pub elem-by_id :
    (j : Text) (xs : List CurateActivity) → elem j (keys (by_id xs)) ≡ elem j (map (λ a. a.id) xs)
unfolding by_id elem
elem-by_id j xs = elem-by_id_from [] j xs

-- Nothing is assigned or reported yet.
record IsFresh (result : CheckResult) : Type 0 where
  none_assigned : result.assignments ≡ []
  none_reported : result.unaccounted ≡ []

module _ (u : Unicode) where
  lesson_step-IsFresh : (r : CheckResult) (item : Json) → IsFresh r → IsFresh (lesson_step u r item)
  unfolding lesson_step
  lesson_step-IsFresh r item fresh = ground arith

  parse_lessons-IsFresh :
      (raw : Json) (r : CheckResult) → IsFresh r → IsFresh (parse_lessons u raw r)
  unfolding parse_lessons
  parse_lessons-IsFresh (arr entries) r fresh =
      each_inv IsFresh (lesson_step u) lesson_step-IsFresh r (items entries) fresh
  parse_lessons-IsFresh null r fresh = fresh
  parse_lessons-IsFresh _ r fresh = record {
    none_assigned = fresh.none_assigned;
    none_reported = fresh.none_reported;
  }

  -- The tally of a finished loop.
  tally_of :
      (failing : Dict CurateActivity) (other_ids lesson_keys assigned : List Text) (r : CheckResult)
      (a : Text)
      → HasOnce failing
      → IsTally u failing other_ids lesson_keys assigned r
      → count a assigned + count a (keep (λ k. not (elem k assigned)) (keys failing))
        ≡ (if elem a (keys failing) then 1 else 0)
  tally_of failing other_ids lesson_keys assigned r a once tally = ground (
    arith,
    count-keep a (λ k. not (elem k assigned)) (keys failing),
    once a,
    tally.once a,
    tally.failed a,
    elem_iff_count a assigned,
    elem_iff_count a (keys failing),
  )

  settle-Accounts :
      (request : CurateRequest) (other_ids lesson_keys : List Text) (s : List Text × CheckResult)
      → IsTally u (by_id (failures request)) other_ids lesson_keys s.0 s.1
      → Accounts request (each (unaccounted_step s.0) s.1 (by_id (failures request)))
  settle-Accounts request other_ids lesson_keys (assigned, r) tally =
      let failing = by_id (failures request) in
      let (reported, same) = unaccounted-each assigned r failing in
      record {
        tally = λ a.
            rw (reported, same, tally.listed, tally.unreported)
              (tally_of failing other_ids lesson_keys assigned r a
                  (by_id-HasOnce (failures request)) tally
                ∙ ap (λ b. if b then 1 else 0) (elem-by_id a (failures request)));
        clean = unaccounted-clean assigned r failing (λ _. tally.unreported);
      }

  entries-IsFresh :
      (raw : Json) (r : CheckResult) → IsFresh r → IsFresh (assignment_entries raw r).1
  entries-IsFresh null r fresh = fresh
  entries-IsFresh (arr entries) r fresh = fresh
  entries-IsFresh _ r fresh = record {
    none_assigned = fresh.none_assigned;
    none_reported = fresh.none_reported;
  }

  start-IsTally :
      {failing : Dict CurateActivity} {other_ids lesson_keys : List Text} (raw : Json)
      (r : CheckResult)
      → IsFresh r
      → IsTally u failing other_ids lesson_keys [] (assignment_entries raw r).1
  unfolding count elem
  start-IsTally raw r fresh =
      let start = entries-IsFresh raw r fresh in
      record {
        listed = ap (map (λ a. a.activity_id)) start.none_assigned;
        once = λ x. omega arith;
        failed = λ x h. cc;
        unreported = start.none_reported;
      }

  parse_assignments-Accounts :
      (raw : Json) (request : CurateRequest) (r : CheckResult)
      → IsFresh r
      → Accounts request (parse_assignments u raw request r)
  unfolding parse_assignments
  parse_assignments-Accounts raw request r fresh = settle-Accounts request _ _ _ (
      assignments-IsTally u (by_id (failures request)) _ _ ([], (assignment_entries raw r).1)
        (assignment_entries raw r).0 (start-IsTally raw r fresh))

  -- A later step keeps the accounts: it assigns and reports nothing, and takes no violation back.
  Accounts-keep :
      {request : CurateRequest} {r : CheckResult} (r' : CheckResult)
      → r'.assignments ≡ r.assignments
      → r'.unaccounted ≡ r.unaccounted
      → (r'.violations ≡ [] → r.violations ≡ [])
      → Accounts request r
      → Accounts request r'
  Accounts-keep r' same_assigned same_reported no_less h = record {
    tally = λ a. rw (same_assigned, same_reported) (h.tally a);
    clean = λ e. same_reported ∙ h.clean (no_less e);
  }

  violate-Accounts :
      {request : CurateRequest} (r : CheckResult) (v : Violation)
      → Accounts request r
      → Accounts request (violate r v)
  violate-Accounts r v =
      Accounts-keep (violate r v) refl refl (λ e. absurd (append-singleton r.violations v e))

  module _ (request : CurateRequest) where
    drop_step-Accounts :
        (used : List Text) (r : CheckResult) (key : Text)
        → Accounts request r
        → Accounts request (drop_step used r key)
    unfolding drop_step
    drop_step-Accounts used r key =
        Accounts-keep (drop_step used r key) (ground arith) (ground arith)
          (λ e. ground (arith, append-singleton r.violations (lesson_without_failure key)))

    drop-Accounts :
        (r : CheckResult) → Accounts request r → Accounts request (drop_lessons_without_failures r)
    unfolding drop_lessons_without_failures
    drop-Accounts r h =
        each_inv (Accounts request) (drop_step (assigned_keys r.assignments))
          (drop_step-Accounts (assigned_keys r.assignments)) r (keys r.lessons) h

    memory_step-Accounts :
        (r : CheckResult) (item : Json)
        → Accounts request r
        → Accounts request (memory_step u request r item)
    memory_step-Accounts r item h = go (memory_of u request item) refl
      where
        go :
            (m : Checked MemoryProposal)
            → memory_of u request item ≡ m
            → Accounts request (memory_step u request r item)
        go (ok p) e =
            unfold memory_step in rw (e, memory_step) (Accounts-keep _ refl refl (λ k. k) h)
        go (err v) e =
            unfold memory_step in
            rw (e, memory_step)
              (Accounts-keep _ refl refl (λ k. absurd (append-singleton r.violations v k)) h)

    parse_memories-Accounts :
        (raw : Json) (r : CheckResult)
        → Accounts request r
        → Accounts request (parse_memories u raw request r)
    unfolding parse_memories
    parse_memories-Accounts (arr entries) r h =
        each_inv (Accounts request) (memory_step u request) memory_step-Accounts r (items entries) h
    parse_memories-Accounts null r h = h
    parse_memories-Accounts _ r h = violate-Accounts r memories_not_list h

    conflict_step-Accounts :
        (active_ids proposed : List Text) (acts : Dict CurateActivity)
        (s : List (Ref × Ref) × CheckResult) (item : Json)
        → Accounts request s.1
        → Accounts request (conflict_step u active_ids proposed acts s item).1
    conflict_step-Accounts active_ids proposed acts (seen, r) item h =
        go (conflict_of u active_ids proposed acts item) refl
      where
        go :
            (m : Checked ConflictProposal)
            → conflict_of u active_ids proposed acts item ≡ m
            → Accounts request (conflict_step u active_ids proposed acts (seen, r) item).1
        go (err v) e = unfold conflict_step in rw (e, conflict_step) (violate-Accounts r v h)
        go (ok c) e =
            unfold conflict_step in
            elim (Bool-cases (any (same_pair (c.a, c.b)) seen)) [
              | inl b ↦ rw (e, conflict_step, b) h
              | inr b ↦ rw (e, conflict_step, b) (Accounts-keep _ refl refl (λ k. k) h)
            ]

    parse_conflicts-Accounts :
        (raw : Json) (r : CheckResult)
        → Accounts request r
        → Accounts request (parse_conflicts u raw request r)
    unfolding parse_conflicts
    parse_conflicts-Accounts (arr entries) r h =
        each_inv (λ s. Accounts request s.1) _ (conflict_step-Accounts _ _ _) ([], r)
          (items entries) h
    parse_conflicts-Accounts null r h = h
    parse_conflicts-Accounts _ r h = violate-Accounts r conflicts_not_list h

    unanswered :
        HasUniqueIds request
        → (a : Text)
        → count a [] + count a (map (λ x. x.id) (failures request))
          ≡ (if elem a (map (λ x. x.id) (failures request)) then 1 else 0)
    unfolding failures count
    unanswered unique a = ground (
      arith,
      unique.once a,
      elem_iff_count a (map (λ x. x.id) (failures request)),
      count-ids-keep a (λ x. is_failure_type x.type) request.window,
      ap (count a) (map-append (λ (x : CurateActivity). x.id) request.context request.window),
      count-append a (map (λ x. x.id) request.context) (map (λ x. x.id) request.window),
    )

    check_reply-Accounts :
        (reply : Option Fields)
        → HasUniqueIds request
        → Accounts request (check_reply u request reply)
    unfolding check_reply
    check_reply-Accounts none unique = record { tally = unanswered unique; clean = λ e. cc }
    check_reply-Accounts (some reply) unique =
        let assigned =
          parse_assignments-Accounts (get_field (codes "assignments") reply) request _ (
            parse_lessons-IsFresh (get_field (codes "lessons") reply) empty_result
              (record { none_assigned = refl; none_reported = refl })) in
        let dropped = drop-Accounts _ assigned in
        let proposed = parse_memories-Accounts (get_field (codes "memories") reply) _ dropped in
        elim (Bool-cases (is_collab request.profile)) [
          | inl e ↦ rw e (parse_conflicts-Accounts (get_field (codes "conflicts") reply) _ proposed)
          | inr e ↦ rw e proposed
        ]

    -- Whatever the reply is, each failure of the request is assigned exactly once or reported as
    -- unaccounted, never both; and a reply with no violation leaves none unaccounted.
    pub check_reply-IsAccounted :
        (reply : Option Fields)
        → HasUniqueIds request
        → IsAccounted request (check_reply u request reply)
    check_reply-IsAccounted reply unique = Accounts-IsAccounted (check_reply-Accounts reply unique)
