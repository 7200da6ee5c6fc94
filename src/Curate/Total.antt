-- ===== src/Curate/Total.antt =====
-- `consolidate` of src/memoryos_lite/curator/curate.py returns where all texts are encodable.
use memry_os_lite.Prelude.{
  ℕ, ◌≡◌, refl, arith, Text, Bool, true, false, ◌&&◌, ◌==◌, Bool-cases, Option-cases, ◌||◌, leb,
  ◌+◌, is_some, inl, inr, Option, none, some, or_else, bind, List, [], ◌∷◌, ◌++◌, all, each,
  each_inv_all, All, All-append, Dict, get, elem,
}
use memry_os_lite.Unicode.{Unicode}
use memry_os_lite.Curate.Model.{
  CurateMemory, CurateMemoryVersion, CurateRequest, CurateAssignment, CurateConflict, CheckResult,
  MemoryProposal, ConflictProposal, is_lesson, is_collab,
}
use memry_os_lite.Curate.Consolidate.{
  Hashing, Occurrence, Output, is_encodable, source_is_encodable, memory_is_encodable, memory_id,
  versioned, lesson_version, lesson_draft, proposal_draft, proposal_version, lesson_round,
  winner_step, declared, proposal_round, merge_step, start_merge, statement_for, newest, bucket,
}
use memry_os_lite.Curate.Newest.{newest-All}
use memry_os_lite.Curate.Response.{
  occurrence_of_assignment, occurrence_of_proposal, occurrences_of, each_or_raise, outputs,
  consolidate, conflicts_of, conflict_round, conflict_ids, new_ids, conflict_is_encodable,
  no_output,
}
use memry_os_lite.Curate.Raising.{Returns}
use memry_os_lite.Curate.Versions.{
  restated, older, proposal_round-noop, proposal_round-stale, proposal_round-new,
}
use memry_os_lite.Grounding.{normalize_text}
use memry_os_lite.Curate.Encodable.{
  HashingLaws, assignment_is_encodable, proposal_is_encodable, is_encodable_check, and_true,
  all-All, All-all, All-keep, All-drop, All-put,
}
use memry_os_lite.Curate.Texts.{
  IsEncodable, IsSource, OccurrenceOk, EntryOk, StatementOk, MemoryOk, ProposalOk, All-ProposalOk,
  All-StatementOk, dismissals, memory_whole, push-EntryOk, id_fields-encodable, merge_step-ok,
  start_merge-ok, statement_for-ok,
}

-- A loop whose rounds return.
each_or_raise-some :
    {A B : Type 0} (Q : A → Type 0) (step : B → A → Option B)
    → ((s : B) (x : A) → Q x → is_some (step s x) ≡ true)
    → (s : B) (xs : List A) → All Q xs
    → is_some (each_or_raise step s xs) ≡ true
unfolding each_or_raise
each_or_raise-some Q step k s [] q = refl
each_or_raise-some Q step k s (x ∷ xs) q = elim (Option-cases (step s x)) [
  | inl e ↦ absurd (ground (arith, e, k s x q.0))
  | inr (s', e) ↦ rw (e, each_or_raise) (each_or_raise-some Q step k s' xs q.1)
]

-- A new version behind the others.
added-some :
    (o : Output) (v : Option CurateMemoryVersion)
    → is_some v ≡ true
    → is_some (bind v (λ v. some (record o { out = o.out ++ v ∷ [] }))) ≡ true
added-some o none e = e
added-some o (some v) e = refl

module _ (h : Hashing) (laws : HashingLaws h) (u : Unicode) (request : CurateRequest)
    (scope : IsEncodable request.scope_id) (active : All MemoryOk request.active) where
  versioned-some :
      (prior : Option CurateMemory) (resolves : List Text) (draft : CurateMemory)
      → MemoryOk draft
      → All IsEncodable resolves
      → is_some (versioned h u request prior resolves draft) ≡ true
  unfolding versioned memory_id
  versioned-some prior resolves draft ok r =
      let id =
        laws.dumps-encodable _ (id_fields-encodable request.scope_id draft resolves scope ok r) in
      rw (ok, versioned, memory_id, id) refl

  newest-ok : (lessons : Bool) (key : Text) → Returns MemoryOk (newest (bucket lessons request key))
  unfolding bucket
  newest-ok lessons key = elim (Option-cases (newest (bucket lessons request key))) [
    | inl e ↦ rw e tt
    | inr (m, e) ↦ rw e (newest-All MemoryOk _ (All-keep MemoryOk _ request.active active) e)
  ]

  lesson_round-some :
      (statements : Dict Text)
      → All StatementOk statements
      → (o : Output) (e : Text × List Occurrence) → EntryOk e
      → is_some (lesson_round h u request statements o e) ≡ true
  unfolding lesson_round lesson_version
  lesson_round-some statements good o (key, os) ok =
      let prior = newest (bucket true request key) in
      let m = each merge_step (start_merge prior) os in
      let sources : All IsSource m.sources =
        each_inv_all OccurrenceOk (λ m. All IsSource m.sources) merge_step
          (λ m o k a. merge_step-ok m o k a) (start_merge prior) os ok.1
          (start_merge-ok prior (newest-ok true key)) in
      elim (Bool-cases (m.added == 0)) [
        | inl e ↦ rw (e, lesson_round) refl
        | inr e ↦ elim (Option-cases (statement_for statements key prior)) [
          | inl missing ↦ rw (e, lesson_round, missing) refl
          | inr (statement, found) ↦
              let told : IsEncodable statement =
                rw found at (statement_for-ok statements key prior good (newest-ok true key)) in
              let made =
                versioned-some prior [] (lesson_draft h u request prior key statement m)
                  (memory_whole _ ok.0 told (All-drop IsSource _ m.sources sources)) tt in
              rw (e, lesson_round, found)
                (added-some (record o { noops = o.noops + m.noops }) _ made)
        ]
      ]

  proposal_round-some :
      (o : Output) (e : Text × MemoryProposal)
      → (IsEncodable e.0 × ProposalOk e.1)
      → is_some (proposal_round h u request o e) ≡ true
  unfolding proposal_version
  proposal_round-some o (key, p) (k, (t, s, q, r)) =
      let prior = newest (bucket false request key) in
      let made =
        versioned-some prior p.resolves (proposal_draft h u request key p) (memory_whole _ k s q)
          r in
      elim (Bool-cases (
        restated u prior p.statement
        || elem (normalize_text u p.statement) (declared h u request))) [
          | inl e ↦ rw (proposal_round-noop h u request o key p e) refl
          | inr e ↦ elim (Bool-cases (older prior p)) [
            | inl s ↦ rw (proposal_round-stale h u request o key p e s) refl
            | inr s ↦ rw (proposal_round-new h u request o key p e s) (added-some o _ made)
          ]
        ]

  occurrence_of_assignment-ok :
      (d : Dict (List Occurrence)) (a : CurateAssignment)
      → assignment_is_encodable a ≡ true
      → All EntryOk d
      → All EntryOk (occurrence_of_assignment request d a)
  unfolding occurrence_of_assignment
  occurrence_of_assignment-ok d a ok k = elim (Option-cases a.lesson) [
    | inl e ↦ rw (e, occurrence_of_assignment) k
    | inr (key, e) ↦
        let (ok, dismiss) = and_true _ (is_encodable (or_else a.dismiss [])) ok in
        let (ok, quote) = and_true _ (is_encodable (or_else a.quote [])) ok in
        let (id, named) = and_true (is_encodable a.activity_id) _ ok in
        let told : IsEncodable key = ground (arith, named, e) in
        rw (e, occurrence_of_assignment) (push-EntryOk d key _ k told (rw (id, quote) refl, tt))
  ]

  BothOk : Dict (List Occurrence) × Dict Text → Type 0
  BothOk s = All EntryOk s.0 × All StatementOk s.1

  occurrence_of_proposal-ok :
      (s : Dict (List Occurrence) × Dict Text) (p : MemoryProposal)
      → ProposalOk p
      → BothOk s
      → BothOk (occurrence_of_proposal s p)
  unfolding occurrence_of_proposal BothOk
  occurrence_of_proposal-ok (d, statements) p (t, st, so, r) (a, b) =
      elim (Bool-cases (is_lesson p.kind)) [
        | inl e ↦
            rw (e, occurrence_of_proposal)
              (
                push-EntryOk d p.topic_key _ a t so,
                All-put StatementOk statements p.topic_key p.statement (t, st) b,
              )
        | inr e ↦ rw (e, occurrence_of_proposal) (a, b)
      ]

  WinnerOk : Text × MemoryProposal → Type 0
  WinnerOk e = IsEncodable e.0 × ProposalOk e.1

  winner_step-ok :
      (s : Dict MemoryProposal × ℕ) (p : MemoryProposal)
      → ProposalOk p
      → All WinnerOk s.0
      → All WinnerOk (winner_step h u request s p).0
  unfolding winner_step WinnerOk
  winner_step-ok (d, n) p ok a = elim (Bool-cases (is_lesson p.kind)) [
    | inl e ↦ rw (e, winner_step) a
    | inr e ↦
        let placed = All-put WinnerOk d p.topic_key p (ok.0, ok) a in
        elim (Option-cases (get d p.topic_key)) [
          | inl fresh ↦ rw (e, winner_step, fresh) placed
          | inr (current, found) ↦ elim (Bool-cases (leb current.version p.version)) [
            | inl k ↦ rw (e, winner_step, found, k) placed
            | inr k ↦ rw (e, winner_step, found, k) a
          ]
        ]
  ]

  ConflictOk : CurateConflict → Type 0
  ConflictOk c = conflict_is_encodable c ≡ true

  conflict_round-ok :
      (ids : Dict Text) (s : List (Text × Text) × List CurateConflict) (p : ConflictProposal)
      → (is_encodable p.reason && all source_is_encodable p.sources) ≡ true
      → All ConflictOk s.1
      → All ConflictOk (conflict_round ids s p).1
  unfolding conflict_round ConflictOk
  conflict_round-ok ids (seen, conflicts) p ok a = elim (Option-cases (conflict_ids ids seen p)) [
    | inl e ↦ rw (e, conflict_round) a
    | inr ((i, j), e) ↦ rw (e, conflict_round) (All-append ConflictOk conflicts _ a (ok, tt))
  ]

  module _ (check : CheckResult) (ok : is_encodable_check request check ≡ true) where
    conflicts_of-some :
        (out : List CurateMemoryVersion) → is_some (conflicts_of request check out) ≡ true
    unfolding is_encodable_check conflicts_of ConflictOk
    conflicts_of-some out =
        let (_, given) =
          and_true _
            (all (λ c. is_encodable c.reason && all source_is_encodable c.sources) check.conflicts)
            ok in
        let kept =
          each_inv_all (λ p. (is_encodable p.reason && all source_is_encodable p.sources) ≡ true)
            (λ s. All ConflictOk s.1) (conflict_round (new_ids request out))
            (λ s p q a. conflict_round-ok (new_ids request out) s p q a) ([], []) check.conflicts
            (all-All _ check.conflicts given) tt in
        rw (conflicts_of, All-all conflict_is_encodable _ kept) refl

    outputs-some : is_some (outputs h u request check) ≡ true
    unfolding is_encodable_check outputs occurrences_of BothOk WinnerOk
    outputs-some =
        let (r, _) =
          and_true _
            (all (λ c. is_encodable c.reason && all source_is_encodable c.sources) check.conflicts)
            ok in
        let (r, memories) = and_true _ (all proposal_is_encodable check.memories) r in
        let (r, lessons) =
          and_true _ (all (λ e. is_encodable e.0 && is_encodable e.1) check.lessons) r in
        let (r, assignments) = and_true _ (all assignment_is_encodable check.assignments) r in
        let proposals = All-ProposalOk check.memories memories in
        let entries : All EntryOk (each (occurrence_of_assignment request) [] check.assignments) =
          each_inv_all (λ a. assignment_is_encodable a ≡ true) (All EntryOk)
            (occurrence_of_assignment request) occurrence_of_assignment-ok [] check.assignments
            (all-All _ check.assignments assignments) tt in
        let both : BothOk (occurrences_of request check) =
          each_inv_all ProposalOk BothOk occurrence_of_proposal occurrence_of_proposal-ok _
            check.memories proposals (entries, All-StatementOk check.lessons lessons) in
        let (occurrences, statements) = occurrences_of request check in
        let first =
          each_or_raise-some EntryOk (lesson_round h u request statements)
            (λ o e q. lesson_round-some statements both.1 o e q) no_output occurrences both.0 in
        elim (Option-cases
          (each_or_raise (lesson_round h u request statements) no_output occurrences)) [
            | inl e ↦ absurd (ground (arith, e, first))
            | inr (o, e) ↦
                let winners =
                  each_inv_all ProposalOk (λ s. All WinnerOk s.0) (winner_step h u request)
                    winner_step-ok ([], o.noops) check.memories proposals tt in
                rw (e, outputs)
                  (each_or_raise-some WinnerOk (proposal_round h u request) proposal_round-some _ _
                    winners)
          ]

    consolidate-some : is_some (consolidate h u request check) ≡ true
    unfolding consolidate
    consolidate-some = elim (Option-cases (outputs h u request check)) [
      | inl e ↦ absurd (ground (arith, e, outputs-some))
      | inr (o, e) ↦ elim (Bool-cases (is_collab request.profile)) [
        | inr f ↦ rw (e, consolidate, f) refl
        | inl f ↦ elim (Option-cases (conflicts_of request check o.out)) [
          | inl g ↦ absurd (ground (arith, g, conflicts_of-some o.out))
          | inr (c, g) ↦ rw (e, consolidate, f, g) refl
        ]
      ]
    ]

-- No assignment of a checked reply is refused then.
pub dismissals-encodable :
    (request : CurateRequest) (check : CheckResult)
    → is_encodable_check request check ≡ true
    → all (λ a. is_encodable (or_else a.dismiss [])) check.assignments ≡ true
unfolding is_encodable_check
dismissals-encodable request check ok =
    let (r, _) =
      and_true _
        (all (λ c. is_encodable c.reason && all source_is_encodable c.sources) check.conflicts)
        ok in
    let (r, _) = and_true _ (all proposal_is_encodable check.memories) r in
    let (r, _) = and_true _ (all (λ e. is_encodable e.0 && is_encodable e.1) check.lessons) r in
    let (r, assignments) = and_true _ (all assignment_is_encodable check.assignments) r in
    dismissals check.assignments assignments

-- If all texts of a request and of a checked reply are encodable, `consolidate` returns.
pub consolidate-IsSome :
    (h : Hashing) (laws : HashingLaws h) (u : Unicode) (request : CurateRequest)
    (check : CheckResult)
    → is_encodable_check request check ≡ true
    → is_some (consolidate h u request check) ≡ true
unfolding is_encodable_check
consolidate-IsSome h laws u request check ok =
    let (r, _) =
      and_true _
        (all (λ c. is_encodable c.reason && all source_is_encodable c.sources) check.conflicts)
        ok in
    let (r, _) = and_true _ (all proposal_is_encodable check.memories) r in
    let (r, _) = and_true _ (all (λ e. is_encodable e.0 && is_encodable e.1) check.lessons) r in
    let (r, _) = and_true _ (all assignment_is_encodable check.assignments) r in
    let (scope, active) =
      and_true (is_encodable request.scope_id) (all memory_is_encodable request.active) r in
    consolidate-some h laws u request scope (all-All _ request.active active) check ok
