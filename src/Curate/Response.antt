-- ===== src/Curate/Response.antt =====
-- `_conflicts` and `consolidate` of src/memoryos_lite/curator/curate.py, over the rounds of
-- `Curate.Consolidate`.
use memry_os_lite.Prelude.{
  ℕ, Text, true, false, ◌&&◌, ◌||◌, if◌then◌else◌, Option, none, some, or_else, List, [], ◌∷◌, ◌++◌,
  any, all, bind, Bool, each, Dict, get, put, teq, sort,
}
use memry_os_lite.Unicode.{Unicode}
use memry_os_lite.Curate.Model.{
  CurateMemoryVersion, CurateRequest, CurateResponse, CurateAssignment, CurateConflict,
  MemoryProposal, ConflictProposal, Ref, CheckResult, is_lesson, is_collab, activities,
}
use memry_os_lite.Curate.Check.{by_id}
use memry_os_lite.Curate.Consolidate.{
  Hashing, Occurrence, Output, is_encodable, source_is_encodable, not_newer, push, lesson_round,
  winner_step, proposal_round,
}

-- `seq[activity_id]`; the id is that of an activity of the request
abbrev seq_of : CurateRequest → Text → ℕ
unfolding by_id get
seq_of request id = elim (get (by_id (activities request)) id) [ none ↦ 0 | some a ↦ a.seq ]

-- The first loop: an assignment to a lesson is an occurrence.
unfoldable pub occurrence_of_assignment :
    CurateRequest → Dict (List Occurrence) → CurateAssignment → Dict (List Occurrence)
unfolding seq_of put get
occurrence_of_assignment request d a = elim a.lesson [
  | none ↦ d
  | some key ↦ push d key (record {
    sources = record { activity_id = a.activity_id; quote = or_else a.quote [] } ∷ [];
    version = seq_of request a.activity_id;
    proposed = false;
  })
]

-- The second loop: so is a lesson proposal, which also gives the statement.
unfoldable pub occurrence_of_proposal :
    Dict (List Occurrence) × Dict Text → MemoryProposal → Dict (List Occurrence) × Dict Text
unfolding put get
occurrence_of_proposal (d, statements) p =
    if is_lesson p.kind
    then (
      push d p.topic_key (record { sources = p.sources; version = p.version; proposed = true }),
      put statements p.topic_key p.statement,
    )
    else (d, statements)

-- `occurrences_by_key` and `statements`
unfoldable pub occurrences_of : CurateRequest → CheckResult → Dict (List Occurrence) × Dict Text
unfolding occurrence_of_assignment occurrence_of_proposal
occurrences_of request check =
    each occurrence_of_proposal
      (each (occurrence_of_assignment request) [] check.assignments, check.lessons) check.memories

-- `new_ids`: the id of the newest active memory with a key, or of the new version
unfoldable pub new_ids : CurateRequest → List CurateMemoryVersion → Dict Text
unfolding put sort
new_ids request out =
    each (λ d v. put d v.topic_key v.id)
      (each (λ d m. put d m.topic_key m.id) [] (sort not_newer request.active)) out

abbrev id_of_ref : Dict Text → Ref → Option Text
id_of_ref ids (Ref.active id) = some id
id_of_ref ids (Ref.new key) = get ids key

-- The pair of ids of a conflict, unless they are one or were seen.
unfoldable pub conflict_ids :
    Dict Text → List (Text × Text) → ConflictProposal → Option (Text × Text)
unfolding get
conflict_ids ids seen p = elim (id_of_ref ids p.a) [
  | none ↦ none
  | some a ↦ elim (id_of_ref ids p.b) [
    | none ↦ none
    | some b ↦
        if teq a b || any (λ s. (teq a s.0 && teq b s.1) || (teq a s.1 && teq b s.0)) seen
        then none
        else some (a, b)
  ]
]

unfoldable pub conflict_round :
    Dict Text
    → List (Text × Text) × List CurateConflict
    → ConflictProposal
    → List (Text × Text) × List CurateConflict
unfolding conflict_ids
conflict_round ids (seen, conflicts) p = elim (conflict_ids ids seen p) [
  | none ↦ (seen, conflicts)
  | some (a, b) ↦ (
    (a, b) ∷ seen,
    conflicts ++ record { a_id = a; b_id = b; reason = p.reason; sources = p.sources } ∷ [],
  )
]

-- The texts of a conflict; its ids are of memories of the request, or hexadecimal.
abbrev pub conflict_is_encodable : CurateConflict → Bool
conflict_is_encodable c = is_encodable c.reason && all source_is_encodable c.sources

-- `_conflicts`; `none` is the `ValidationError` of a `CurateConflict`
unfoldable pub conflicts_of :
    CurateRequest → CheckResult → List CurateMemoryVersion → Option (List CurateConflict)
unfolding conflict_round new_ids
conflicts_of request check out =
    let conflicts = (each (conflict_round (new_ids request out)) ([], []) check.conflicts).1 in
    if all conflict_is_encodable conflicts then some conflicts else none

-- A loop whose rounds may raise.
unfoldable pub each_or_raise {ℓ κ} :
    {A : Type ℓ} {S : Type κ} → (S → A → Option S) → S → List A → Option S
each_or_raise step s [] = some s
each_or_raise step s (x ∷ xs) = elim (step s x) [ none ↦ none | some s' ↦ each_or_raise step s' xs ]

abbrev pub no_output : Output
no_output = record { out = []; noops = 0; stale = 0 }

module _ (h : Hashing) (u : Unicode) where
  -- The two loops that make new versions; `none` is an exception.
  unfoldable pub outputs : CurateRequest → CheckResult → Option Output
  unfolding occurrences_of lesson_round winner_step proposal_round
  outputs request check =
      let (occurrences, statements) = occurrences_of request check in
      elim (each_or_raise (lesson_round h u request statements) no_output occurrences) [
        | none ↦ none
        | some lessons ↦
            let (winners, noops) =
              each (winner_step h u request) ([], lessons.noops) check.memories in
            each_or_raise (proposal_round h u request) (record lessons { noops = noops }) winners
      ]

  -- The response, from the new versions and the conflicts of a collaboration.
  abbrev pub response_of :
      CurateRequest → CheckResult → Output → Option (List CurateConflict) → CurateResponse
  response_of request check o conflicts = record {
    scope_id = request.scope_id;
    memories = o.out;
    assignments = check.assignments;
    unaccounted = check.unaccounted;
    conflicts = conflicts;
    diagnostics = record {
      llm_calls = 0;
      repairs = 0;
      initial_violations = [];
      final_violations = [];
      rejected_memories = check.rejected_memories;
      noop_memories = o.noops;
      stale_memories = o.stale;
    };
  }

  -- `none` is an exception: a text that is not encodable
  unfoldable pub consolidate : CurateRequest → CheckResult → Option CurateResponse
  unfolding outputs conflicts_of
  consolidate request check = elim (outputs request check) [
    | none ↦ none
    | some o ↦
        if is_collab request.profile
        then bind (conflicts_of request check o.out)
            (λ conflicts. some (response_of request check o (some conflicts)))
        else some (response_of request check o none)
  ]
