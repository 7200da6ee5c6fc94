-- ===== src/Curate/Versions.antt =====
-- The new versions in the response of `consolidate`, against those that they replace.
use memry_os_lite.Prelude.{
  bind, ℕ, ◌+◌, ◌-◌, ◌≤◌, ◌<◌, ◌≡◌, ◌⊎◌, refl, arith, Text, Bool, true, false, ◌||◌, ◌==◌, leb, ltb,
  Bool-cases, Option-cases, inl, inr, Option, none, some, List, [], ◌∷◌, ◌++◌, each, each_inv,
  length, length-drop, take_last, All, Dict, get, put, elem, teq,
}
use memry_os_lite.Unicode.{Unicode}
use memry_os_lite.Grounding.{normalize_text}
use memry_os_lite.Curate.Model.{
  CurateMemory, CurateMemoryVersion, CurateRequest, CurateResponse, CheckResult, MemoryProposal,
  is_lesson, is_collab, max_lesson_sources,
}
use memry_os_lite.Curate.Consolidate.{
  Hashing, Occurrence, Merge, Output, newest, bucket, merge_step, start_merge, lesson_round,
  lesson_draft, version_of, proposal_draft, lesson_version, proposal_round, proposal_version,
  winner_step, declared, statement_for,
}
use memry_os_lite.Curate.Response.{
  outputs, consolidate, occurrences_of, no_output, each_or_raise, conflicts_of,
}
use memry_os_lite.Curate.Raising.{
  Returns, each_or_raise-Returns, versioned-Returns, added-Returns, All-Unit,
}

abbrev pub prior_version : Option CurateMemory → ℕ
prior_version none = 0
prior_version (some m) = m.version

abbrev pub prior_occurrences : Option CurateMemory → ℕ
prior_occurrences none = 0
prior_occurrences (some m) = m.occurrences

abbrev pub prior_id : Option CurateMemory → Option Text
prior_id none = none
prior_id (some m) = some m.id

-- The statement is that of the memory, up to case and whitespace.
abbrev pub restated : Unicode → Option CurateMemory → Text → Bool
restated u none statement = false
restated u (some m) statement = teq (normalize_text u m.statement) (normalize_text u statement)

-- A version is in order against the memory `prior` that it replaces: it names that one, and is not
-- older; a lesson has more occurrences and at most `max_lesson_sources` sources; any other memory
-- has one occurrence, and another statement.
pub record IsInOrder (u : Unicode) (prior : Option CurateMemory) (v : CurateMemoryVersion)
    : Type 0 where
  pub supersedes : v.supersedes_id ≡ prior_id prior
  pub not_older : prior_version prior ≤ v.version
  pub kind :
      ((is_lesson v.kind ≡ true)
        × (prior_occurrences prior < v.occurrences)
        × (length v.sources ≤ max_lesson_sources))
      ⊎ ((is_lesson v.kind ≡ false) × (v.occurrences ≡ 1) × (restated u prior v.statement ≡ false))

-- The newest active memory with the topic key of a version, among lessons for a lesson.
abbrev pub replaced_by : CurateRequest → CurateMemoryVersion → Option CurateMemory
replaced_by request v = newest (bucket (is_lesson v.kind) request v.topic_key)

start_merge-version :
    (prior : Option CurateMemory) → prior_version prior ≤ (start_merge prior).version
unfolding start_merge
start_merge-version none = omega arith
start_merge-version (some m) = omega arith

merge-version :
    (prior : Option CurateMemory) (os : List Occurrence)
    → prior_version prior ≤ (each merge_step (start_merge prior) os).version
unfolding merge_step
merge-version prior os =
    each_inv (λ m. prior_version prior ≤ m.version) merge_step (λ m o k. ground arith)
      (start_merge prior) os (start_merge-version prior)

length-take_last-le {ℓ} : {A : Type ℓ} (n : ℕ) (xs : List A) → length (take_last n xs) ≤ n
length-take_last-le n xs = omega (arith, length-drop (length xs - n) xs)

abbrev pub older : Option CurateMemory → MemoryProposal → Bool
older none p = false
older (some prior) p = ltb p.version prior.version

not-older :
    (prior : Option CurateMemory) (p : MemoryProposal)
    → older prior p ≡ false
    → prior_version prior ≤ p.version
not-older none p e = omega arith
not-older (some m) p e = ground arith

module _ (h : Hashing) (u : Unicode) (request : CurateRequest) where
  lesson_version-IsInOrder :
      (prior : Option CurateMemory) (key statement : Text) (m : Merge)
      → prior_version prior ≤ m.version
      → (m.added == 0) ≡ false
      → (id : Text)
      → IsInOrder u prior
          (version_of h u request prior [] (lesson_draft h u request prior key statement m) id)
  lesson_version-IsInOrder none key statement m k e id = record {
    supersedes = refl;
    not_older = k;
    kind = inl (refl, ground arith, length-take_last-le max_lesson_sources m.sources);
  }
  lesson_version-IsInOrder (some p) key statement m k e id = record {
    supersedes = refl;
    not_older = k;
    kind = inl (refl, ground arith, length-take_last-le max_lesson_sources m.sources);
  }

  -- All versions so far are in order.
  abbrev AllInOrder : Output → Type 0
  AllInOrder o = All (λ v. IsInOrder u (replaced_by request v) v) o.out

  lesson_round-AllInOrder :
      (statements : Dict Text) (o : Output) (e : Text × List Occurrence)
      → AllInOrder o
      → Returns AllInOrder (lesson_round h u request statements o e)
  unfolding lesson_round lesson_version
  lesson_round-AllInOrder statements o (key, os) a =
      let prior = newest (bucket true request key) in
      let m = each merge_step (start_merge prior) os in
      elim (Bool-cases (m.added == 0)) [
        | inl e ↦ rw (e, lesson_round) a
        | inr e ↦ elim (Option-cases (statement_for statements key prior)) [
          | inl missing ↦ rw (e, lesson_round, missing) a
          | inr (statement, found) ↦
              rw (e, lesson_round, found)
                (added-Returns h u request (λ v. IsInOrder u (replaced_by request v) v)
                  (record o { noops = o.noops + m.noops }) _ a
                  (versioned-Returns h u request (λ v. IsInOrder u (replaced_by request v) v) prior
                    [] (lesson_draft h u request prior key statement m)
                    (lesson_version-IsInOrder prior key statement m (merge-version prior os) e)))
        ]
      ]

  proposal_version-IsInOrder :
      (prior : Option CurateMemory) (key : Text) (p : MemoryProposal)
      → is_lesson p.kind ≡ false
      → prior_version prior ≤ p.version
      → restated u prior p.statement ≡ false
      → (id : Text)
      → IsInOrder u prior
          (version_of h u request prior p.resolves (proposal_draft h u request key p) id)
  proposal_version-IsInOrder none key p other k e id = record {
    supersedes = refl;
    not_older = k;
    kind = inr (other, refl, e);
  }
  proposal_version-IsInOrder (some m) key p other k e id = record {
    supersedes = refl;
    not_older = k;
    kind = inr (other, refl, e);
  }

  -- The three branches of the round.
  module _ (o : Output) (key : Text) (p : MemoryProposal) where
    abbrev told_before : Bool
    told_before =
        restated u (newest (bucket false request key)) p.statement
        || elem (normalize_text u p.statement) (declared h u request)

    pub proposal_round-noop :
        told_before ≡ true
        → proposal_round h u request o (key, p) ≡ some (record o { noops = o.noops + 1 })
    unfolding proposal_round
    proposal_round-noop e = ground arith

    pub proposal_round-stale :
        told_before ≡ false
        → older (newest (bucket false request key)) p ≡ true
        → proposal_round h u request o (key, p) ≡ some (record o { stale = o.stale + 1 })
    unfolding proposal_round
    proposal_round-stale e s = ground arith

    pub proposal_round-new :
        told_before ≡ false
        → older (newest (bucket false request key)) p ≡ false
        → proposal_round h u request o (key, p)
          ≡ bind
              (proposal_version h u request (newest (bucket false request key)) key p)
              (λ v. some (record o { out = o.out ++ v ∷ [] }))
    unfolding proposal_round
    proposal_round-new e s = ground arith

  proposal_round-AllInOrder :
      (o : Output) (e : Text × MemoryProposal)
      → is_lesson e.1.kind ≡ false
      → AllInOrder o
      → Returns AllInOrder (proposal_round h u request o e)
  unfolding proposal_version
  proposal_round-AllInOrder o (key, p) other a =
      let prior = newest (bucket false request key) in
      elim (Bool-cases (
        restated u prior p.statement
        || elem (normalize_text u p.statement) (declared h u request))) [
          | inl e ↦ rw (proposal_round-noop o key p e) a
          | inr e ↦ elim (Bool-cases (older prior p)) [
            | inl s ↦ rw (proposal_round-stale o key p e s) a
            | inr s ↦ rw (proposal_round-new o key p e s) (
                added-Returns h u request (λ v. IsInOrder u (replaced_by request v) v) o _ a
                  (versioned-Returns h u request (λ v. IsInOrder u (replaced_by request v) v) prior
                    p.resolves (proposal_draft h u request key p)
                    (λ id. rw other (
                      proposal_version-IsInOrder prior key p other (not-older prior p s)
                        (ground arith) id))))
          ]
        ]

  abbrev IsOther : Text × MemoryProposal → Type 0
  IsOther e = is_lesson e.1.kind ≡ false

  All-put :
      (d : Dict MemoryProposal) (k : Text) (p : MemoryProposal)
      → is_lesson p.kind ≡ false
      → All IsOther d
      → All IsOther (put d k p)
  unfolding put
  All-put [] k p other a = (other, tt)
  All-put ((j, q) ∷ d) k p other a = elim (Bool-cases (teq k j)) [
    | inl e ↦ rw (e, put) (other, a.1)
    | inr e ↦ rw (e, put) (a.0, All-put d k p other a.1)
  ]

  winner_step-IsOther :
      (s : Dict MemoryProposal × ℕ) (p : MemoryProposal)
      → All IsOther s.0
      → All IsOther (winner_step h u request s p).0
  unfolding winner_step
  winner_step-IsOther (d, n) p a = elim (Bool-cases (is_lesson p.kind)) [
    | inl e ↦ rw (e, winner_step) a
    | inr e ↦ elim (Option-cases (get d p.topic_key)) [
      | inl fresh ↦ rw (e, winner_step, fresh) (All-put d p.topic_key p e a)
      | inr (current, found) ↦ elim (Bool-cases (leb current.version p.version)) [
        | inl k ↦ rw (e, winner_step, found, k) (All-put d p.topic_key p e a)
        | inr k ↦ rw (e, winner_step, found, k) a
      ]
    ]
  ]

  outputs-AllInOrder : (check : CheckResult) → Returns AllInOrder (outputs h u request check)
  unfolding outputs
  outputs-AllInOrder check =
      let (occurrences, statements) = occurrences_of request check in
      let lessons =
        each_or_raise-Returns (λ e. Unit {0}) AllInOrder (lesson_round h u request statements)
          (λ o e _ a. lesson_round-AllInOrder statements o e a) no_output occurrences
          (All-Unit occurrences) tt in
      elim (Option-cases
        (each_or_raise (lesson_round h u request statements) no_output occurrences)) [
          | inl e ↦ rw (e, outputs) tt
          | inr (o, e) ↦
              let others =
                each_inv (λ s. All IsOther s.0) (winner_step h u request) winner_step-IsOther
                  ([], o.noops) check.memories tt in
              rw (e, outputs)
                (each_or_raise-Returns IsOther AllInOrder (proposal_round h u request)
                  (λ o e other a. proposal_round-AllInOrder o e other a) _ _ others
                  (rw e at lessons))
        ]

  consolidate-AllInOrder :
      (check : CheckResult)
      → Returns
          (λ r. All (λ v. IsInOrder u (replaced_by request v) v) r.memories)
          (consolidate h u request check)
  unfolding consolidate
  consolidate-AllInOrder check = elim (Option-cases (outputs h u request check)) [
    | inl e ↦ rw (e, consolidate) tt
    | inr (o, e) ↦
        let ordered : AllInOrder o = rw e at (outputs-AllInOrder check) in
        elim (Bool-cases (is_collab request.profile)) [
          | inr f ↦ rw (e, consolidate, f) ordered
          | inl f ↦ elim (Option-cases (conflicts_of request check o.out)) [
            | inl g ↦ rw (e, consolidate, f, g) tt
            | inr (c, g) ↦ rw (e, consolidate, f, g) ordered
          ]
        ]
  ]

  -- Every version in the response that `consolidate` returns, if it returns one, is in order against
  -- the newest active memory with its topic key (among the lessons for a lesson, among the other
  -- memories for another).
  pub consolidate-IsInOrder :
      (check : CheckResult) (r : CurateResponse)
      → consolidate h u request check ≡ some r
      → All (λ v. IsInOrder u (replaced_by request v) v) r.memories
  consolidate-IsInOrder check r made = rw made at (consolidate-AllInOrder check)
