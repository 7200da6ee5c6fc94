-- ===== src/Curate/Accounting/Tally.antt =====
-- The loop over the assignments of a reply: what is assigned, and what is left to report.
use memry_os_lite.Prelude.{
  count-append, count-one, ◌≢◌, ◌≤◌, ◌≡◌, refl, ap, ◌∙◌, sym, arith, Text, Bool, true, false, not,
  ◌||◌, if◌then◌else◌, Bool-cases, inl, inr, List, [], ◌∷◌, ◌++◌, map, map-append, keep, each,
  each_inv, Dict, get, put, keys, count-keys-put, count, elem, elem_iff_count, teq, teq_iff,
  append-nil, append_assoc, is_some,
}
use memry_os_lite.Unicode.{Unicode}
use memry_os_lite.Json.{Json}
use memry_os_lite.Curate.Model.{
  CurateActivity, CurateAssignment, CheckResult, Checked, ok, err, no_assignment,
}
use memry_os_lite.Curate.Check.{by_id, assignment_of, assignment_step, unaccounted_step}

-- Each key is there once at most.
abbrev pub HasOnce : {V : Type 0} → Dict V → Type 0
HasOnce d = (a : Text) → count a (keys d) ≤ 1

pub put-HasOnce : {V : Type 0} (d : Dict V) (k : Text) (v : V) → HasOnce d → HasOnce (put d k v)
put-HasOnce d k v h a =
    ground (arith, count-keys-put d k a v, h a, teq_iff a k, elem_iff_count k (keys d))

pub by_id-HasOnce : (xs : List CurateActivity) → HasOnce (by_id xs)
unfolding by_id count
by_id-HasOnce xs =
    each_inv HasOnce (λ d a. put d a.id a) (λ d a h. put-HasOnce d a.id a h) [] xs
      (λ a. omega arith)

pub elem-append : (x : Text) (xs ys : List Text) → elem x (xs ++ ys) ≡ (elem x xs || elem x ys)
unfolding elem
elem-append x [] ys = refl
elem-append x (y ∷ xs) ys = ground (arith, elem-append x xs ys)

pub elem-one : (x y : Text) → elem x (y ∷ []) ≡ teq x y
unfolding elem
elem-one x y = ground arith

pub is_key :
    {V : Type 0} (d : Dict V) (k : Text) → is_some (get d k) ≡ true → elem k (keys d) ≡ true
unfolding get elem
is_key [] k h = cc
is_key ((j, w) ∷ d) k h = ground (arith, is_key d k)

module _ (u : Unicode) (failing : Dict CurateActivity) (other_ids lesson_keys : List Text) where
  -- An accepted assignment is for a failure, and for one that has none yet.
  pub assignment_of-new :
      (assigned : List Text) (item : Json) {a : CurateAssignment}
      → assignment_of u failing other_ids lesson_keys assigned item ≡ ok a
      → (elem a.activity_id assigned ≡ false) × (is_some (get failing a.activity_id) ≡ true)
  unfolding assignment_of
  assignment_of-new assigned item {a} h = ground arith

  -- The loop over the entries: what is assigned is what stands in `assignments`, each id once and
  -- each a failure.
  pub record IsTally (assigned : List Text) (result : CheckResult) : Type 0 where
    pub listed : map (λ a. a.activity_id) result.assignments ≡ assigned
    pub once : (x : Text) → count x assigned ≤ 1
    pub failed : (x : Text) → elem x assigned ≡ true → elem x (keys failing) ≡ true
    pub unreported : result.unaccounted ≡ []

  assignment_step-IsTally :
      (s : List Text × CheckResult) (item : Json)
      → IsTally s.0 s.1
      → IsTally
          (assignment_step u failing other_ids lesson_keys s item).0
          (assignment_step u failing other_ids lesson_keys s item).1
  unfolding assignment_step
  assignment_step-IsTally (assigned, result) item tally =
      go (assignment_of u failing other_ids lesson_keys assigned item) refl
    where
      go :
          (r : Checked CurateAssignment)
          → assignment_of u failing other_ids lesson_keys assigned item ≡ r
          → IsTally
              (assignment_step u failing other_ids lesson_keys (assigned, result) item).0
              (assignment_step u failing other_ids lesson_keys (assigned, result) item).1
      go (err v) e =
          rw (e, assignment_step)
            (record {
              listed = tally.listed;
              once = tally.once;
              failed = tally.failed;
              unreported = tally.unreported;
            })
      go (ok a) e =
          let (fresh, found) = assignment_of-new assigned item e in
          rw (e, assignment_step)
            (record {
              listed =
                  map-append (λ b. b.activity_id) result.assignments (a ∷ [])
                  ∙ ap (λ ys. ys ++ a.activity_id ∷ []) tally.listed;
              once = λ x. rw count-append (
                  ground (
                    arith,
                    count-one x a.activity_id,
                    tally.once x,
                    elem_iff_count x assigned,
                    teq_iff x a.activity_id,
                  ));
              failed = λ x h. ground (
                arith,
                tally.failed x,
                elem-append x assigned (a.activity_id ∷ []),
                elem-one x a.activity_id,
                teq_iff x a.activity_id,
                is_key failing a.activity_id,
              );
              unreported = tally.unreported;
            })

  pub assignments-IsTally :
      (s : List Text × CheckResult) (entries : List Json)
      → IsTally s.0 s.1
      → IsTally
          (each (assignment_step u failing other_ids lesson_keys) s entries).0
          (each (assignment_step u failing other_ids lesson_keys) s entries).1
  assignments-IsTally =
      each_inv (λ s. IsTally s.0 s.1) (assignment_step u failing other_ids lesson_keys)
        assignment_step-IsTally

pub count-keep :
    (x : Text) (p : Text → Bool) (ys : List Text)
    → count x (keep p ys) ≡ (if p x then count x ys else 0)
unfolding count
count-keep x p [] = ground arith
count-keep x p (y ∷ ys) = elim (Bool-cases (teq x y)) [
  | inl e ↦ let same : x ≡ y = (teq_iff x y).0 e in ground (arith, count-keep x p ys, same)
  | inr e ↦ ground (arith, count-keep x p ys)
]

pub append-singleton {ℓ} : {A : Type ℓ} (xs : List A) (x : A) → xs ++ x ∷ [] ≢ []
append-singleton [] x e = cc
append-singleton (y ∷ xs) x e = cc

-- What the last loop reports: the failures that are not assigned, in their order.
module _ (assigned : List Text) where
  pub unaccounted-each :
      (r : CheckResult) (d : Dict CurateActivity)
      → ((each (unaccounted_step assigned) r d).unaccounted
          ≡ r.unaccounted ++ keep (λ k. not (elem k assigned)) (keys d))
        × ((each (unaccounted_step assigned) r d).assignments ≡ r.assignments)
  unaccounted-each r [] = (sym (append-nil _), refl)
  unaccounted-each r ((k, a) ∷ d) = elim (Bool-cases (elem k assigned)) [
    | inl e ↦
        let step : unaccounted_step assigned r (k, a) ≡ r = unfold unaccounted_step in rw e refl in
        rw (each, step, e) (unaccounted-each r d)
    | inr e ↦
        let r' = record r {
          unaccounted = r.unaccounted ++ k ∷ [];
          violations = r.violations ++ no_assignment k a.type ∷ [];
        } in
        let step : unaccounted_step assigned r (k, a) ≡ r' = unfold unaccounted_step in rw e refl in
        let (reported, same) = unaccounted-each r' d in
        rw (each, step, e) (reported ∙ append_assoc r.unaccounted (k ∷ []) _, same)
  ]

  -- A reported failure is a violation too.
  pub unaccounted-clean :
      (r : CheckResult) (d : Dict CurateActivity)
      → (r.violations ≡ [] → r.unaccounted ≡ [])
      → (each (unaccounted_step assigned) r d).violations ≡ []
      → (each (unaccounted_step assigned) r d).unaccounted ≡ []
  unfolding unaccounted_step
  unaccounted-clean r d h =
      each_inv (λ r. r.violations ≡ [] → r.unaccounted ≡ []) (unaccounted_step assigned)
        (λ r p k. ground (arith, append-singleton r.violations)) r d h

pub count-ids-keep :
    (x : Text) (p : CurateActivity → Bool) (acts : List CurateActivity)
    → count x (map (λ a. a.id) (keep p acts)) ≤ count x (map (λ a. a.id) acts)
unfolding count
count-ids-keep x p [] = omega arith
count-ids-keep x p (a ∷ acts) = ground (arith, count-ids-keep x p acts)
