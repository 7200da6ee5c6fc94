-- ===== src/Curate/Assigned.antt =====
-- What an assignment that `_parse_assignments` accepts says of its failure.
pub mod Reply
use mathlib.Core.Path.{subst}
use memry_os_lite.Prelude.{
  ℕ, ◌+◌, ◌≤◌, ◌<◌, ◌≡◌, ◌⊎◌, refl, sym, ap, ◌∙◌, arith, Text, codes, Bool, true, false, not, ◌&&◌,
  ◌||◌, ◌==◌, ltb, if◌then◌else◌, Bool-cases, Option-cases, inl, inr, Option, none, some, bind,
  List, [], ◌∷◌, ◌++◌, map, keep, each, each_inv, any, All, All-append, length, Dict, get, keys,
  elem, IsSpanOf, strip, is_space,
}
use memry_os_lite.Unicode.{Unicode, FoldLaws}
use memry_os_lite.Json.{Json, arr, null, Fields, items, get_field, as_obj, as_str, is_null}
use memry_os_lite.Grounding.{repair_quote}
use memry_os_lite.Grounding.Spans.{repair_quote-IsGrounded}
use memry_os_lite.Curate.Model.{
  CurateRequest, CurateActivity, CurateAssignment, CheckResult, Checked, ok, err, max_dismiss_chars,
  failures, activities, MemoryProposal, ConflictProposal, Ref, is_collab, empty_result,
}
use memry_os_lite.Curate.Check.{
  by_id, assignment_of, lesson_assignment_of, dismissal_of, topic_key_of, assignment_step,
  assignment_entries, unaccounted_step, parse_assignments, parse_lessons, lesson_step, lesson_of,
  active_lesson_keys, drop_step, drop_lessons_without_failures, assigned_keys, violate,
}
use memry_os_lite.Curate.Proposals.{
  memory_of, memory_step, parse_memories, conflict_of, conflict_step, parse_conflicts, same_pair,
  check_reply,
}

-- A dismissal with a reason of 1 to `max_dismiss_chars` characters, or a lesson with a verbatim quote
-- of the failure.
abbrev pub IsDecision : CurateActivity → CurateAssignment → Type 0
IsDecision failure a =
    ((a.lesson ≡ none)
      × (a.quote ≡ none)
      × (reason : Text) × (a.dismiss ≡ some reason)
      × (0 < length reason)
      × (length reason ≤ max_dismiss_chars))
    ⊎ ((a.dismiss ≡ none)
        × (key : Text) × (a.lesson ≡ some key)
        × (quote : Text) × (a.quote ≡ some quote)
        × IsSpanOf quote failure.text)

-- An assignment is of a failure of the request, and decides it.
pub record IsDecided (failing : Dict CurateActivity) (a : CurateAssignment) : Type 0 where
  pub failure : CurateActivity
  pub listed : get failing a.activity_id ≡ some failure
  pub decision : IsDecision failure a

module _ (u : Unicode) (laws : FoldLaws u) where
  dismissal-IsDecision :
      (failure : CurateActivity) (id : Text) (raw : Json) {a : CurateAssignment}
      → dismissal_of id raw ≡ ok a
      → (a.activity_id ≡ id) × IsDecision failure a
  unfolding dismissal_of
  dismissal-IsDecision failure id raw {a} h =
      let reason : Text = elim (as_str raw) [ none ↦ [] | some s ↦ strip is_space s ] in
      (
        ground arith,
        inl (ground arith, ground arith, reason, ground arith, ground arith, ground arith),
      )

  lesson-IsDecision :
      (failure : CurateActivity) (lesson_keys : List Text) (id : Text) (lesson_raw quote_raw : Json)
      {a : CurateAssignment}
      → lesson_assignment_of u lesson_keys id failure lesson_raw quote_raw ≡ ok a
      → (a.activity_id ≡ id) × IsDecision failure a
  unfolding lesson_assignment_of
  lesson-IsDecision failure lesson_keys id lesson_raw quote_raw {a} h =
      elim (Option-cases (topic_key_of u lesson_raw)) [
        | inl e ↦ absurd (ground arith)
        | inr (key, e) ↦ elim (Option-cases (as_str quote_raw)) [
          | inl s ↦ absurd (ground arith)
          | inr (raw, s) ↦ elim (Option-cases (repair_quote u failure.text raw)) [
            | inl g ↦ absurd (ground arith)
            | inr (quote, g) ↦ (
              ground arith,
              inr (
                ground arith,
                key,
                ground arith,
                quote,
                ground arith,
                (repair_quote-IsGrounded u laws failure.text raw g).span,
              ),
            )
          ]
        ]
      ]

  assignment_of-IsDecided :
      (failing : Dict CurateActivity) (other_ids lesson_keys assigned : List Text) (item : Json)
      {a : CurateAssignment}
      → assignment_of u failing other_ids lesson_keys assigned item ≡ ok a
      → IsDecided failing a
  unfolding assignment_of
  assignment_of-IsDecided failing other_ids lesson_keys assigned item {a} h =
      elim (Option-cases (as_obj item)) [
        | inl e ↦ absurd (ground arith)
        | inr (fs, e) ↦ elim (Option-cases (as_str (get_field (codes "activity_id") fs))) [
          | inl s ↦ absurd (ground arith)
          | inr (id, s) ↦ elim (Option-cases (get failing id)) [
            | inl g ↦ absurd (ground arith)
            | inr (failure, g) ↦ elim (Bool-cases (is_null (get_field (codes "dismiss") fs))) [
              | inl n ↦
                  let made : lesson_assignment_of u lesson_keys id failure
                        (get_field (codes "lesson") fs) (get_field (codes "quote") fs)
                      ≡ ok a =
                    ground arith in
                  let (same, decision) =
                    lesson-IsDecision failure lesson_keys id (get_field (codes "lesson") fs)
                      (get_field (codes "quote") fs) made in
                  record {
                    failure = failure;
                    listed = ap (get failing) same ∙ g;
                    decision = decision;
                  }
              | inr n ↦
                  let made : dismissal_of id (get_field (codes "dismiss") fs) ≡ ok a =
                    ground arith in
                  let (same, decision) =
                    dismissal-IsDecision failure id (get_field (codes "dismiss") fs) made in
                  record {
                    failure = failure;
                    listed = ap (get failing) same ∙ g;
                    decision = decision;
                  }
            ]
          ]
        ]
      ]

  abbrev pub AreDecided : Dict CurateActivity → CheckResult → Type 0
  AreDecided failing r = All (IsDecided failing) r.assignments

  pub assignment_step-AreDecided :
      (failing : Dict CurateActivity) (other_ids lesson_keys : List Text)
      (s : List Text × CheckResult) (item : Json)
      → AreDecided failing s.1
      → AreDecided failing (assignment_step u failing other_ids lesson_keys s item).1
  assignment_step-AreDecided failing other_ids lesson_keys (assigned, r) item h =
      go (assignment_of u failing other_ids lesson_keys assigned item) refl
    where
      go :
          (m : Checked CurateAssignment)
          → assignment_of u failing other_ids lesson_keys assigned item ≡ m
          → AreDecided failing
              (assignment_step u failing other_ids lesson_keys (assigned, r) item).1
      go (err v) e = unfold assignment_step in rw (e, assignment_step) h
      go (ok a) e =
          unfold assignment_step in
          rw (e, assignment_step)
            (All-append (IsDecided failing) r.assignments (a ∷ []) h
              (assignment_of-IsDecided failing other_ids lesson_keys assigned item e, tt))

  pub unaccounted_step-AreDecided :
      (failing : Dict CurateActivity) (assigned : List Text) (r : CheckResult)
      (e : Text × CurateActivity)
      → AreDecided failing r
      → AreDecided failing (unaccounted_step assigned r e)
  unfolding unaccounted_step
  unaccounted_step-AreDecided failing assigned r (id, activity) h =
      elim (Bool-cases (elem id assigned)) [
        | inl b ↦ rw (unaccounted_step, b) h
        | inr b ↦ rw (unaccounted_step, b) h
      ]
