-- ===== src/Curate/Check.antt =====
-- `check_reply` of src/memoryos_lite/curator/curate.py: the entries of one reply, each used or
-- answered by a violation. Each `_of` function checks one entry, each `_step` is a round of the loop.
use memry_os_lite.Prelude.{
  Text, codes, not, ◌||◌, ◌==◌, ltb, if◌then◌else◌, Option, none, some, List, [], ◌∷◌, ◌++◌, map,
  keep, each, length, Dict, get, put, keys, set_default, delete, elem, is_space, strip, bind,
}
use memry_os_lite.Unicode.{Unicode}
use memry_os_lite.Json.{Json, null, arr, items, get_field, as_str, as_obj, is_null}
use memry_os_lite.Grounding.{repair_quote}
use memry_os_lite.Curate.Model.{
  CurateActivity, CurateAssignment, CurateRequest, Violation, CheckResult, Checked, ok, err, ◌>>=◌,
  ◌>>◌, require, present, failures, activities, is_lesson, max_dismiss_chars, lessons_not_list,
  lesson_not_object, lesson_malformed, assignments_not_list, assignment_without_id, not_a_failure,
  not_an_activity, assigned_twice, lesson_or_dismiss, bad_dismissal, unknown_lesson, bad_quote,
  no_assignment, lesson_without_failure,
}
use memry_os_lite.Curate.TopicKey.{normalize_topic_key, statement_text}

abbrev pub violate : CheckResult → Violation → CheckResult
violate result v = record result { violations = result.violations ++ v ∷ [] }

-- `{a.id: a for a in xs}`
unfoldable pub by_id : List CurateActivity → Dict CurateActivity
unfolding put
by_id xs = each (λ d a. put d a.id a) [] xs

-- `_active_lesson_keys`
unfoldable pub active_lesson_keys : CurateRequest → List Text
active_lesson_keys request = map (λ m. m.topic_key) (keep (λ m. is_lesson m.kind) request.active)

-- The dismissal of a failure.
unfoldable pub dismissal_of : Text → Json → Checked CurateAssignment
dismissal_of activity_id dismiss_raw =
    let reason : Text = elim (as_str dismiss_raw) [ none ↦ [] | some s ↦ strip is_space s ] in
    if length reason == 0 || ltb max_dismiss_chars (length reason)
    then err (bad_dismissal activity_id)
    else ok
        (record { activity_id = activity_id; lesson = none; quote = none; dismiss = some reason })

-- The last loop of `_parse_assignments`.
unfoldable pub unaccounted_step : List Text → CheckResult → Text × CurateActivity → CheckResult
unaccounted_step assigned result (activity_id, activity) =
    if elem activity_id assigned then result else record result {
      unaccounted = result.unaccounted ++ activity_id ∷ [];
      violations = result.violations ++ no_assignment activity_id activity.type ∷ [];
    }

-- `raw` as the list to go over, and the violation that it is none.
abbrev pub assignment_entries : Json → CheckResult → List Json × CheckResult
assignment_entries null result = ([], result)
assignment_entries (arr entries) result = (items entries, result)
assignment_entries raw result = ([], violate result assignments_not_list)

module _ (u : Unicode) where
  -- `normalize_topic_key(x) if isinstance(x, str) else None`
  abbrev pub topic_key_of : Json → Option Text
  topic_key_of j = bind (as_str j) (normalize_topic_key u)

  -- `_statement`
  abbrev pub statement_of : Json → Option Text
  statement_of j = bind (as_str j) statement_text

  unfoldable pub lesson_of : Json → Checked (Text × Text)
  lesson_of item = do
    fs ← present (as_obj item) lesson_not_object
    let label = get_field (codes "topic_key") fs
    key ← present (topic_key_of label) (lesson_malformed label)
    statement ← present (statement_of (get_field (codes "statement") fs)) (lesson_malformed label)
    ok (key, statement)

  unfoldable pub lesson_step : CheckResult → Json → CheckResult
  unfolding lesson_of set_default
  lesson_step result item = elim (lesson_of item) [
    | err v ↦ violate result v
    | ok (key, statement) ↦ record result { lessons = set_default result.lessons key statement }
  ]

  unfoldable pub parse_lessons : Json → CheckResult → CheckResult
  unfolding lesson_step
  parse_lessons null result = result
  parse_lessons (arr entries) result = each lesson_step result (items entries)
  parse_lessons raw result = violate result lessons_not_list

  -- The assignment of the failure `activity` to a lesson.
  unfoldable pub lesson_assignment_of :
      List Text → Text → CurateActivity → Json → Json → Checked CurateAssignment
  lesson_assignment_of lesson_keys activity_id activity lesson_raw quote_raw = do
    key ← present (topic_key_of lesson_raw) (unknown_lesson activity_id lesson_raw)
    require (elem key lesson_keys) (unknown_lesson activity_id lesson_raw)
    grounded ←
        present (bind (as_str quote_raw) (repair_quote u activity.text)) (bad_quote activity_id)
    ok (record {
      activity_id = activity_id;
      lesson = some key;
      quote = some grounded;
      dismiss = none;
    })

  unfoldable pub assignment_of :
      Dict CurateActivity → List Text → List Text → List Text → Json → Checked CurateAssignment
  unfolding dismissal_of lesson_assignment_of
  assignment_of failing other_ids lesson_keys assigned item = do
    fs ← present (as_obj item) assignment_without_id
    activity_id ← present (as_str (get_field (codes "activity_id") fs)) assignment_without_id
    activity ← present (get failing activity_id) (
        if elem activity_id other_ids
        then not_a_failure activity_id
        else not_an_activity activity_id)
    require (not (elem activity_id assigned)) (assigned_twice activity_id)
    let lesson_raw = get_field (codes "lesson") fs
    let dismiss_raw = get_field (codes "dismiss") fs
    require (if is_null lesson_raw then not (is_null dismiss_raw) else is_null dismiss_raw)
        (lesson_or_dismiss activity_id)
    if is_null dismiss_raw
        then lesson_assignment_of lesson_keys activity_id activity lesson_raw
            (get_field (codes "quote") fs)
        else dismissal_of activity_id dismiss_raw

  -- The loop's state is the set `assigned` and the result.
  unfoldable pub assignment_step :
      Dict CurateActivity
      → List Text
      → List Text
      → List Text × CheckResult
      → Json
      → List Text × CheckResult
  assignment_step failing other_ids lesson_keys (assigned, result) item =
      elim (assignment_of failing other_ids lesson_keys assigned item) [
        | err v ↦ (assigned, violate result v)
        | ok a ↦ (
          assigned ++ a.activity_id ∷ [],
          record result { assignments = result.assignments ++ a ∷ [] },
        )
      ]

  unfoldable pub parse_assignments : Json → CurateRequest → CheckResult → CheckResult
  unfolding assignment_step unaccounted_step active_lesson_keys failures by_id
  parse_assignments raw request result =
      let failing = by_id (failures request) in
      let other_ids =
        keep (λ a. not (elem a (keys failing))) (map (λ a. a.id) (activities request)) in
      let lesson_keys = active_lesson_keys request ++ keys result.lessons in
      let (entries, result') = assignment_entries raw result in
      let (assigned, judged) =
        each (assignment_step failing other_ids lesson_keys) ([], result') entries in
      each (unaccounted_step assigned) judged failing

-- `{a.lesson for a in assignments if a.lesson is not None}`
abbrev pub assigned_keys : List CurateAssignment → List Text
assigned_keys [] = []
assigned_keys (a ∷ rest) = elim a.lesson [
  | none ↦ assigned_keys rest
  | some key ↦ key ∷ assigned_keys rest
]

unfoldable pub drop_step : List Text → CheckResult → Text → CheckResult
drop_step used result key = if elem key used then result else record result {
  lessons = delete result.lessons key;
  violations = result.violations ++ lesson_without_failure key ∷ [];
}

-- `_drop_lessons_without_failures`
unfoldable pub drop_lessons_without_failures : CheckResult → CheckResult
unfolding drop_step
drop_lessons_without_failures result =
    each (drop_step (assigned_keys result.assignments)) result (keys result.lessons)
