-- ===== src/Curate/Sourced.antt =====
-- The sources of the memories that `check_reply` accepts.
pub mod Reply
use memry_os_lite.Prelude.{
  ℕ, ◌+◌, ◌≤◌, ◌<◌, ◌≡◌, ◌⊎◌, refl, sym, ap, ◌∙◌, arith, Text, codes, Bool, true, false, not, ◌&&◌,
  ◌||◌, ◌==◌, ltb, leb, if◌then◌else◌, Bool-cases, Option-cases, inl, inr, Option, none, some, bind,
  List, [], ◌∷◌, ◌++◌, map, keep, each, each_inv, any, All, All-append, length, length-append, Dict,
  get, keys, elem, IsSpanOf, teq,
}
use memry_os_lite.Unicode.{Unicode, FoldLaws}
use memry_os_lite.Json.{Json, arr, null, Fields, items, get_field, as_obj, as_str, as_arr, is_null}
use memry_os_lite.Grounding.{repair_quote}
use memry_os_lite.Grounding.Spans.{repair_quote-IsGrounded}
use memry_os_lite.Curate.Model.{
  CurateRequest, CurateActivity, CurateSource, CheckResult, Checked, ok, err, activities,
  max_sources, MemoryProposal, ConflictProposal, Ref, is_collab, empty_result, profile_memory_kinds,
  is_lesson,
}
use memry_os_lite.Curate.Check.{by_id, topic_key_of, statement_of}
use memry_os_lite.Curate.Proposals.{
  memory_of, memory_step, parse_memories, source_of, ground_loop, ground_sources, grounded_or,
  same_source, sized, find_kind, resolves_of, newest_seq,
}

-- The quote of a source is a verbatim span of the text of the activity that it names.
abbrev pub IsSource : Dict CurateActivity → CurateSource → Type 0
IsSource acts s =
    (key : Text) × (activity : CurateActivity) × (get acts key ≡ some activity)
    × (s.activity_id ≡ activity.id)
    × IsSpanOf s.quote activity.text

-- A memory has 1 to `max_sources` sources.
pub record IsSourced (acts : Dict CurateActivity) (p : MemoryProposal) : Type 0 where
  pub verbatim : All (IsSource acts) p.sources
  pub some_source : 1 ≤ length p.sources
  pub at_most : length p.sources ≤ max_sources

module _ (u : Unicode) (laws : FoldLaws u) (acts : Dict CurateActivity) where
  source_of-IsSource :
      (raw : Json) {s : CurateSource} → source_of u acts raw ≡ some s → IsSource acts s
  unfolding source_of
  source_of-IsSource raw {s} h = elim (Option-cases (as_obj raw)) [
    | inl e ↦ absurd (ground arith)
    | inr (fs, e) ↦ elim (Option-cases (as_str (get_field (codes "activity_id") fs))) [
      | inl i ↦ absurd (ground arith)
      | inr (id, i) ↦ elim (Option-cases (get acts id)) [
        | inl g ↦ absurd (ground arith)
        | inr (activity, g) ↦ elim (Option-cases (as_str (get_field (codes "quote") fs))) [
          | inl q ↦ absurd (ground arith)
          | inr (quote, q) ↦ elim (Option-cases (repair_quote u activity.text quote)) [
            | inl r ↦ absurd (ground arith)
            | inr (grounded, r) ↦
                let made : some s ≡ some (record { activity_id = activity.id; quote = grounded }) =
                  ground arith in
                let same : s.quote ≡ grounded = ground arith in
                (
                  id,
                  activity,
                  g,
                  ground arith,
                  rw same (repair_quote-IsGrounded u laws activity.text quote r).span,
                )
          ]
        ]
      ]
    ]
  ]

  ground_loop-IsSource :
      (sources : List CurateSource) (raw : List Json) {out : List CurateSource}
      → ground_loop u acts sources raw ≡ (out, none)
      → All (IsSource acts) sources
      → All (IsSource acts) out
        × (length sources ≤ length out)
        × (length out ≤ length sources + length raw)
  unfolding ground_loop
  ground_loop-IsSource sources [] {out} h a =
      let same : sources ≡ out = ground arith in rw (← same) (a, omega arith, omega arith)
  ground_loop-IsSource sources (r ∷ raw) {out} h a = elim (Option-cases (source_of u acts r)) [
    | inl e ↦ absurd (ground arith)
    | inr (s, e) ↦ elim (Bool-cases (any (same_source s) sources)) [
      | inl b ↦
          let next : ground_loop u acts sources raw ≡ (out, none) = ground arith in
          let (all, least, most) = ground_loop-IsSource sources raw next a in
          (all, least, omega arith)
      | inr b ↦
          let next : ground_loop u acts (sources ++ s ∷ []) raw ≡ (out, none) = ground arith in
          let (all, least, most) =
            ground_loop-IsSource (sources ++ s ∷ []) raw next
              (All-append (IsSource acts) sources (s ∷ []) a (source_of-IsSource r e, tt)) in
          let more = length-append sources (s ∷ []) in (all, omega arith, omega arith)
    ]
  ]

  -- The first source is always kept.
  ground_sources-IsSource :
      (raw : List Json) {out : List CurateSource}
      → 1 ≤ length raw
      → ground_sources u raw acts ≡ (out, none)
      → All (IsSource acts) out × (1 ≤ length out) × (length out ≤ length raw)
  unfolding ground_sources ground_loop
  ground_sources-IsSource [] some_raw h = absurd (omega arith)
  ground_sources-IsSource (r ∷ raw) {out} some_raw h = elim (Option-cases (source_of u acts r)) [
    | inl e ↦ absurd (ground arith)
    | inr (s, e) ↦
        let next : ground_loop u acts (s ∷ []) raw ≡ (out, none) = ground arith in
        let (all, least, most) =
          ground_loop-IsSource (s ∷ []) raw next (source_of-IsSource r e, tt) in
        (all, least, omega arith)
  ]

module _ (u : Unicode) (laws : FoldLaws u) (request : CurateRequest) where
  sized-bounds :
      (raw : Json) {sources : List Json}
      → sized 1 raw ≡ some sources
      → (1 ≤ length sources) × (length sources ≤ max_sources)
  sized-bounds raw {sources} h = elim (Option-cases (as_arr raw)) [
    | inl e ↦ absurd (ground arith)
    | inr (js, e) ↦ ground arith
  ]

  pub memory_of-IsSourced :
      (item : Json) {p : MemoryProposal}
      → memory_of u request item ≡ ok p
      → IsSourced (by_id (activities request)) p
  unfolding memory_of grounded_or
  memory_of-IsSourced item {p} h = elim (Option-cases (as_obj item)) [
    | inl e ↦ absurd (ground arith)
    | inr (fs, e) ↦ elim (Option-cases (sized 1 (get_field (codes "sources") fs))) [
      | inl s ↦ absurd (ground arith)
      | inr (raw, s) ↦
          let made : ground_sources u raw (by_id (activities request)) ≡ (p.sources, none) =
            ground arith in
          let (least, most) = sized-bounds (get_field (codes "sources") fs) s in
          let (all, some_out, few) =
            ground_sources-IsSource u laws (by_id (activities request)) raw least made in
          record { verbatim = all; some_source = some_out; at_most = omega arith }
    ]
  ]
