-- ===== src/Curate/Texts.antt =====
-- The texts of what src/memoryos_lite/curator/curate.py merges into an outcome, and their encoding.
use memry_os_lite.Prelude.{
  ◌≡◌, refl, Text, true, ◌&&◌, ◌==◌, Bool-cases, Option-cases, inl, inr, Option, none, some,
  or_else, List, [], ◌∷◌, map, keep, all, length, All, All-append, Dict, get, elem, not,
}
use memry_os_lite.Json.{str}
use memry_os_lite.Curate.Model.{
  CurateSource, CurateMemory, CurateAssignment, MemoryProposal, kind_name, MemoryKind, lesson,
  decision, fact, rule, preference, convention, assumption, question,
}
use memry_os_lite.Curate.Consolidate.{
  Occurrence, Merge, is_encodable, source_is_encodable, memory_is_encodable, id_fields, array,
  source_json, merge_step, start_merge, statement_for, push,
}
use memry_os_lite.Curate.Raising.{Returns}
use memry_os_lite.Curate.Encodable.{
  json_is_encodable, items_are_encodable, assignment_is_encodable, proposal_is_encodable, and_true,
  all-All, All-all, All-keep, All-put, get-Returns,
}

abbrev pub IsEncodable : Text → Type 0
IsEncodable t = is_encodable t ≡ true

abbrev pub IsSource : CurateSource → Type 0
IsSource s = source_is_encodable s ≡ true

abbrev pub OccurrenceOk : Occurrence → Type 0
OccurrenceOk o = All IsSource o.sources

abbrev pub EntryOk : Text × List Occurrence → Type 0
EntryOk e = IsEncodable e.0 × All OccurrenceOk e.1

abbrev pub StatementOk : Text × Text → Type 0
StatementOk e = IsEncodable e.0 × IsEncodable e.1

abbrev pub MemoryOk : CurateMemory → Type 0
MemoryOk m = memory_is_encodable m ≡ true

abbrev pub ProposalOk : MemoryProposal → Type 0
ProposalOk p =
    IsEncodable p.topic_key
    × IsEncodable p.statement
    × All IsSource p.sources
    × All IsEncodable p.resolves

ProposalOk-of : (p : MemoryProposal) → proposal_is_encodable p ≡ true → ProposalOk p
ProposalOk-of p e =
    let (r, d) = and_true _ _ e in
    let (r, c) = and_true _ _ r in
    let (a, b) = and_true _ _ r in (a, b, all-All _ p.sources c, all-All _ p.resolves d)

pub All-ProposalOk :
    (ps : List MemoryProposal) → all proposal_is_encodable ps ≡ true → All ProposalOk ps
All-ProposalOk [] e = tt
All-ProposalOk (p ∷ ps) e =
    let (a, b) = and_true (proposal_is_encodable p) (all proposal_is_encodable ps) e in
    (ProposalOk-of p a, All-ProposalOk ps b)

pub All-StatementOk :
    (d : Dict Text) → all (λ e. is_encodable e.0 && is_encodable e.1) d ≡ true → All StatementOk d
All-StatementOk [] e = tt
All-StatementOk ((k, v) ∷ d) e =
    let (a, b) =
      and_true (is_encodable k && is_encodable v)
        (all (λ e. is_encodable e.0 && is_encodable e.1) d) e in
    (and_true (is_encodable k) (is_encodable v) a, All-StatementOk d b)

pub dismissals :
    (xs : List CurateAssignment)
    → all assignment_is_encodable xs ≡ true
    → all (λ a. is_encodable (or_else a.dismiss [])) xs ≡ true
dismissals [] e = refl
dismissals (a ∷ xs) e =
    let (x, y) = and_true (assignment_is_encodable a) (all assignment_is_encodable xs) e in
    let (_, d) = and_true _ (is_encodable (or_else a.dismiss [])) x in rw d (dismissals xs y)

memory_parts :
    (m : CurateMemory)
    → MemoryOk m
    → IsEncodable m.topic_key × IsEncodable m.statement × All IsSource m.sources
unfolding memory_is_encodable
memory_parts m e =
    let (r, c) = and_true _ _ e in let (a, b) = and_true _ _ r in (a, b, all-All _ m.sources c)

pub memory_whole :
    (m : CurateMemory)
    → IsEncodable m.topic_key
    → IsEncodable m.statement
    → All IsSource m.sources
    → MemoryOk m
unfolding memory_is_encodable
memory_whole m a b c = rw (a, b, All-all source_is_encodable m.sources c) refl

or_else-Returns :
    (o : Option (List Occurrence)) → Returns (All OccurrenceOk) o → All OccurrenceOk (or_else o [])
or_else-Returns none a = tt
or_else-Returns (some os) a = a

pub push-EntryOk :
    (d : Dict (List Occurrence)) (k : Text) (o : Occurrence)
    → All EntryOk d
    → IsEncodable k
    → OccurrenceOk o
    → All EntryOk (push d k o)
push-EntryOk d k o a e p =
    All-put EntryOk d k _
      (
        e,
        All-append OccurrenceOk (or_else (get d k) []) (o ∷ [])
            (or_else-Returns (get d k) (get-Returns EntryOk (All OccurrenceOk) (λ e q. q.1) d k a))
            (p, tt),
      )
      a

strings-encodable :
    (ts : List Text) → All IsEncodable ts → items_are_encodable (array (map str ts)) ≡ true
unfolding items_are_encodable json_is_encodable
strings-encodable [] a = refl
strings-encodable (t ∷ ts) a = rw (a.0) (strings-encodable ts a.1)

sources-encodable :
    (ss : List CurateSource)
    → All IsSource ss
    → items_are_encodable (array (map source_json ss)) ≡ true
unfolding items_are_encodable json_is_encodable
sources-encodable [] a = refl
sources-encodable (s ∷ ss) a =
    let (i, q) = and_true (is_encodable s.activity_id) (is_encodable s.quote) a.0 in
    rw (i, q) (sources-encodable ss a.1)

kind_name-encodable : (k : MemoryKind) → is_encodable (kind_name k) ≡ true
unfolding is_encodable
kind_name-encodable lesson = refl
kind_name-encodable decision = refl
kind_name-encodable fact = refl
kind_name-encodable rule = refl
kind_name-encodable preference = refl
kind_name-encodable convention = refl
kind_name-encodable assumption = refl
kind_name-encodable question = refl

pub id_fields-encodable :
    (scope_id : Text) (m : CurateMemory) (resolves : List Text)
    → IsEncodable scope_id
    → MemoryOk m
    → All IsEncodable resolves
    → json_is_encodable (id_fields scope_id m resolves) ≡ true
unfolding id_fields json_is_encodable items_are_encodable
id_fields-encodable scope_id m resolves e ok r =
    let (t, st, so) = memory_parts m ok in
    elim (Bool-cases (length resolves == 0)) [
      | inl z ↦
          rw (z, id_fields, e, t, st, kind_name-encodable m.kind, sources-encodable m.sources so)
            refl
      | inr z ↦
          rw
            (
              z,
              id_fields,
              e,
              t,
              st,
              kind_name-encodable m.kind,
              sources-encodable m.sources so,
              strings-encodable resolves r,
            )
            refl
    ]

pub merge_step-ok :
    (m : Merge) (o : Occurrence)
    → OccurrenceOk o
    → All IsSource m.sources
    → All IsSource (merge_step m o).sources
unfolding merge_step
merge_step-ok m o k a =
    let fresh = All-keep IsSource (λ s. not (elem s.activity_id m.cited)) o.sources k in
    elim (Bool-cases (length (keep (λ s. not (elem s.activity_id m.cited)) o.sources) == 0)) [
      | inl e ↦ rw (e, merge_step) a
      | inr e ↦ rw (e, merge_step) (All-append IsSource m.sources _ a fresh)
    ]

pub start_merge-ok :
    (prior : Option CurateMemory)
    → Returns MemoryOk prior
    → All IsSource (start_merge prior).sources
unfolding start_merge
start_merge-ok none a = tt
start_merge-ok (some p) a = (memory_parts p a).2

pub told :
    (prior : Option CurateMemory)
    → Returns MemoryOk prior
    → Returns IsEncodable
        (elim prior as (λ _. Option Text) [ none ↦ none | some p ↦ some p.statement ])
told none m = tt
told (some p) m = (memory_parts p m).1

pub statement_for-ok :
    (statements : Dict Text) (key : Text) (prior : Option CurateMemory)
    → All StatementOk statements
    → Returns MemoryOk prior
    → Returns IsEncodable (statement_for statements key prior)
unfolding statement_for
statement_for-ok statements key prior a m =
    let found = get-Returns StatementOk IsEncodable (λ e p. p.1) statements key a in
    elim (Option-cases (get statements key)) [
      | inl e ↦ rw (e, statement_for) (told prior m)
      | inr (s, e) ↦ elim (Bool-cases (length s == 0)) [
        | inl z ↦ rw (e, statement_for, z) (told prior m)
        | inr z ↦ rw (e, statement_for, z) (rw e at found)
      ]
    ]
