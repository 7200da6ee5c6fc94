-- ===== src/Curate/Consolidate.antt =====
-- `memory_id`, `_newest`, `_versioned`, `_conflicts` and `consolidate` of
-- src/memoryos_lite/curator/curate.py: new memory versions from a checked reply.
use memry_os_lite.Prelude.{
  ℕ, ◌+◌, max, Text, codes, Bool, true, false, not, ◌&&◌, ◌||◌, ◌==◌, leb, ltb, if◌then◌else◌,
  Option, none, some, or_else, List, [], ◌∷◌, ◌++◌, map, keep, all, bind, each, length, take,
  take_last, Dict, get, put, elem, teq, text_le,
}
use memry_os_lite.Unicode.{Unicode}
use memry_os_lite.Json.{Json, number, str, arr, Items, nil, item}
use memry_os_lite.Grounding.{normalize_text}
use memry_os_lite.Curate.Model.{
  CurateSource, CurateMemory, CurateMemoryVersion, CurateRequest, MemoryProposal, lesson, kind_name,
  is_lesson, is_collab, max_lesson_sources,
}

-- `json.dumps(..., ensure_ascii=False, separators=(",", ":"))` and `sha256(...).hexdigest()`.
pub record Hashing : Type 0 where
  pub dumps : Json → Text
  pub sha256_hex : Text → Text

abbrev pub array : List Json → Items
array [] = nil
array (j ∷ js) = item j (array js)

abbrev pub list_json : List Json → Json
list_json js = arr (array js)

abbrev pub source_json : CurateSource → Json
source_json s = list_json (str s.activity_id ∷ str s.quote ∷ [])

-- The list that `memory_id` serializes.
unfoldable pub id_fields : Text → CurateMemory → List Text → Json
id_fields scope_id m resolves = list_json (
    (str scope_id
      ∷ str (kind_name m.kind)
      ∷ str m.topic_key
      ∷ number m.version
      ∷ number m.occurrences
      ∷ str m.statement
      ∷ list_json (map source_json m.sources)
      ∷ [])
    ++ (if length resolves == 0 then [] else list_json (map str resolves) ∷ []))

-- `encode("utf-8")` raises `UnicodeEncodeError` for a surrogate, which `json.loads` can give.
abbrev pub is_surrogate : ℕ → Bool
is_surrogate c = leb 55296 c && leb c 57343

unfoldable pub is_encodable : Text → Bool
is_encodable t = all (λ c. not (is_surrogate c)) t

-- `none` is the `UnicodeEncodeError`
unfoldable pub memory_id : Hashing → Text → CurateMemory → List Text → Option Text
unfolding id_fields
memory_id h scope_id m resolves =
    let canonical = h.dumps (id_fields scope_id m resolves) in
    if is_encodable canonical then some (codes "mem_" ++ take 32 (h.sha256_hex canonical)) else none

abbrev pub source_is_encodable : CurateSource → Bool
source_is_encodable s = is_encodable s.activity_id && is_encodable s.quote

-- The texts of a memory are those that `CurateMemory` accepts as `str`.
unfoldable pub memory_is_encodable : CurateMemory → Bool
memory_is_encodable m =
    is_encodable m.topic_key && is_encodable m.statement && all source_is_encodable m.sources

-- `(m.version, m.id) <= (n.version, n.id)`
abbrev pub not_newer : CurateMemory → CurateMemory → Bool
not_newer m n = ltb m.version n.version || (m.version == n.version && text_le m.id n.id)

-- `_newest`: the first of the greatest
unfoldable pub newest : List CurateMemory → Option CurateMemory
newest [] = none
newest (m ∷ ms) = some (each (λ best n. if not_newer n best then best else n) m ms)

-- `active_lessons.get(key, [])` for `lessons`, and `active_other.get(key, [])`
unfoldable pub bucket : Bool → CurateRequest → Text → List CurateMemory
bucket lessons request key =
    keep
      (λ m. (if lessons then is_lesson m.kind else not (is_lesson m.kind)) && teq key m.topic_key)
      request.active

-- `d.setdefault(key, []).append(x)`
abbrev pub push {ℓ} : {A : Type ℓ} → Dict (List A) → Text → A → Dict (List A)
push d key x = put d key (or_else (get d key) [] ++ x ∷ [])

pub record Occurrence : Type 0 where
  pub sources : List CurateSource
  pub version : ℕ
  pub proposed : Bool

-- What the inner loop over the occurrences of a key changes.
pub record Merge : Type 0 where
  pub cited : List Text
  pub sources : List CurateSource
  pub version : ℕ
  pub added : ℕ
  pub noops : ℕ

unfoldable pub merge_step : Merge → Occurrence → Merge
merge_step m o =
    let fresh = keep (λ s. not (elem s.activity_id m.cited)) o.sources in
    if length fresh == 0
    then record m { noops = m.noops + (if o.proposed then 1 else 0) }
    else record m {
      cited = m.cited ++ map (λ s. s.activity_id) fresh;
      sources = m.sources ++ fresh;
      version = max m.version o.version;
      added = m.added + 1;
    }

unfoldable pub start_merge : Option CurateMemory → Merge
start_merge none = record { cited = []; sources = []; version = 0; added = 0; noops = 0 }
start_merge (some prior) = record {
  cited = map (λ s. s.activity_id) prior.sources;
  sources = prior.sources;
  version = prior.version;
  added = 0;
  noops = 0;
}

-- `statements.get(key) or (prior.statement if prior is not None else None)`
unfoldable pub statement_for : Dict Text → Text → Option CurateMemory → Option Text
statement_for statements key prior = elim (get statements key) [
  | none ↦ elim prior [ none ↦ none | some p ↦ some p.statement ]
  | some s ↦
      if length s == 0 then elim prior [ none ↦ none | some p ↦ some p.statement ] else some s
]

-- The new versions, and the counters of the diagnostics.
pub record Output : Type 0 where
  pub out : List CurateMemoryVersion
  pub noops : ℕ
  pub stale : ℕ

module _ (h : Hashing) (u : Unicode) (request : CurateRequest) where
  abbrev pub version_of :
      Option CurateMemory → List Text → CurateMemory → Text → CurateMemoryVersion
  version_of prior resolves draft id = record {
    memory = record draft { id = id };
    supersedes_id = elim prior [ none ↦ none | some p ↦ some p.id ];
    resolves_ids = if is_collab request.profile then some resolves else none;
  }

  -- `_versioned`; the id of `draft` is replaced, and `none` is the `ValidationError` of the draft or
  -- the `UnicodeEncodeError` of its id
  unfoldable pub versioned :
      Option CurateMemory → List Text → CurateMemory → Option CurateMemoryVersion
  versioned prior resolves draft =
      let made = memory_id h request.scope_id draft resolves in
      if memory_is_encodable draft
      then bind made (λ id. some (version_of prior resolves draft id))
      else none

  abbrev pub lesson_draft : Option CurateMemory → Text → Text → Merge → CurateMemory
  lesson_draft prior key statement m = record {
    id = codes "pending";
    kind = lesson;
    topic_key = key;
    statement = statement;
    version = m.version;
    occurrences = (elim prior [ none ↦ 0 | some p ↦ p.occurrences ]) + m.added;
    sources = take_last max_lesson_sources m.sources;
  }

  unfoldable pub lesson_version :
      Option CurateMemory → Text → Text → Merge → Option CurateMemoryVersion
  unfolding versioned
  lesson_version prior key statement m = versioned prior [] (lesson_draft prior key statement m)

  -- A round of the loop over `occurrences_by_key`; `none` is an exception.
  unfoldable pub lesson_round : Dict Text → Output → Text × List Occurrence → Option Output
  unfolding lesson_version merge_step start_merge statement_for newest bucket
  lesson_round statements o (key, occurrences) =
      let prior = newest (bucket true request key) in
      let m = each merge_step (start_merge prior) occurrences in
      let counted = record o { noops = o.noops + m.noops } in
      if m.added == 0 then some counted else elim (statement_for statements key prior) [
        | none ↦ some counted
        | some statement ↦
            bind (lesson_version prior key statement m)
              (λ v. some (record counted { out = o.out ++ v ∷ [] }))
      ]

  -- `winners`, with the noops that it counts
  unfoldable pub winner_step : Dict MemoryProposal × ℕ → MemoryProposal → Dict MemoryProposal × ℕ
  winner_step (winners, noops) p =
      if is_lesson p.kind then (winners, noops) else elim (get winners p.topic_key) [
        | none ↦ (put winners p.topic_key p, noops)
        | some current ↦ (
          if leb current.version p.version then put winners p.topic_key p else winners,
          noops + 1,
        )
      ]

  abbrev pub proposal_draft : Text → MemoryProposal → CurateMemory
  proposal_draft key p = record {
    id = codes "pending";
    kind = p.kind;
    topic_key = key;
    statement = p.statement;
    version = p.version;
    occurrences = 1;
    sources = p.sources;
  }

  unfoldable pub proposal_version :
      Option CurateMemory → Text → MemoryProposal → Option CurateMemoryVersion
  unfolding versioned
  proposal_version prior key p = versioned prior p.resolves (proposal_draft key p)

  -- The active statements in their normal form, in the collab profile.
  pub declared : List Text
  declared =
      if is_collab request.profile
      then map (λ m. normalize_text u m.statement) request.active
      else []

  abbrev restates : Option CurateMemory → MemoryProposal → Bool
  restates none p = false
  restates (some prior) p = teq (normalize_text u prior.statement) (normalize_text u p.statement)

  abbrev is_stale : Option CurateMemory → MemoryProposal → Bool
  is_stale none p = false
  is_stale (some prior) p = ltb p.version prior.version

  -- A round of the loop over `winners`; `none` is an exception.
  unfoldable pub proposal_round : Output → Text × MemoryProposal → Option Output
  unfolding proposal_version declared newest bucket
  proposal_round o (key, p) =
      let prior = newest (bucket false request key) in
      if restates prior p || elem (normalize_text u p.statement) declared
      then some (record o { noops = o.noops + 1 })
      else if is_stale prior p
      then some (record o { stale = o.stale + 1 })
      else bind (proposal_version prior key p) (λ v. some (record o { out = o.out ++ v ∷ [] }))
