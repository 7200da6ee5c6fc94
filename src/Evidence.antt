-- ===== src/Evidence.antt =====
-- memoryos_eval/memory/source_evidence.py: the limits, the checks of items, and what both versions of
-- the envelope share. Canonical JSON, SHA-256, floats and the token estimator are parameters.
pub mod First
pub mod Selection
pub mod Shrinking
pub mod Accepted
pub mod Scored
pub mod Assembly
pub mod Prefix
pub mod Building
pub mod Passages
pub mod Second
use memry_os_lite.Prelude.{
  ℕ, zero, suc, ◌+◌, ◌≡◌, strip_prefix, Text, codes, Bool, true, false, not, ◌&&◌, ◌||◌, leb, ltb,
  if◌then◌else◌, Option, none, some, bind, List, [], ◌∷◌, ◌++◌, map, length, all, teq,
}
use memry_os_lite.Json.{
  Json, null, number, other_number, str, arr, boolean, obj, Items, item, nil, Fields, end, field,
  get_field, as_str,
}

abbrev pub default_max_items : ℕ
default_max_items = 8

abbrev pub default_max_tokens : ℕ
default_max_tokens = 800

abbrev pub default_max_bytes : ℕ
default_max_bytes = 65536

abbrev pub max_item_text_bytes : ℕ
max_item_text_bytes = 8192

abbrev pub max_total_text_bytes : ℕ
max_total_text_bytes = 32768

abbrev pub max_id_bytes : ℕ
max_id_bytes = 512

abbrev pub max_source_refs : ℕ
max_source_refs = 8

-- The parameters: `json.dumps` with the options of `_canonical_bytes`, the hexadecimal SHA-256 of a
-- text in UTF-8, `float` of a number where it is finite, and `TokenEstimator.count`.
pub record Canonical : Type 0 where
  pub dumps : Json → Text
  pub sha256_hex : Text → Text
  pub finite_float : Json → Option Json
  pub count_tokens : Text → ℕ

-- `len(s.encode("utf-8"))`
unfoldable pub utf8_length : Text → ℕ
utf8_length [] = 0
utf8_length (c ∷ s) =
    (if ltb c 128 then 1 else if ltb c 2048 then 2 else if ltb c 65536 then 3 else 4)
    + utf8_length s

abbrev pub is_hex : ℕ → Bool
is_hex c = (leb 48 c && leb c 57) || (leb 97 c && leb c 102)

-- What a SHA-256 in hexadecimal is.
pub record CanonicalLaws (k : Canonical) : Type 0 where
  pub hex_length : (t : Text) → length (k.sha256_hex t) ≡ 64
  pub hex_digits : (t : Text) → all is_hex (k.sha256_hex t) ≡ true

abbrev pub digest_of_text : Canonical → Text → Text
digest_of_text k text = codes "sha256:" ++ k.sha256_hex text

-- `_digest`
abbrev pub digest : Canonical → Json → Text
digest k value = digest_of_text k (k.dumps value)

-- `^sha256:[0-9a-f]{64}$`
unfoldable pub is_digest : Text → Bool
is_digest text = elim (strip_prefix (codes "sha256:") text) [
  | none ↦ false
  | some hex ↦ leb 64 (length hex) && leb (length hex) 64 && all is_hex hex
]

abbrev pub valid_id_text : Text → Bool
valid_id_text value = leb 1 (length value) && leb (utf8_length value) max_id_bytes

-- `_valid_id`
unfoldable pub valid_id : Json → Option Text
unfolding utf8_length
valid_id (str value) = if valid_id_text value then some value else none
valid_id _ = none

-- A `SourceRef`: its type by its value.
pub record SourceRef : Type 0 where
  pub source_type : Text
  pub source_id : Text
  pub session_id : Option Text

-- What is read of a `ContextLayerItem`.
pub record ContextLayerItem : Type 0 where
  pub layer : Text
  pub item_id : Text
  pub text : Text
  pub source_refs : List SourceRef
  pub metadata : Fields

-- What `package.metadata.get("v3_context")` is: no dictionary, one that `ContextPackageV3` refuses,
-- or a context with its items.
pub data V3Context : Type 0 where
  no_context invalid_context : V3Context
  context : List ContextLayerItem → V3Context

-- The `ValueError`s of the builders, and pydantic's.
pub data EvidenceError : Type 0 where
  bad_max_items bad_max_tokens bad_max_bytes : EvidenceError
  v3_context_missing v3_context_invalid empty_envelope_exceeds_byte_limit : EvidenceError
  validation_error byte_limit_exceeded : EvidenceError

pub data Built {ℓ} (A : Type ℓ) : Type ℓ where
  built : A → Built A
  refused : EvidenceError → Built A

infixl 5 ◌>>=◌ ◌>>◌
abbrev pub ◌>>=◌ {ℓ κ} : {A : Type ℓ} {B : Type κ} → Built A → (A → Built B) → Built B
built a >>= f = f a
refused e >>= f = refused e

abbrev pub ◌>>◌ {ℓ} : {B : Type ℓ} → Built (Unit {0}) → Built B → Built B
m >> k = m >>= λ _. k

-- `if not b: raise`
abbrev pub check : Bool → EvidenceError → Built (Unit {0})
check true e = built tt
check false e = refused e

abbrev pub within : ℕ → ℕ → Bool
within n limit = ltb 0 n && leb n limit

pub record Limits : Type 0 where
  pub max_items : ℕ
  pub max_tokens : ℕ
  pub max_bytes : ℕ

-- The guards of both builders.
unfoldable pub checked_items : Limits → V3Context → Built (List ContextLayerItem)
checked_items limits v3 = do
  check (within limits.max_items default_max_items) bad_max_items
  check (within limits.max_tokens default_max_tokens) bad_max_tokens
  check (within limits.max_bytes default_max_bytes) bad_max_bytes
  elim v3 [
    | no_context ↦ refused v3_context_missing
    | invalid_context ↦ refused v3_context_invalid
    | context items ↦ built items
  ]

-- The score of an item: a number that is finite as a float.
unfoldable pub finite_score : Canonical → Json → Option Json
finite_score k (number n) = k.finite_float (number n)
finite_score k (other_number s) = k.finite_float (other_number s)
finite_score k _ = none

-- Arrays and objects of JSON.
abbrev pub json_items : List Json → Items
json_items [] = nil
json_items (j ∷ js) = item j (json_items js)

abbrev pub json_list : List Json → Json
json_list js = arr (json_items js)

-- What the builders do with candidates of either version.
module _ {T : Type 0} (tokens_of : T → ℕ) (text_of : T → Text) (ranked : ℕ → T → T) where
  -- The first loop: the candidates, each made with its rank, and how many items were no candidate.
  unfoldable pub eligible_of :
      (ℕ → ContextLayerItem → Option T) → ℕ → List ContextLayerItem → List T × ℕ
  eligible_of candidate rank [] = ([], 0)
  eligible_of candidate rank (i ∷ is) = elim (candidate rank i) [
    | none ↦ let (eligible, omitted) = eligible_of candidate rank is in (eligible, omitted + 1)
    | some c ↦
        let (eligible, omitted) = eligible_of candidate (rank + 1) is in (c ∷ eligible, omitted)
  ]

  -- The loop that selects, behind `count` selected items: the items, and how many are left out.
  unfoldable pub select : Limits → ℕ → ℕ → ℕ → List T → List T × ℕ
  select limits count used_tokens used_text_bytes [] = ([], 0)
  select limits count used_tokens used_text_bytes (c ∷ cs) =
      let tokens = used_tokens + tokens_of c in
      let bytes = used_text_bytes + utf8_length (text_of c) in
      let (selected, omitted) = select limits (count + 1) tokens bytes cs in
      if leb limits.max_items count
        || ltb limits.max_tokens tokens
        || ltb max_total_text_bytes bytes
      then ([], length (c ∷ cs))
      else (c ∷ selected, omitted)

  -- `for rank, item in enumerate(selected, start=1): item["rank"] = rank`
  unfoldable pub rank_from : ℕ → List T → List T
  rank_from rank [] = []
  rank_from rank (c ∷ cs) = ranked rank c ∷ rank_from (rank + 1) cs

  unfoldable pub total_tokens : List T → ℕ
  total_tokens [] = 0
  total_tokens (c ∷ cs) = tokens_of c + total_tokens cs

  unfoldable pub total_text_bytes : List T → ℕ
  total_text_bytes [] = 0
  total_text_bytes (c ∷ cs) = utf8_length (text_of c) + total_text_bytes cs

-- `selected.pop()`
unfoldable pub pop {ℓ} : {A : Type ℓ} → List A → List A
pop [] = []
pop (x ∷ []) = []
pop (x ∷ y ∷ xs) = x ∷ pop (y ∷ xs)

-- An envelope over items of either version.
pub record Envelope (T : Type 0) : Type 0 where
  pub items : List T
  pub omitted_count : ℕ
  pub estimated_tokens : ℕ
  pub truncated : Bool
  pub diagnostics_digest : Text

-- The loop that shrinks: `payload` makes the envelope, `size` is the length of its canonical bytes,
-- and `valid` what its model accepts. The fuel is one more than the items; `none` is that it ran out.
module _ {T : Type 0} (rerank : List T → List T) (payload : List T → ℕ → Envelope T)
    (size : Envelope T → ℕ) (valid : Envelope T → Bool) where
  unfoldable pub shrink : ℕ → ℕ → List T → ℕ → Option (Built (Envelope T))
  shrink zero max_bytes selected omitted_count = none
  shrink (suc fuel) max_bytes selected omitted_count =
      let envelope = payload (rerank selected) omitted_count in
      let smaller = shrink fuel max_bytes (pop (rerank selected)) (omitted_count + 1) in
      if leb (size envelope) max_bytes
      then some (if valid envelope then built envelope else refused validation_error)
      else elim selected [
        | [] ↦ some (refused empty_envelope_exceeds_byte_limit)
        | c ∷ cs ↦ smaller
      ]
