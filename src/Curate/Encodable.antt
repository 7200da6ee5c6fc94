-- ===== src/Curate/Encodable.antt =====
-- Texts without surrogates: with them, `consolidate` of src/memoryos_lite/curator/curate.py raises
-- nothing.
use memry_os_lite.Prelude.{
  ℕ, zero, suc, ◌≡◌, refl, arith, Text, Bool, true, false, ◌&&◌, Bool-cases, inl, inr, or_else,
  List, [], ◌∷◌, keep, all, drop, All, Dict, get, put, teq,
}
use memry_os_lite.Json.{Json, Items, Fields, other_number, str, arr, obj, nil, item, end, field}
use memry_os_lite.Curate.Model.{CurateRequest, CurateAssignment, CheckResult, MemoryProposal}
use memry_os_lite.Curate.Consolidate.{
  Hashing, is_encodable, source_is_encodable, memory_is_encodable,
}
use memry_os_lite.Curate.Raising.{Returns}

unfoldable mutual
  pub json_is_encodable : Json → Bool
  json_is_encodable (str s) = is_encodable s
  json_is_encodable (other_number s) = is_encodable s
  json_is_encodable (arr js) = items_are_encodable js
  json_is_encodable (obj fs) = fields_are_encodable fs
  json_is_encodable _ = true

  pub items_are_encodable : Items → Bool
  items_are_encodable nil = true
  items_are_encodable (item j js) = json_is_encodable j && items_are_encodable js

  pub fields_are_encodable : Fields → Bool
  fields_are_encodable end = true
  fields_are_encodable (field k v fs) =
      is_encodable k && json_is_encodable v && fields_are_encodable fs

-- `json.dumps(..., ensure_ascii=False)` writes no surrogate that it was not given.
pub record HashingLaws (h : Hashing) : Type 0 where
  pub dumps-encodable : (j : Json) → json_is_encodable j ≡ true → is_encodable (h.dumps j) ≡ true

abbrev pub assignment_is_encodable : CurateAssignment → Bool
assignment_is_encodable a =
    is_encodable a.activity_id
    && is_encodable (or_else a.lesson [])
    && is_encodable (or_else a.quote [])
    && is_encodable (or_else a.dismiss [])

abbrev pub proposal_is_encodable : MemoryProposal → Bool
proposal_is_encodable p =
    is_encodable p.topic_key
    && is_encodable p.statement
    && all source_is_encodable p.sources
    && all is_encodable p.resolves

-- The texts of a request and of a checked reply.
unfoldable pub is_encodable_check : CurateRequest → CheckResult → Bool
is_encodable_check request check =
    is_encodable request.scope_id
    && all memory_is_encodable request.active
    && all assignment_is_encodable check.assignments
    && all (λ e. is_encodable e.0 && is_encodable e.1) check.lessons
    && all proposal_is_encodable check.memories
    && all (λ c. is_encodable c.reason && all source_is_encodable c.sources) check.conflicts

pub and_true : (a b : Bool) → (a && b) ≡ true → (a ≡ true) × (b ≡ true)
and_true true b e = (refl, e)
and_true false b e = absurd (ground (arith, e))

pub all-All {ℓ} :
    {A : Type ℓ} (p : A → Bool) (xs : List A) → all p xs ≡ true → All (λ x. p x ≡ true) xs
all-All p [] e = tt
all-All p (x ∷ xs) e = let (a, b) = and_true (p x) (all p xs) e in (a, all-All p xs b)

pub All-all {ℓ} :
    {A : Type ℓ} (p : A → Bool) (xs : List A) → All (λ x. p x ≡ true) xs → all p xs ≡ true
All-all p [] a = refl
All-all p (x ∷ xs) a = rw a.0 (All-all p xs a.1)

pub All-keep {ℓ κ} :
    {A : Type ℓ} (P : A → Type κ) (p : A → Bool) (xs : List A) → All P xs → All P (keep p xs)
All-keep P p [] a = tt
All-keep P p (x ∷ xs) a = elim (Bool-cases (p x)) [
  | inl e ↦ rw (keep, e) (a.0, All-keep P p xs a.1)
  | inr e ↦ rw (keep, e) (All-keep P p xs a.1)
]

pub All-drop {ℓ κ} :
    {A : Type ℓ} (P : A → Type κ) (n : ℕ) (xs : List A) → All P xs → All P (drop n xs)
All-drop P zero xs a = a
All-drop P (suc n) [] a = tt
All-drop P (suc n) (x ∷ xs) a = All-drop P n xs a.1

pub All-put {ℓ κ} :
    {V : Type ℓ} (P : Text × V → Type κ) (d : Dict V) (k : Text) (v : V)
    → P (k, v)
    → All P d
    → All P (put d k v)
unfolding put
All-put P [] k v p a = (p, tt)
All-put P ((j, w) ∷ d) k v p a = elim (Bool-cases (teq k j)) [
  | inl e ↦ rw (e, put) (p, a.1)
  | inr e ↦ rw (e, put) (a.0, All-put P d k v p a.1)
]

pub get-Returns {ℓ κ} :
    {V : Type ℓ} (P : Text × V → Type κ) (Q : V → Type κ)
    → ((e : Text × V) → P e → Q e.1)
    → (d : Dict V) (k : Text) → All P d
    → Returns Q (get d k)
unfolding get
get-Returns P Q h [] k a = tt
get-Returns P Q h ((j, w) ∷ d) k a = elim (Bool-cases (teq k j)) [
  | inl e ↦ rw (e, get) (h (j, w) a.0)
  | inr e ↦ rw (e, get) (get-Returns P Q h d k a.1)
]
