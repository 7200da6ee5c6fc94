-- ===== src/Curate/Raising.antt =====
-- What `consolidate` may raise, and what is known of what it returns otherwise.
use memry_os_lite.Prelude.{
  Text, Bool-cases, Option-cases, inl, inr, Option, none, some, bind, List, [], ◌∷◌, ◌++◌, All,
  All-append,
}
use memry_os_lite.Unicode.{Unicode}
use memry_os_lite.Curate.Model.{CurateMemory, CurateMemoryVersion, CurateRequest}
use memry_os_lite.Curate.Consolidate.{
  Hashing, Output, memory_id, memory_is_encodable, versioned, version_of,
}
use memry_os_lite.Curate.Response.{each_or_raise}

-- What is returned has a property, if anything is.
abbrev pub Returns {ℓ κ} : {A : Type ℓ} → (A → Type κ) → Option A → Type κ
Returns P none = Unit
Returns P (some a) = P a

pub All-Unit {ℓ} : {A : Type ℓ} (xs : List A) → All (λ _. Unit {0}) xs
All-Unit [] = tt
All-Unit (x ∷ xs) = (tt, All-Unit xs)

pub each_or_raise-Returns {ℓ κ ι} :
    {A : Type ℓ} {S : Type κ} (Q : A → Type ι) (P : S → Type 0) (step : S → A → Option S)
    → ((s : S) (x : A) → Q x → P s → Returns P (step s x))
    → (s : S) (xs : List A) → All Q xs
    → P s
    → Returns P (each_or_raise step s xs)
unfolding each_or_raise
each_or_raise-Returns Q P step k s [] q p = p
each_or_raise-Returns Q P step k s (x ∷ xs) q p = elim (Option-cases (step s x)) [
  | inl e ↦ rw (e, each_or_raise) tt
  | inr (s', e) ↦
      let p' : P s' = rw e at (k s x q.0 p) in
      rw (e, each_or_raise) (each_or_raise-Returns Q P step k s' xs q.1 p')
]

module _ (h : Hashing) (u : Unicode) (request : CurateRequest) where
  pub versioned-Returns :
      (P : CurateMemoryVersion → Type 0) (prior : Option CurateMemory) (resolves : List Text)
      (draft : CurateMemory)
      → ((id : Text) → P (version_of h u request prior resolves draft id))
      → Returns P (versioned h u request prior resolves draft)
  unfolding versioned
  versioned-Returns P prior resolves draft k = elim (Bool-cases (memory_is_encodable draft)) [
    | inr e ↦ rw (e, versioned) tt
    | inl e ↦ elim (Option-cases (memory_id h request.scope_id draft resolves)) [
      | inl f ↦ rw (e, versioned, f) tt
      | inr (id, f) ↦ rw (e, versioned, f) (k id)
    ]
  ]

  -- A new version behind the others.
  pub added-Returns :
      (P : CurateMemoryVersion → Type 0) (o : Output) (v : Option CurateMemoryVersion)
      → All P o.out
      → Returns P v
      → Returns (λ o. All P o.out) (bind v (λ v. some (record o { out = o.out ++ v ∷ [] })))
  added-Returns P o none a k = tt
  added-Returns P o (some v) a k = All-append P o.out (v ∷ []) a (k, tt)
