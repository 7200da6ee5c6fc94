-- ===== src/Evidence/Shrinking.antt =====
-- The loop of the builders of source evidence that drops items until the envelope is small enough.
use memry_os_lite.Prelude.{
  ℕ, zero, suc, ◌+◌, ◌-◌, ◌≤◌, ◌<◌, ◌≡◌, ◌⊎◌, inl, inr, refl, arith, Bool, true, leb, Bool-cases,
  some, List, [], ◌∷◌, length,
}
use memry_os_lite.Evidence.{
  Envelope, Built, built, refused, empty_envelope_exceeds_byte_limit, shrink, pop,
}

module _ {T : Type 0} (rerank : List T → List T) (payload : List T → ℕ → Envelope T)
    (size : Envelope T → ℕ) (valid : Envelope T → Bool) (Inv : List T → ℕ → Type 0) where
  -- An envelope of items that the invariant holds of and that is small enough, or the error, where
  -- the empty one is too large.
  abbrev pub IsShrunk : ℕ → Built (Envelope T) → Type 0
  IsShrunk max_bytes r =
      ((items : List T) × (omitted : ℕ) × Inv items omitted
        × (r ≡ built (payload items omitted))
        × (valid (payload items omitted) ≡ true)
        × (size (payload items omitted) ≤ max_bytes))
      ⊎ ((omitted : ℕ) × Inv [] omitted
          × (r ≡ refused empty_envelope_exceeds_byte_limit)
          × (max_bytes < size (payload (rerank []) omitted)))

  -- What the invariant has to keep.
  pub record Keeps : Type 0 where
    pub reranked : (cs : List T) (n : ℕ) → Inv cs n → Inv (rerank cs) n
    pub popped : (cs : List T) (n : ℕ) → 0 < length cs → Inv cs n → Inv (pop cs) (n + 1)
    pub measured : (cs : List T) → length (pop (rerank cs)) ≡ length cs - 1
    pub lengthy : (cs : List T) → length (rerank cs) ≡ length cs
    pub accepted : (cs : List T) (n : ℕ) → Inv cs n → valid (payload (rerank cs) n) ≡ true

  abbrev Ends : ℕ → ℕ → List T → ℕ → Type 0
  Ends fuel max_bytes cs omitted =
      (r : Built (Envelope T)) × (shrink rerank payload size valid fuel max_bytes cs omitted
        ≡ some r)
      × IsShrunk max_bytes r

  small-Ends :
      (k : Keeps) (fuel max_bytes : ℕ) (cs : List T) (omitted : ℕ)
      → Inv cs omitted
      → leb (size (payload (rerank cs) omitted)) max_bytes ≡ true
      → Ends (suc fuel) max_bytes cs omitted
  unfolding shrink
  small-Ends k fuel max_bytes cs omitted i fits = (
    built (payload (rerank cs) omitted),
    rw (fits, shrink, k.accepted cs omitted i) refl,
    inl (rerank cs, omitted, k.reranked cs omitted i, refl, k.accepted cs omitted i, ground arith),
  )

  pub shrink-IsShrunk :
      (k : Keeps) (fuel max_bytes : ℕ) (cs : List T) (omitted : ℕ)
      → length cs < fuel
      → Inv cs omitted
      → Ends fuel max_bytes cs omitted
  unfolding shrink
  shrink-IsShrunk k zero max_bytes cs omitted enough i = absurd (omega (arith, enough))
  shrink-IsShrunk k (suc fuel) max_bytes [] omitted enough i =
      elim (Bool-cases (leb (size (payload (rerank []) omitted)) max_bytes)) [
        | inl fits ↦ small-Ends k fuel max_bytes [] omitted i fits
        | inr large ↦ (
          refused empty_envelope_exceeds_byte_limit,
          rw (large, shrink) refl,
          inr (omitted, i, refl, ground arith),
        )
      ]
  shrink-IsShrunk k (suc fuel) max_bytes (c ∷ cs) omitted enough i =
      elim (Bool-cases (leb (size (payload (rerank (c ∷ cs)) omitted)) max_bytes)) [
        | inl fits ↦ small-Ends k fuel max_bytes (c ∷ cs) omitted i fits
        | inr large ↦
            rw (large, shrink)
              (shrink-IsShrunk k fuel max_bytes (pop (rerank (c ∷ cs))) (omitted + 1)
                (omega (arith, enough, k.measured (c ∷ cs)))
                (k.popped (rerank (c ∷ cs)) omitted (omega (arith, k.lengthy (c ∷ cs)))
                  (k.reranked (c ∷ cs) omitted i)))
      ]
