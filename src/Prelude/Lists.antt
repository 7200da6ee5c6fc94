-- ===== src/Prelude/Lists.antt =====
-- Lists measured by native numbers, comprehensions, and predicates on their elements.
use memry_os_lite.Prelude.Tests.{
  ℕ, zero, suc, ◌+◌, ◌-◌, min, ◌≡◌, refl, ap, arith, Bool, true, false, ◌&&◌, ◌||◌, if◌then◌else◌,
}
pub use mathlib.Core.List.{List, [], ◌∷◌, ◌++◌, map, append-nil, append_assoc, map-append}

module _ {ℓ} {A : Type ℓ} where
  abbrev pub length : List A → ℕ
  length [] = 0
  length (x ∷ xs) = suc (length xs)

  abbrev pub take : ℕ → List A → List A
  take zero xs = []
  take (suc n) [] = []
  take (suc n) (x ∷ xs) = x ∷ take n xs

  abbrev pub drop : ℕ → List A → List A
  drop zero xs = xs
  drop (suc n) [] = []
  drop (suc n) (x ∷ xs) = drop n xs

  -- `[x for x in xs if p(x)]`
  abbrev pub keep : (A → Bool) → List A → List A
  keep p [] = []
  keep p (x ∷ xs) = let rest = keep p xs in if p x then x ∷ rest else rest

  abbrev pub any : (A → Bool) → List A → Bool
  any p [] = false
  any p (x ∷ xs) = p x || any p xs

  abbrev pub all : (A → Bool) → List A → Bool
  all p [] = true
  all p (x ∷ xs) = p x && all p xs

  -- `for x in xs: s = step(s, x)`
  abbrev pub each {κ} : {S : Type κ} → (S → A → S) → S → List A → S
  each step s [] = s
  each step s (x ∷ xs) = each step (step s x) xs

  abbrev pub All {κ} : (A → Type κ) → List A → Type κ
  All P [] = Unit
  All P (x ∷ xs) = P x × All P xs

  pub length-append : (xs ys : List A) → length (xs ++ ys) ≡ length xs + length ys
  length-append [] ys = omega arith
  length-append (x ∷ xs) ys = omega (arith, length-append xs ys)

  pub take-append-drop : (n : ℕ) (xs : List A) → take n xs ++ drop n xs ≡ xs
  take-append-drop zero xs = refl
  take-append-drop (suc n) [] = refl
  take-append-drop (suc n) (x ∷ xs) = ap (◌∷◌ x) (take-append-drop n xs)

  pub length-take : (n : ℕ) (xs : List A) → length (take n xs) ≡ min n (length xs)
  length-take zero xs = omega arith
  length-take (suc n) [] = omega arith
  length-take (suc n) (x ∷ xs) = omega (arith, length-take n xs)

  pub length-drop : (n : ℕ) (xs : List A) → length (drop n xs) ≡ length xs - n
  length-drop zero xs = omega arith
  length-drop (suc n) [] = omega arith
  length-drop (suc n) (x ∷ xs) = omega (arith, length-drop n xs)

  pub All-append {κ} : (P : A → Type κ) (xs ys : List A) → All P xs → All P ys → All P (xs ++ ys)
  All-append P [] ys hx hy = hy
  All-append P (x ∷ xs) ys hx hy = (hx.0, All-append P xs ys hx.1 hy)

  -- A loop keeps what each of its rounds keeps.
  pub each_inv {κ ι} :
      {S : Type κ} (P : S → Type ι) (step : S → A → S)
      → ((s : S) (x : A) → P s → P (step s x))
      → (s : S) (xs : List A) → P s
      → P (each step s xs)
  each_inv P step h s [] p = p
  each_inv P step h s (x ∷ xs) p = each_inv P step h (step s x) xs (h s x p)

-- `xs[-n:]`, for `n > 0`
abbrev pub take_last {ℓ} : {A : Type ℓ} → ℕ → List A → List A
take_last n xs = drop (length xs - n) xs

-- `[y for x in xs for y in f(x)]`
abbrev pub concat_map {ℓ κ} : {A : Type ℓ} {B : Type κ} → (A → List B) → List A → List B
concat_map f [] = []
concat_map f (x ∷ xs) = f x ++ concat_map f xs

-- A loop keeps an invariant that its rounds keep for the elements that the list has.
pub each_inv_all {ℓ κ ι} :
    {A : Type ℓ} {S : Type κ} (Q : A → Type ι) (P : S → Type ι) (step : S → A → S)
    → ((s : S) (x : A) → Q x → P s → P (step s x))
    → (s : S) (xs : List A) → All Q xs
    → P s
    → P (each step s xs)
each_inv_all Q P step h s [] q p = p
each_inv_all Q P step h s (x ∷ xs) q p = each_inv_all Q P step h (step s x) xs q.1 (h s x q.0 p)
