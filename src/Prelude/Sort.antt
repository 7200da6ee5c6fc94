-- ===== src/Prelude/Sort.antt =====
-- `sorted(xs, key=...)`: a stable sort by a test that says "not after".
use memry_os_lite.Prelude.Tests.{
  suc, ◌≡◌, refl, arith, inl, inr, Bool, true, false, ◌&&◌, ◌||◌, ltb, ◌==◌, if◌then◌else◌,
  Bool-cases,
}
use memry_os_lite.Prelude.Lists.{List, [], ◌∷◌, map, length, All}
use memry_os_lite.Prelude.Strings.{Text, count}

module _ {ℓ} {A : Type ℓ} (le : A → A → Bool) where
  unfoldable pub insert : A → List A → List A
  insert x [] = x ∷ []
  insert x (y ∷ ys) = if le x y then x ∷ y ∷ ys else y ∷ insert x ys

  unfoldable pub sort : List A → List A
  unfolding insert
  sort [] = []
  sort (x ∷ xs) = insert x (sort xs)

  -- Each element is before all that follow.
  abbrev pub IsSorted : List A → Type 0
  IsSorted [] = Unit
  IsSorted (x ∷ xs) = All (λ y. le x y ≡ true) xs × IsSorted xs

  -- `le` orders any two elements, and orders chains.
  pub record IsOrder : Type ℓ where
    pub total : (x y : A) → le x y ≡ false → le y x ≡ true
    pub trans : (x y z : A) → le x y ≡ true → le y z ≡ true → le x z ≡ true

  module _ (o : IsOrder) where
    All-after :
        (x y : A) (zs : List A)
        → le x y ≡ true
        → All (λ z. le y z ≡ true) zs
        → All (λ z. le x z ≡ true) zs
    All-after x y [] h a = tt
    All-after x y (z ∷ zs) h a = (o.trans x y z h a.0, All-after x y zs h a.1)

    All-insert : (P : A → Type 0) (x : A) (ys : List A) → P x → All P ys → All P (insert x ys)
    unfolding insert
    All-insert P x [] p a = (p, tt)
    All-insert P x (y ∷ ys) p a = elim (Bool-cases (le x y)) [
      | inl e ↦ rw (e, insert) (p, a)
      | inr e ↦ rw (e, insert) (a.0, All-insert P x ys p a.1)
    ]

    insert-IsSorted : (x : A) (ys : List A) → IsSorted ys → IsSorted (insert x ys)
    unfolding insert
    insert-IsSorted x [] s = (tt, tt)
    insert-IsSorted x (y ∷ ys) s = elim (Bool-cases (le x y)) [
      | inl e ↦ rw (e, insert) ((e, All-after x y ys e s.0), s)
      | inr e ↦
          rw (e, insert)
            (All-insert (λ z. le y z ≡ true) x ys (o.total x y e) s.0, insert-IsSorted x ys s.1)
    ]

    pub sort-IsSorted : (xs : List A) → IsSorted (sort xs)
    unfolding sort
    sort-IsSorted [] = tt
    sort-IsSorted (x ∷ xs) = insert-IsSorted x (sort xs) (sort-IsSorted xs)

  -- A sort keeps the elements, as often, by a name of theirs.
  module _ (name : A → Text) where
    count-insert :
        (a : Text) (x : A) (ys : List A)
        → count a (map name (insert x ys)) ≡ count a (map name (x ∷ ys))
    unfolding insert count
    count-insert a x [] = refl
    count-insert a x (y ∷ ys) = ground (arith, count-insert a x ys)

    pub count-sort : (a : Text) (xs : List A) → count a (map name (sort xs)) ≡ count a (map name xs)
    unfolding sort count
    count-sort a [] = refl
    count-sort a (x ∷ xs) = ground (arith, count-insert a x (sort xs), count-sort a xs)

  pub length-insert : (x : A) (ys : List A) → length (insert x ys) ≡ suc (length ys)
  unfolding insert
  length-insert x [] = refl
  length-insert x (y ∷ ys) = ground (arith, length-insert x ys)

  pub length-sort : (xs : List A) → length (sort xs) ≡ length xs
  unfolding sort
  length-sort [] = refl
  length-sort (x ∷ xs) = ground (arith, length-insert x (sort xs), length-sort xs)

-- `s <= t`, by code points
unfoldable pub text_le : Text → Text → Bool
text_le [] t = true
text_le (c ∷ s) [] = false
text_le (c ∷ s) (d ∷ t) = ltb c d || (c == d && text_le s t)

pub text_le-total : (s t : Text) → text_le s t ≡ false → text_le t s ≡ true
unfolding text_le
text_le-total [] t h = cc
text_le-total (c ∷ s) [] h = refl
text_le-total (c ∷ s) (d ∷ t) h = ground (arith, text_le-total s t)

pub text_le_trans : (s t r : Text) → text_le s t ≡ true → text_le t r ≡ true → text_le s r ≡ true
unfolding text_le
text_le_trans [] t r h k = refl
text_le_trans (c ∷ s) [] r h k = cc
text_le_trans (c ∷ s) (d ∷ t) [] h k = cc
text_le_trans (c ∷ s) (d ∷ t) (e ∷ r) h k = ground (arith, text_le_trans s t r)

pub text_le-antisym : (s t : Text) → text_le s t ≡ true → text_le t s ≡ true → s ≡ t
unfolding text_le
text_le-antisym [] [] h k = refl
text_le-antisym [] (d ∷ t) h k = cc
text_le-antisym (c ∷ s) [] h k = cc
text_le-antisym (c ∷ s) (d ∷ t) h k = ground (arith, text_le-antisym s t)
