-- ===== src/Prelude/Strings.antt =====
-- Python strings as lists of code points: tests, whitespace, `strip`, `in`.
use Prim.Native.Char.{code}
use Prim.Native.String.{String}
use mathlib.Core.List.{reverse}
use memry_os_lite.Prelude.Tests.{
  ℕ, ◌+◌, ◌<◌, ◌≡◌, refl, ap, ◌↔◌, arith, Bool, true, false, ◌&&◌, ◌||◌, Option, none, some, inl,
  inr, Bool-cases, leb, ◌==◌, if◌then◌else◌,
}
use memry_os_lite.Prelude.Lists.{List, [], ◌∷◌, ◌++◌}

abbrev pub Text : Type 0
Text = List ℕ

abbrev pub codes : String → Text
codes String.[] = []
codes (String.◌∷◌ c s) = code c ∷ codes s

unfoldable pub teq : Text → Text → Bool
teq [] [] = true
teq [] (d ∷ t) = false
teq (c ∷ s) [] = false
teq (c ∷ s) (d ∷ t) = c == d && teq s t

eq_of_teq : (s t : Text) → teq s t ≡ true → s ≡ t
unfolding teq
eq_of_teq [] [] h = refl
eq_of_teq [] (d ∷ t) h = cc
eq_of_teq (c ∷ s) [] h = cc
eq_of_teq (c ∷ s) (d ∷ t) h = ground (arith, eq_of_teq s t)

teq_refl : (s : Text) → teq s s ≡ true
unfolding teq
teq_refl [] = refl
teq_refl (c ∷ s) = ground (arith, teq_refl s)

pub teq_iff : (s t : Text) → (teq s t ≡ true) ↔ (s ≡ t)
teq_iff s t = (eq_of_teq s t, λ e. rw e (teq_refl t))

-- `x in xs`
unfoldable pub elem : Text → List Text → Bool
elem x [] = false
elem x (y ∷ ys) = teq x y || elem x ys

unfoldable pub count : Text → List Text → ℕ
count x [] = 0
count x (y ∷ ys) = (if teq x y then 1 else 0) + count x ys

pub elem_iff_count : (x : Text) (ys : List Text) → (elem x ys ≡ true) ↔ (0 < count x ys)
unfolding elem count
elem_iff_count x [] = ground arith
elem_iff_count x (y ∷ ys) = ground (arith, elem_iff_count x ys)

pub count-append : (x : Text) (xs ys : List Text) → count x (xs ++ ys) ≡ count x xs + count x ys
unfolding count
count-append x [] ys = omega arith
count-append x (y ∷ xs) ys = omega (arith, count-append x xs ys)

pub count-one : (x y : Text) → count x (y ∷ []) ≡ (if teq x y then 1 else 0)
unfolding count
count-one x y = omega arith

-- The Unicode whitespace of `str.isspace`, `str.split` and `str.strip`.
unfoldable pub is_space : ℕ → Bool
is_space c =
    (leb 9 c && leb c 13)
    || (leb 28 c && leb c 32)
    || c == 133
    || c == 160
    || c == 5760
    || (leb 8192 c && leb c 8202)
    || c == 8232
    || c == 8233
    || c == 8239
    || c == 8287
    || c == 12288

is_space-blank : is_space 32 ≡ true
unfolding is_space
is_space-blank = refl

pub ne_blank : (c : ℕ) → is_space c ≡ false → (c == 32) ≡ false
ne_blank c h = elim (Bool-cases (c == 32)) [
  | inl e ↦ let eq : c ≡ 32 = ground arith in cc (is_space-blank, ap is_space eq)
  | inr e ↦ e
]

unfoldable pub lstrip : (ℕ → Bool) → Text → Text
lstrip p [] = []
lstrip p (c ∷ s) = if p c then lstrip p s else c ∷ s

-- `s.strip()` and `s.strip(chars)`, the characters to drop given by a test
unfoldable pub strip : (ℕ → Bool) → Text → Text
unfolding lstrip
strip p s = reverse (lstrip p (reverse (lstrip p s)))

-- What is left of `s` behind `p`, if `s` begins with `p`.
unfoldable pub strip_prefix : Text → Text → Option Text
strip_prefix [] s = some s
strip_prefix (c ∷ p) [] = none
strip_prefix (c ∷ p) (d ∷ s) = if c == d then strip_prefix p s else none

pub append_of_strip_prefix : (p s : Text) {r : Text} → strip_prefix p s ≡ some r → s ≡ p ++ r
unfolding strip_prefix
append_of_strip_prefix [] s h = ground arith
append_of_strip_prefix (c ∷ p) [] h = cc
append_of_strip_prefix (c ∷ p) (d ∷ s) {r} h = ground (arith, append_of_strip_prefix p s {r = r})

pub strip_prefix-append : (p r : Text) → strip_prefix p (p ++ r) ≡ some r
unfolding strip_prefix
strip_prefix-append [] r = refl
strip_prefix-append (c ∷ p) r = ground (arith, strip_prefix-append p r)

abbrev pub is_prefix : Text → Text → Bool
is_prefix p s = elim (strip_prefix p s) [ none ↦ false | some r ↦ true ]

-- `p in s`
unfoldable pub occurs : Text → Text → Bool
unfolding strip_prefix
occurs p [] = is_prefix p []
occurs p (c ∷ s) = is_prefix p (c ∷ s) || occurs p s

-- A text stands in another: what is before it, and what is behind.
abbrev pub IsSpanOf : Text → Text → Type 0
IsSpanOf q s = (before : Text) × (after : Text) × (s ≡ before ++ (q ++ after))

IsSpanOf-is_prefix : (p s : Text) → is_prefix p s ≡ true → IsSpanOf p s
IsSpanOf-is_prefix p s h = go (strip_prefix p s) refl
  where
    go : (o : Option Text) → strip_prefix p s ≡ o → IsSpanOf p s
    go none e = absurd (ground arith)
    go (some r) e = ([], r, append_of_strip_prefix p s e)

pub IsSpanOf-occurs : (p s : Text) → occurs p s ≡ true → IsSpanOf p s
unfolding occurs
IsSpanOf-occurs p [] h = IsSpanOf-is_prefix p [] h
IsSpanOf-occurs p (c ∷ s) h = elim (Bool-cases (is_prefix p (c ∷ s))) [
  | inl e ↦ IsSpanOf-is_prefix p (c ∷ s) e
  | inr e ↦ let (b, a, q) = IsSpanOf-occurs p s (ground arith) in (c ∷ b, a, ap (◌∷◌ c) q)
]

is_prefix-append : (p r : Text) → is_prefix p (p ++ r) ≡ true
is_prefix-append p r = ground (arith, strip_prefix-append p r)

pub occurs_of_span : (before p after : Text) → occurs p (before ++ (p ++ after)) ≡ true
unfolding occurs
occurs_of_span [] [] [] = refl
occurs_of_span [] [] (d ∷ after) = refl
occurs_of_span [] (c ∷ p) after = rw (is_prefix-append (c ∷ p) after)
occurs_of_span (c ∷ before) p after = ground (arith, occurs_of_span before p after)
