-- ===== src/Examples/Base.antt =====
-- The parameters of the models at concrete values.
use memry_os_lite.Prelude.{
  ℕ, ◌+◌, ◌*◌, ◌/◌, ◌≡◌, refl, arith, Text, codes, false, leb, [], ◌∷◌, map, is_space,
  if◌then◌else◌,
}
use memry_os_lite.Unicode.{Unicode, FoldLaws}
use memry_os_lite.Floats.{Floats, FloatLaws}
use memry_os_lite.Curate.Consolidate.{Hashing, is_encodable}
use memry_os_lite.Curate.Encodable.{HashingLaws}

-- ASCII, folded to lower case.
abbrev pub lower_char : ℕ → ℕ
lower_char c = if leb 65 c then (if leb c 90 then c + 32 else c) else c

abbrev pub ascii : Unicode
ascii = record { fold = λ c. lower_char c ∷ []; is_word = λ c. leb 48 c }

solid-lower : (c : ℕ) → is_space c ≡ false → is_space (lower_char c) ≡ false
unfolding is_space
solid-lower c h = ground arith

pub ascii-laws : FoldLaws ascii
ascii-laws = record {
  fold_blank = refl;
  fold_some = λ c e. cc;
  fold_solid = λ c h. ground (arith, solid-lower c h);
}

abbrev pub lower : Text → Text
lower = map lower_char

-- Numbers in place of floats.
abbrev pub naturals : Floats
naturals = record {
  Float = ℕ;
  of_nat = λ n. n;
  decimal = λ m d. m;
  add = λ a b. a + b;
  mul = λ a b. a * b;
  div = λ a b. a / b;
  sqrt = λ a. a;
  round = λ a d. a;
  le = leb;
}

pub naturals-laws : FloatLaws naturals
naturals-laws = record { le_total = λ x y h. ground arith; le_trans = λ x y z h k. ground arith }

abbrev pub no_hashing : Hashing
no_hashing = record { dumps = λ j. []; sha256_hex = λ t. codes "id" }

pub no_hashing-laws : HashingLaws no_hashing
unfolding is_encodable
no_hashing-laws = record { dumps-encodable = λ j e. refl }
