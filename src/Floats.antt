-- ===== src/Floats.antt =====
-- Python's floats as a parameter: the operations that the rankings use, and of the order what a
-- sort needs. The program makes no NaN: it divides by numbers that it has compared with zero.
use memry_os_lite.Prelude.{ℕ, Bool, true, false, ◌≡◌}

pub record Floats : Type 1 where
  pub Float : Type 0
  pub of_nat : ℕ → Float
  -- `decimal m d` is the literal m / 10^d
  pub decimal : ℕ → ℕ → Float
  pub add : Float → Float → Float
  pub mul : Float → Float → Float
  pub div : Float → Float → Float
  pub sqrt : Float → Float
  pub round : Float → ℕ → Float
  pub le : Float → Float → Bool

pub record FloatLaws (f : Floats) : Type 0 where
  pub le_total : (x y : f.Float) → f.le x y ≡ false → f.le y x ≡ true
  pub le_trans : (x y z : f.Float) → f.le x y ≡ true → f.le y z ≡ true → f.le x z ≡ true
