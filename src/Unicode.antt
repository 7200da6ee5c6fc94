-- ===== src/Unicode.antt =====
-- What the program takes from the Unicode character database: `str.casefold` and `str.lower`, which
-- work character by character, and the class `\w` of `re`.
use memry_os_lite.Prelude.{
  ℕ, Text, Bool, true, false, not, all, is_space, ◌≡◌, [], ◌∷◌, ◌≢◌, concat_map,
}

pub record Unicode : Type 0 where
  pub fold : ℕ → Text
  pub is_word : ℕ → Bool

-- `s.casefold()`
abbrev pub casefold : Unicode → Text → Text
casefold u = concat_map u.fold

-- What is used of the database: folding keeps the blank, and takes no other character to a text
-- that is empty or that holds whitespace.
pub record FoldLaws (u : Unicode) : Type 0 where
  pub fold_blank : u.fold 32 ≡ 32 ∷ []
  pub fold_some : (c : ℕ) → u.fold c ≢ []
  pub fold_solid : (c : ℕ) → is_space c ≡ false → all (λ d. not (is_space d)) (u.fold c) ≡ true
