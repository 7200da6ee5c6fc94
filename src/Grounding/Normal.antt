-- ===== src/Grounding/Normal.antt =====
-- `normalize_text` in one pass: words in lower case, one blank between two.
use memry_os_lite.Prelude.{
  ℕ, ◌≡◌, refl, ap, ◌∙◌, sym, arith, Bool, true, false, not, List, [], ◌∷◌, ◌++◌, append_assoc,
  append-nil, concat_map, all, Text, is_space, ne_blank, if◌then◌else◌, Bool-cases, inl, inr, ◌==◌,
  ◌≢◌,
}
use memry_os_lite.Unicode.{Unicode, FoldLaws, casefold}
use memry_os_lite.Grounding.{words, join, normalize_text}

pub concat_map-append {ℓ κ} :
    {A : Type ℓ} {B : Type κ} (f : A → List B) (xs ys : List A)
    → concat_map f (xs ++ ys) ≡ concat_map f xs ++ concat_map f ys
concat_map-append f [] ys = refl
concat_map-append f (x ∷ xs) ys = rw (concat_map-append f xs ys, append_assoc)

module _ (u : Unicode) where
  -- `started`: a word was read; `pending`: whitespace was read behind it.
  unfoldable pub squeeze : Bool → Bool → Text → Text
  squeeze started pending [] = []
  squeeze started pending (c ∷ s) = elim (is_space c) [
    | true ↦ squeeze started started s
    | false ↦ (if pending then 32 ∷ u.fold c else u.fold c) ++ squeeze true false s
  ]

  -- The words, a blank before each.
  blanks : List Text → Text
  blanks [] = []
  blanks (w ∷ ws) = 32 ∷ casefold u (join (w ∷ ws))

  module _ (laws : FoldLaws u) where
    casefold-join :
        (w : Text) (ws : List Text) → casefold u (join (w ∷ ws)) ≡ casefold u w ++ blanks ws
    unfolding join blanks
    casefold-join w [] = sym (append-nil _)
    casefold-join w (v ∷ ws) =
        concat_map-append u.fold w (32 ∷ join (v ∷ ws)) ∙ (rw laws.fold_blank refl)

    blanks-words :
        (c : ℕ) (w s : Text) → blanks (words (c ∷ w) s) ≡ 32 ∷ casefold u (join (words (c ∷ w) s))
    unfolding words blanks
    blanks-words c w [] = refl
    blanks-words c w (d ∷ s) = ground (arith, blanks-words c (w ++ d ∷ []) s)

    record Squeezed (s : Text) : Type 0 where
      inside :
          (c : ℕ) (w : Text)
          → casefold u (join (words (c ∷ w) s)) ≡ casefold u (c ∷ w) ++ squeeze true false s
      between : blanks (words [] s) ≡ squeeze true true s
      before : casefold u (join (words [] s)) ≡ squeeze false false s

    words-Squeezed : (s : Text) → Squeezed s
    unfolding words squeeze blanks join
    words-Squeezed [] = record { inside = λ c w. sym (append-nil _); between = refl; before = refl }
    words-Squeezed (d ∷ s) =
        let ih = words-Squeezed s in
        elim (Bool-cases (is_space d)) [
          | inl e ↦ record {
            inside = λ c w.
                rw (e, words, squeeze)
                  (casefold-join (c ∷ w) (words [] s)
                    ∙ ap (λ x. casefold u (c ∷ w) ++ x) ih.between);
            between = rw (e, words, squeeze) ih.between;
            before = rw (e, words, squeeze) ih.before;
          }
          | inr e ↦ record {
            inside = λ c w.
                rw (e, words, squeeze)
                  (ih.inside c (w ++ d ∷ []) ∙ simp (concat_map-append, append_assoc, append-nil));
            between =
                rw (e, words, squeeze)
                  (blanks-words d [] s ∙ ap (◌∷◌ 32) (ih.inside d [] ∙ simp append-nil));
            before = rw (e, words, squeeze) (ih.inside d [] ∙ simp append-nil);
          }
        ]

    -- Splitting, joining and folding is one pass over the text.
    pub normalize_text-squeeze : (s : Text) → normalize_text u s ≡ squeeze false false s
    unfolding normalize_text
    normalize_text-squeeze s = (words-Squeezed s).before

-- The text ends in a blank.
abbrev pub ends_blank : Text → Bool
ends_blank [] = false
ends_blank (c ∷ []) = c == 32
ends_blank (c ∷ d ∷ s) = ends_blank (d ∷ s)

pub ends_blank-blank : (s : Text) → ends_blank (s ++ 32 ∷ []) ≡ true
ends_blank-blank [] = refl
ends_blank-blank (c ∷ []) = refl
ends_blank-blank (c ∷ d ∷ s) = ends_blank-blank (d ∷ s)

ends_blank-append :
    (s r : Text) → ends_blank s ≡ false → ends_blank r ≡ false → ends_blank (s ++ r) ≡ false
ends_blank-append [] r h k = k
ends_blank-append (c ∷ []) [] h k = h
ends_blank-append (c ∷ []) (d ∷ r) h k = k
ends_blank-append (c ∷ d ∷ s) r h k = ends_blank-append (d ∷ s) r h k

ends_blank-solid : (s : Text) → all (λ d. not (is_space d)) s ≡ true → ends_blank s ≡ false
ends_blank-solid [] h = refl
ends_blank-solid (c ∷ []) h = ne_blank c (ground arith)
ends_blank-solid (c ∷ d ∷ s) h = ends_blank-solid (d ∷ s) (ground arith)

ends_blank-cons : (c : ℕ) (s : Text) → s ≢ [] → ends_blank s ≡ false → ends_blank (c ∷ s) ≡ false
ends_blank-cons c [] h k = absurd (h refl)
ends_blank-cons c (d ∷ s) h k = k

module _ (u : Unicode) (laws : FoldLaws u) where
  -- A normal form does not end in a blank.
  pub ends_blank-squeeze :
      (started pending : Bool) (s : Text) → ends_blank (squeeze u started pending s) ≡ false
  unfolding squeeze
  ends_blank-squeeze started pending [] = refl
  ends_blank-squeeze started pending (c ∷ s) = elim (Bool-cases (is_space c)) [
    | inl e ↦ rw (e, squeeze) (ends_blank-squeeze started started s)
    | inr e ↦
        let solid = ends_blank-solid (u.fold c) (laws.fold_solid c e) in
        rw (e, squeeze)
          (ends_blank-append (if pending then 32 ∷ u.fold c else u.fold c) _
            (elim (Bool-cases pending) [
              | inl b ↦ rw b (ends_blank-cons 32 (u.fold c) (laws.fold_some c) solid)
              | inr b ↦ rw b solid
            ])
            (ends_blank-squeeze true false s))
  ]
