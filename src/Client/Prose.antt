-- ===== src/Client/Prose.antt =====
-- src/memoryos_lite/curator/llm.py, `extract_json_object`: the object that it finds in a text.
use memry_os_lite.Prelude.{
  ◌≡◌, ◌↔◌, refl, sym, ap, ◌∙◌, arith, Text, Option-cases, Option, none, some, inl, inr, [], ◌∷◌,
  ◌++◌,
}
use memry_os_lite.Json.{Json, Fields}
use memry_os_lite.Client.{object_at, extract_json_object}

module _ (raw_decode : Text → Option Json) where
  -- No object starts in a text, when another text comes behind it.
  abbrev pub NoObject : Text → Text → Type 0
  NoObject [] rest = Unit
  NoObject (c ∷ cs) rest = (object_at raw_decode (c ∷ (cs ++ rest)) ≡ none) × NoObject cs rest

  -- An object that starts where a text is divided, when none starts before.
  pub record IsFirstObject (text : Text) (fs : Fields) : Type 0 where
    pub before : Text
    pub rest : Text
    pub divided : text ≡ before ++ rest
    pub object_here : object_at raw_decode rest ≡ some fs
    pub none_before : NoObject before rest

  extract-append :
      (before rest : Text) (fs : Fields)
      → object_at raw_decode rest ≡ some fs
      → NoObject before rest
      → extract_json_object raw_decode (before ++ rest) ≡ some fs
  unfolding extract_json_object
  extract-append [] [] fs h clear = h
  extract-append [] (c ∷ cs) fs h clear = rw (h, extract_json_object) refl
  extract-append (c ∷ before) rest fs h clear =
      rw (clear.0, extract_json_object) (extract-append before rest fs h clear.1)

  first_object :
      (text : Text) (fs : Fields)
      → extract_json_object raw_decode text ≡ some fs
      → IsFirstObject text fs
  unfolding extract_json_object
  first_object [] fs h = absurd (ground (arith, h))
  first_object (c ∷ cs) fs h = elim (Option-cases (object_at raw_decode (c ∷ cs))) [
    | inl e ↦
        let found = first_object cs fs (rw (e, extract_json_object) at h) in
        record {
          before = c ∷ found.before;
          rest = found.rest;
          divided = ap (◌∷◌ c) found.divided;
          object_here = found.object_here;
          none_before =
              (ap (λ s. object_at raw_decode (c ∷ s)) (sym found.divided) ∙ e, found.none_before);
        }
    | inr (fs', e) ↦ record {
      before = [];
      rest = c ∷ cs;
      divided = refl;
      object_here = e ∙ (rw (e, extract_json_object) at h);
      none_before = tt;
    }
  ]

  -- Fences and prose around an object are tolerated: `extract_json_object` gives an object exactly
  -- if the text can be divided so that the object is decoded from a `{` at the division, whatever
  -- comes behind it, and from no position before is an object decoded, although `{` may stand there.
  pub extract_json_object-IsFirstObject :
      (text : Text) (fs : Fields)
      → (extract_json_object raw_decode text ≡ some fs) ↔ IsFirstObject text fs
  extract_json_object-IsFirstObject text fs = (
    first_object text fs,
    λ f. rw f.divided (extract-append f.before f.rest fs f.object_here f.none_before),
  )
