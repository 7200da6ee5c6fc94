-- ===== src/Prelude/Dicts.antt =====
-- Python dictionaries as association lists in insertion order.
use memry_os_lite.Prelude.Tests.{◌+◌, ◌≡◌, refl, arith, false, Option, none, some, if◌then◌else◌}
use memry_os_lite.Prelude.Lists.{List, [], ◌∷◌, map}
use memry_os_lite.Prelude.Strings.{Text, teq, teq_iff, elem, count}

abbrev pub Dict {ℓ} : Type ℓ → Type ℓ
Dict V = List (Text × V)

module _ {ℓ} {V : Type ℓ} where
  -- `d.get(k)`
  unfoldable pub get : Dict V → Text → Option V
  get [] k = none
  get ((j, v) ∷ d) k = if teq k j then some v else get d k

  -- `d[k] = v`: a key that is there keeps its place
  unfoldable pub put : Dict V → Text → V → Dict V
  put [] k v = (k, v) ∷ []
  put ((j, w) ∷ d) k v = if teq k j then (k, v) ∷ d else (j, w) ∷ put d k v

  abbrev pub keys : Dict V → List Text
  keys = map (λ e. e.0)

  -- `d.setdefault(k, v)`, as a statement
  unfoldable pub set_default : Dict V → Text → V → Dict V
  unfolding put
  set_default d k v = elim (get d k) [ none ↦ put d k v | some w ↦ d ]

  -- `del d[k]`
  unfoldable pub delete : Dict V → Text → Dict V
  delete [] k = []
  delete ((j, w) ∷ d) k = if teq k j then d else (j, w) ∷ delete d k

  pub get-put :
      (d : Dict V) (k j : Text) (v : V) → get (put d k v) j ≡ (if teq j k then some v else get d j)
  unfolding get put
  get-put [] k j v = refl
  get-put ((i, w) ∷ d) k j v =
      ground (arith, get-put d k j v, teq_iff k i, teq_iff j k, teq_iff j i)

  pub count-keys-put :
      (d : Dict V) (k j : Text) (v : V)
      → count j (keys (put d k v))
        ≡ count j (keys d) + (if teq j k then (if elem k (keys d) then 0 else 1) else 0)
  unfolding put count elem
  count-keys-put [] k j v = ground arith
  count-keys-put ((i, w) ∷ d) k j v =
      ground (arith, count-keys-put d k j v, teq_iff k i, teq_iff j k, teq_iff j i)

  pub get-elem : (d : Dict V) (k : Text) → get d k ≡ none → elem k (keys d) ≡ false
  unfolding get elem
  get-elem [] k h = refl
  get-elem ((j, v) ∷ d) k h = ground (arith, get-elem d k)
