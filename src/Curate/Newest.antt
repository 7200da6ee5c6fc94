-- ===== src/Curate/Newest.antt =====
-- The pick of `_newest`.
use mathlib.Core.Path.{subst}
use memry_os_lite.Prelude.{
  sym, ◌≡◌, refl, arith, Text, Bool, true, false, not, ◌&&◌, if◌then◌else◌, Bool-cases, ◌⊎◌, inl,
  inr, some, List, [], ◌∷◌, keep, each, All, teq, teq_iff, text_le, text_le-total, text_le_trans,
}
use memry_os_lite.Curate.Model.{CurateMemory, CurateRequest, is_lesson}
use memry_os_lite.Curate.Consolidate.{not_newer, newest, bucket}

abbrev better : CurateMemory → CurateMemory → CurateMemory
better best n = if not_newer n best then best else n

not_newer_refl : (m : CurateMemory) → not_newer m m ≡ true
not_newer_refl m = elim (Bool-cases (text_le m.id m.id)) [
  | inl e ↦ ground arith
  | inr e ↦ ground (arith, text_le-total m.id m.id)
]

not_newer-total : (m n : CurateMemory) → not_newer m n ≡ false → not_newer n m ≡ true
not_newer-total m n h = ground (arith, text_le-total m.id n.id)

not_newer_trans :
    (m n k : CurateMemory) → not_newer m n ≡ true → not_newer n k ≡ true → not_newer m k ≡ true
not_newer_trans m n k p q = ground (arith, text_le_trans m.id n.id k.id)

-- What holds of all candidates holds of the one that is picked.
each_better-All :
    (P : CurateMemory → Type 0) (best : CurateMemory) (ms : List CurateMemory)
    → P best
    → All P ms
    → P (each better best ms)
each_better-All P best [] p a = p
each_better-All P best (m ∷ ms) p a = elim (Bool-cases (not_newer m best)) [
  | inl e ↦ rw (each, e) (each_better-All P best ms p a.1)
  | inr e ↦ rw (each, e) (each_better-All P m ms a.0 a.1)
]

abbrev IsBest : CurateMemory → List CurateMemory → CurateMemory → Type 0
IsBest best ms x = (not_newer best x ≡ true) × All (λ n. not_newer n x ≡ true) ms

-- The pick is not older than the one to begin with, nor than any candidate.
each-better-IsBest :
    (best : CurateMemory) (ms : List CurateMemory) → IsBest best ms (each better best ms)
each-better-IsBest best [] = (not_newer_refl best, tt)
each-better-IsBest best (m ∷ ms) = elim (Bool-cases (not_newer m best)) [
  | inl e ↦
      let (first, rest) = each-better-IsBest best ms in
      let kept : better best m ≡ best = rw e refl in
      subst (λ b. IsBest best (m ∷ ms) (each better b ms)) (sym kept)
        (first, (not_newer_trans m best (each better best ms) e first, rest))
  | inr e ↦
      let (first, rest) = each-better-IsBest m ms in
      let taken : better best m ≡ m = rw e refl in
      subst (λ b. IsBest best (m ∷ ms) (each better b ms)) (sym taken)
        (not_newer_trans best m (each better m ms) (not_newer-total m best e) first, (first, rest))
]

pub newest-All :
    (P : CurateMemory → Type 0) (ms : List CurateMemory) {m : CurateMemory}
    → All P ms
    → newest ms ≡ some m
    → P m
unfolding newest
newest-All P [] a h = cc
newest-All P (n ∷ ms) {m} a h =
    let same : each better n ms ≡ m = ground arith in rw (← same) (each_better-All P n ms a.0 a.1)

newest-greatest :
    (ms : List CurateMemory) {m : CurateMemory}
    → newest ms ≡ some m
    → All (λ n. not_newer n m ≡ true) ms
unfolding newest
newest-greatest [] h = tt
newest-greatest (n ∷ ms) {m} h =
    let same : each better n ms ≡ m = ground arith in
    subst (IsBest n ms) same (each-better-IsBest n ms)

-- The memories of a bucket are those of its kind and topic key.
abbrev InBucket : Bool → Text → CurateMemory → Type 0
InBucket lessons key m = (is_lesson m.kind ≡ lessons) × (m.topic_key ≡ key)

All-keep-bucket :
    (lessons : Bool) (key : Text) (ms : List CurateMemory)
    → All (InBucket lessons key) (
        keep
          (λ m.
            (if lessons then is_lesson m.kind else not (is_lesson m.kind)) && teq key m.topic_key)
          ms)
All-keep-bucket lessons key [] = tt
All-keep-bucket lessons key (m ∷ ms) =
    elim (Bool-cases
      ((if lessons then is_lesson m.kind else not (is_lesson m.kind)) && teq key m.topic_key)) [
        | inl e ↦
            rw (keep, e) (ground (arith, teq_iff key m.topic_key), All-keep-bucket lessons key ms)
        | inr e ↦ rw (keep, e) (All-keep-bucket lessons key ms)
      ]

-- A memory of a list.
abbrev pub Among : CurateMemory → List CurateMemory → Type 0
Among m [] = ⊥
Among m (n ∷ ns) = (m ≡ n) ⊎ Among m ns

Among-keep :
    (p : CurateMemory → Bool) (ms ns : List CurateMemory)
    → All (λ m. Among m ns) ms
    → All (λ m. Among m ns) (keep p ms)
Among-keep p [] ns a = tt
Among-keep p (m ∷ ms) ns a = elim (Bool-cases (p m)) [
  | inl e ↦ rw (keep, e) (a.0, Among-keep p ms ns a.1)
  | inr e ↦ rw (keep, e) (Among-keep p ms ns a.1)
]

All-later :
    (n : CurateMemory) (ms ns : List CurateMemory)
    → All (λ m. Among m ns) ms
    → All (λ m. Among m (n ∷ ns)) ms
All-later n [] ns a = tt
All-later n (m ∷ ms) ns a = (inr a.0, All-later n ms ns a.1)

All-Among : (ms : List CurateMemory) → All (λ m. Among m ms) ms
All-Among [] = tt
All-Among (m ∷ ms) = (inl refl, All-later m ms ms (All-Among ms))

-- The newest memory for a topic key: an active one with that key, among the lessons or among the
-- others, and none of those is newer.
pub record IsNewest (lessons : Bool) (request : CurateRequest) (key : Text) (m : CurateMemory)
    : Type 0 where
  pub kind : is_lesson m.kind ≡ lessons
  pub topic : m.topic_key ≡ key
  pub active : Among m request.active
  pub greatest : All (λ n. not_newer n m ≡ true) (bucket lessons request key)

-- The memory that a version with a topic key replaces, if `_newest` finds one, is an active memory
-- with that key, a lesson if the version is a lesson and no lesson otherwise, and none of the active
-- memories of which this holds is newer.
pub newest-IsNewest :
    (lessons : Bool) (request : CurateRequest) (key : Text) {m : CurateMemory}
    → newest (bucket lessons request key) ≡ some m
    → IsNewest lessons request key m
unfolding bucket
newest-IsNewest lessons request key {m} h =
    let (kind, topic) =
      newest-All (InBucket lessons key) _ (All-keep-bucket lessons key request.active) h in
    record {
      kind = kind;
      topic = topic;
      active =
          newest-All (λ m. Among m request.active) _
            (Among-keep _ request.active request.active (All-Among request.active)) h;
      greatest = newest-greatest (bucket lessons request key) h;
    }
