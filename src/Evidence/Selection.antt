-- ===== src/Evidence/Selection.antt =====
-- The loops that both builders of source evidence share: what they select, and how they shrink.
use memry_os_lite.Prelude.{
  ℕ, ◌+◌, ◌-◌, ◌≤◌, ◌≡◌, inl, inr, refl, ap, arith, Text, ◌||◌, leb, ltb, Bool-cases, Option-cases,
  Option, some, List, [], ◌∷◌, length, All,
}
use memry_os_lite.Evidence.{
  ContextLayerItem, Limits, eligible_of, select, rank_from, total_tokens, total_text_bytes, pop,
  utf8_length, max_total_text_bytes,
}

module _ {T : Type 0} (tokens_of : T → ℕ) (text_of : T → Text) (ranked : ℕ → T → T) where
  pub eligible_of-counts :
      (candidate : ℕ → ContextLayerItem → Option T) (rank : ℕ) (items : List ContextLayerItem)
      → let e = eligible_of tokens_of text_of ranked candidate rank items in
        length e.0 + e.1 ≡ length items
  unfolding eligible_of
  eligible_of-counts candidate rank [] = omega arith
  eligible_of-counts candidate rank (i ∷ is) =
      ground
        (arith, eligible_of-counts candidate rank is, eligible_of-counts candidate (rank + 1) is)

  pub All-eligible_of :
      (P : T → Type 0) (candidate : ℕ → ContextLayerItem → Option T)
      → ((rank : ℕ) (i : ContextLayerItem) (c : T) → candidate rank i ≡ some c → P c)
      → (rank : ℕ) (items : List ContextLayerItem)
      → All P (eligible_of tokens_of text_of ranked candidate rank items).0
  unfolding eligible_of
  All-eligible_of P candidate h rank [] = tt
  All-eligible_of P candidate h rank (i ∷ is) = elim (Option-cases (candidate rank i)) [
    | inl e ↦ rw (e, eligible_of) (All-eligible_of P candidate h rank is)
    | inr (c, e) ↦ rw (e, eligible_of) (h rank i c e, All-eligible_of P candidate h (rank + 1) is)
  ]

  abbrev tokens : List T → ℕ
  tokens = total_tokens tokens_of text_of ranked

  abbrev bytes : List T → ℕ
  bytes = total_text_bytes tokens_of text_of ranked

  -- What is selected behind `count` items with their tokens and bytes, within the limits.
  pub record IsSelected (limits : Limits) (count used_tokens used_text_bytes : ℕ) (cs : List T)
      (s : List T × ℕ) : Type 0 where
    pub counted : length s.0 + s.1 ≡ length cs
    pub items : count + length s.0 ≤ limits.max_items
    pub tokens_in : used_tokens + tokens s.0 ≤ limits.max_tokens
    pub bytes_in : used_text_bytes + bytes s.0 ≤ max_total_text_bytes

  pub select-IsSelected :
      (limits : Limits) (count used_tokens used_text_bytes : ℕ) (cs : List T)
      → count ≤ limits.max_items
      → used_tokens ≤ limits.max_tokens
      → used_text_bytes ≤ max_total_text_bytes
      → IsSelected limits count used_tokens used_text_bytes cs
          (select tokens_of text_of ranked limits count used_tokens used_text_bytes cs)
  unfolding select total_tokens total_text_bytes
  select-IsSelected limits count t b [] hc ht hb = ground arith
  select-IsSelected limits count t b (c ∷ cs) hc ht hb = ground (
    arith,
    select-IsSelected limits (count + 1) (t + tokens_of c) (b + utf8_length (text_of c)) cs,
  )

  pub All-select :
      (P : T → Type 0) (limits : Limits) (count used_tokens used_text_bytes : ℕ) (cs : List T)
      → All P cs
      → All P (select tokens_of text_of ranked limits count used_tokens used_text_bytes cs).0
  unfolding select
  All-select P limits count t b [] h = tt
  All-select P limits count t b (c ∷ cs) h =
      elim (Bool-cases (
        leb limits.max_items count
        || ltb limits.max_tokens (t + tokens_of c)
        || ltb max_total_text_bytes (b + utf8_length (text_of c)))) [
          | inl e ↦ rw (e, select) tt
          | inr e ↦
              rw (e, select)
                (
                  h.0,
                  All-select P limits (count + 1) (t + tokens_of c) (b + utf8_length (text_of c)) cs
                      h.1,
                )
        ]

  -- Ranks are no part of what is measured.
  module _ (same_tokens : (n : ℕ) (c : T) → tokens_of (ranked n c) ≡ tokens_of c)
      (same_text : (n : ℕ) (c : T) → text_of (ranked n c) ≡ text_of c) where
    pub rank_from-measures :
        (n : ℕ) (cs : List T)
        → (length (rank_from tokens_of text_of ranked n cs) ≡ length cs)
          × (tokens (rank_from tokens_of text_of ranked n cs) ≡ tokens cs)
          × (bytes (rank_from tokens_of text_of ranked n cs) ≡ bytes cs)
    unfolding rank_from total_tokens total_text_bytes
    rank_from-measures n [] = (refl, refl, refl)
    rank_from-measures n (c ∷ cs) =
        ground
          (arith, rank_from-measures (n + 1) cs, same_tokens n c, ap utf8_length (same_text n c))

  pub All-rank_from :
      (P : T → Type 0)
      → ((n : ℕ) (c : T) → P c → P (ranked n c))
      → (n : ℕ) (cs : List T) → All P cs
      → All P (rank_from tokens_of text_of ranked n cs)
  unfolding rank_from
  All-rank_from P k n [] h = tt
  All-rank_from P k n (c ∷ cs) h = (k n c h.0, All-rank_from P k (n + 1) cs h.1)

  pub pop-measures :
      (cs : List T)
      → (length (pop cs) ≡ length cs - 1)
        × (tokens (pop cs) ≤ tokens cs)
        × (bytes (pop cs) ≤ bytes cs)
  unfolding pop total_tokens total_text_bytes
  pop-measures [] = ground arith
  pop-measures (c ∷ []) = ground arith
  pop-measures (c ∷ d ∷ cs) = ground (arith, pop-measures (d ∷ cs))

pub All-pop : {T : Type 0} (P : T → Type 0) (cs : List T) → All P cs → All P (pop cs)
unfolding pop
All-pop P [] h = tt
All-pop P (c ∷ []) h = tt
All-pop P (c ∷ d ∷ cs) h = (h.0, All-pop P (d ∷ cs) h.1)
