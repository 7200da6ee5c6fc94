-- ===== src/Ask/Found.antt =====
-- The evidence in a response of `memory_ask`.
use mathlib.Core.Path.{subst}
use memry_os_lite.Prelude.{
  ℕ, zero, suc, ◌+◌, ◌≤◌, ◌≡◌, refl, sym, ap, ◌∙◌, arith, Text, Bool, true, false, not, ltb,
  Bool-cases, Option-cases, Either-cases, inl, inr, some, List, [], ◌∷◌, ◌++◌, map, map-append,
  keep, each, each_inv, All, All-append, length, length-append, append-nil, append_assoc, elem,
  teq_iff, count, count-append, count-one, elem_iff_count,
}
use memry_os_lite.Unicode.{Unicode}
use memry_os_lite.Supersede.{SupersededQuote}
use memry_os_lite.Ask.{
  AskRequest, AskLlm, AskResponse, AskState, AskItem, Chosen, EvidenceItem, FoundItem, Stopped,
  grade, found_step, retrieve_node, rewrite, rounds, next_state, first_state, ordered, choose_step,
  choose, run_ask,
}

abbrev pub id_of : FoundItem → Text
id_of f = f.item.item_id

abbrev pub ids : List FoundItem → List Text
ids = map id_of

abbrev pub item_ids : List AskItem → List Text
item_ids = map (λ a. id_of a.found)

-- No id is there twice.
abbrev pub AreDistinct : List Text → Type 0
AreDistinct xs = (x : Text) → count x xs ≤ 1

unfoldable pub total : List AskItem → ℕ
total [] = 0
total (a ∷ items) = a.found.item.estimated_tokens + total items

total-append : (xs ys : List AskItem) → total (xs ++ ys) ≡ total xs + total ys
unfolding total
total-append [] ys = omega arith
total-append (a ∷ xs) ys = omega (arith, total-append xs ys)

distinct-append :
    (xs : List Text) (y : Text) → elem y xs ≡ false → AreDistinct xs → AreDistinct (xs ++ y ∷ [])
unfolding count
distinct-append xs y new h x =
    ground (arith, h x, count-append x xs (y ∷ []), count-one x y, teq_iff x y, elem_iff_count y xs)

module _ (u : Unicode) (retrieve : Text → List EvidenceItem) (marks : List SupersededQuote) where
  found_step-AreDistinct :
      (query : Text) (found : List FoundItem) (i : EvidenceItem)
      → AreDistinct (ids found)
      → AreDistinct (ids (found_step u retrieve marks query found i))
  unfolding found_step
  found_step-AreDistinct query found i h x = elim (Bool-cases (elem i.item_id (ids found))) [
    | inl e ↦ rw (e, found_step) (h x)
    | inr e ↦
        rw (found_step, e, map-append id_of found) (distinct-append (ids found) i.item_id e h x)
  ]

  retrieve_node-AreDistinct :
      (query : Text) (found : List FoundItem)
      → AreDistinct (ids found)
      → AreDistinct (ids (retrieve_node u retrieve marks query found))
  unfolding retrieve_node
  retrieve_node-AreDistinct query found h =
      each_inv (λ fs. AreDistinct (ids fs)) (found_step u retrieve marks query)
        (found_step-AreDistinct query) found (retrieve query) h

  module _ (lower : Text → Text) (llm : AskLlm) (request : AskRequest) where
    rounds-AreDistinct :
        (fuel : ℕ) (s : AskState) {out : AskState × Stopped}
        → rounds u lower retrieve marks llm request fuel s ≡ some out
        → AreDistinct (ids s.found)
        → AreDistinct (ids out.0.found)
    unfolding rounds
    rounds-AreDistinct zero s made h = cc
    rounds-AreDistinct (suc fuel) s {out} made h =
        elim (Bool-cases (grade lower request.question s.found)) [
          | inl e ↦ let same : out.0.found ≡ s.found = ground arith in rw same h
          | inr e ↦ elim (Option-cases llm) [
            | inl l ↦ let same : out.0.found ≡ s.found = ground arith in rw same h
            | inr (complete, l) ↦ elim (Bool-cases (ltb request.max_rounds s.retrievals)) [
              | inl m ↦ let same : out.0.found ≡ s.found = ground arith in rw same h
              | inr m ↦
                  elim (Either-cases (rewrite u lower retrieve marks llm request complete s)) [
                    | inl (why, r) ↦ let same : out.0.found ≡ s.found = ground arith in rw same h
                    | inr (query, r) ↦
                        let s' : AskState = next_state u lower retrieve marks llm request s query in
                        let next : rounds u lower retrieve marks llm request fuel s' ≡ some out =
                          rw (rounds, e, l, m, r) at made in
                        rounds-AreDistinct fuel s' next (retrieve_node-AreDistinct query s.found h)
                  ]
            ]
          ]
        ]

-- What is chosen, and what is still to come.
choose_step-item_ids :
    (budget : ℕ) (c : Chosen) (f : FoundItem) (x : Text)
    → count x (item_ids (choose_step budget c f).items)
      ≤ count x (item_ids c.items) + count x (id_of f ∷ [])
unfolding choose_step
choose_step-item_ids budget c f x =
    elim (Bool-cases (ltb budget (c.spent + f.item.estimated_tokens))) [
      | inl e ↦ rw (choose_step, e) (omega arith)
      | inr e ↦
          rw
            (
              choose_step,
              e,
              map-append (λ (a : AskItem). id_of a.found) c.items,
              count-append x (item_ids c.items) (id_of f ∷ []),
            )
            (omega arith)
    ]

choose-item_ids :
    (budget : ℕ) (c : Chosen) (fs : List FoundItem) (x : Text)
    → count x (item_ids (each (choose_step budget) c fs).items)
      ≤ count x (item_ids c.items) + count x (ids fs)
unfolding count
choose-item_ids budget c [] x = omega arith
choose-item_ids budget c (f ∷ fs) x =
    omega (
      arith,
      choose-item_ids budget (choose_step budget c f) fs x,
      choose_step-item_ids budget c f x,
    )

count-halves :
    (fs : List FoundItem) (x : Text)
    → count x (ids (keep (λ f. not f.outdated) fs)) + count x (ids (keep (λ f. f.outdated) fs))
      ≡ count x (ids fs)
unfolding count
count-halves [] x = omega arith
count-halves (f ∷ fs) x = ground (arith, count-halves fs x)

count-ordered : (fs : List FoundItem) (x : Text) → count x (ids (ordered fs)) ≡ count x (ids fs)
count-ordered fs x =
    let current = keep (λ (f : FoundItem). not f.outdated) fs in
    let outdated = keep (λ (f : FoundItem). f.outdated) fs in
    ap (count x) (map-append id_of current outdated)
    ∙ (count-append x (ids current) (ids outdated) ∙ count-halves fs x)

-- The ranks count up from behind `n`.
abbrev pub AreRanked : ℕ → List AskItem → Type 0
AreRanked n [] = Unit
AreRanked n (a ∷ items) = (a.rank ≡ n + 1) × AreRanked (n + 1) items

AreRanked-append :
    (n : ℕ) (xs ys : List AskItem)
    → AreRanked n xs
    → AreRanked (n + length xs) ys
    → AreRanked n (xs ++ ys)
AreRanked-append n [] ys h k = subst (λ m. AreRanked m ys) (omega arith) k
AreRanked-append n (x ∷ xs) ys h k =
    (h.0, AreRanked-append (n + 1) xs ys h.1 (subst (λ m. AreRanked m ys) (omega arith) k))

-- What the loop adds to what it has chosen.
record Adds (budget : ℕ) (b : Bool) (c c' : Chosen) : Type 0 where
  more : List AskItem
  added : c'.items ≡ c.items ++ more
  kind : All (λ a. a.found.outdated ≡ b) more
  ranked : AreRanked (length c.items) more
  spent : c'.spent ≡ c.spent + total more
  within : c'.spent ≤ budget

choose_step-Adds :
    (budget : ℕ) (c : Chosen) (f : FoundItem)
    → c.spent ≤ budget
    → Adds budget f.outdated c (choose_step budget c f)
unfolding choose_step total
choose_step-Adds budget c f fits =
    elim (Bool-cases (ltb budget (c.spent + f.item.estimated_tokens))) [
      | inl e ↦ record {
        more = [];
        added = rw (choose_step, e) (sym (append-nil c.items));
        kind = tt;
        ranked = tt;
        spent = rw (choose_step, e) (omega arith);
        within = rw (choose_step, e) fits;
      }
      | inr e ↦ record {
        more = record { rank = length c.items + 1; found = f } ∷ [];
        added = rw (choose_step, e) refl;
        kind = (refl, tt);
        ranked = (refl, tt);
        spent = rw (choose_step, e) (omega arith);
        within = rw (choose_step, e) (ground arith);
      }
    ]

choose-Adds :
    (budget : ℕ) (b : Bool) (c : Chosen) (fs : List FoundItem)
    → All (λ f. f.outdated ≡ b) fs
    → c.spent ≤ budget
    → Adds budget b c (each (choose_step budget) c fs)
unfolding total
choose-Adds budget b c [] kind fits = record {
  more = [];
  added = sym (append-nil c.items);
  kind = tt;
  ranked = tt;
  spent = omega arith;
  within = fits;
}
choose-Adds budget b c (f ∷ fs) kind fits =
    let one = choose_step-Adds budget c f fits in
    let rest = choose-Adds budget b (choose_step budget c f) fs kind.1 one.within in
    record {
      more = one.more ++ rest.more;
      added =
          rest.added
          ∙ (ap (λ xs. xs ++ rest.more) one.added ∙ append_assoc c.items one.more rest.more);
      kind =
          All-append _ one.more rest.more
            (subst (λ b. All (λ a. a.found.outdated ≡ b) one.more) kind.0 one.kind) rest.kind;
      ranked = AreRanked-append (length c.items) one.more rest.more one.ranked (
          subst (λ n. AreRanked n rest.more) (ap length one.added ∙ length-append c.items one.more)
            rest.ranked);
      spent = omega (arith, rest.spent, one.spent, total-append one.more rest.more);
      within = rest.within;
    }

All-keep : (p : FoundItem → Bool) (fs : List FoundItem) → All (λ f. p f ≡ true) (keep p fs)
All-keep p [] = tt
All-keep p (f ∷ fs) = elim (Bool-cases (p f)) [
  | inl e ↦ rw (keep, e) (e, All-keep p fs)
  | inr e ↦ rw (keep, e) (All-keep p fs)
]

All-current : (fs : List FoundItem) → All (λ f. f.outdated ≡ false) (keep (λ f. not f.outdated) fs)
All-current [] = tt
All-current (f ∷ fs) = elim (Bool-cases f.outdated) [
  | inl e ↦ rw (keep, e) (All-current fs)
  | inr e ↦ rw (keep, e) (refl, All-current fs)
]

each-append :
    {A S : Type 0} (step : S → A → S) (s : S) (xs ys : List A)
    → each step s (xs ++ ys) ≡ each step (each step s xs) ys
each-append step s [] ys = refl
each-append step s (x ∷ xs) ys = each-append step (step s x) xs ys

-- Current items, then outdated ones.
abbrev pub IsCurrentFirst : List AskItem → Type 0
IsCurrentFirst items =
    (first : List AskItem) × (rest : List AskItem) × (items ≡ first ++ rest)
    × All (λ a. a.found.outdated ≡ false) first
    × All (λ a. a.found.outdated ≡ true) rest

pub record IsEvidence (budget : ℕ) (items : List AskItem) : Type 0 where
  pub distinct : AreDistinct (item_ids items)
  pub within : total items ≤ budget
  pub ranked : AreRanked 0 items
  pub current_first : IsCurrentFirst items

choose-IsEvidence :
    (budget : ℕ) (found : List FoundItem)
    → AreDistinct (ids found)
    → IsEvidence budget (choose budget found).items
unfolding choose total count
choose-IsEvidence budget found h =
    let begin : Chosen = record { items = []; spent = 0; omitted = 0 } in
    let current = keep (λ (f : FoundItem). not f.outdated) found in
    let outdated = keep (λ (f : FoundItem). f.outdated) found in
    let one = choose-Adds budget false begin current (All-current found) (omega arith) in
    let two =
      choose-Adds budget true (each (choose_step budget) begin current) outdated
        (All-keep (λ f. f.outdated) found) one.within in
    let parts : (choose budget found).items ≡ one.more ++ two.more =
      ap (λ (c : Chosen). c.items) (each-append (choose_step budget) begin current outdated)
      ∙ (two.added ∙ ap (λ xs. xs ++ two.more) one.added) in
    record {
      distinct = λ x.
          omega (arith, choose-item_ids budget begin (ordered found) x, count-ordered found x, h x);
      within =
          rw parts
            (omega (arith, total-append one.more two.more, one.spent, two.spent, two.within));
      ranked = rw parts (
          AreRanked-append 0 one.more two.more one.ranked
            (subst (λ n. AreRanked n two.more) (ap length one.added ∙ omega arith) two.ranked));
      current_first = (one.more, two.more, parts, one.kind, two.kind);
    }

-- The items of a response of `run_ask` have distinct ids, estimated tokens that are together within
-- the budget, and the ranks 1, 2, 3 and so on; the current ones come before the outdated ones.
pub run_ask-IsEvidence :
    (u : Unicode) (lower : Text → Text) (retrieve : Text → List EvidenceItem)
    (marks : List SupersededQuote) (llm : AskLlm) (request : AskRequest) {response : AskResponse}
    → run_ask u lower retrieve marks llm request ≡ some response
    → IsEvidence request.budget response.items
unfolding run_ask count
run_ask-IsEvidence u lower retrieve marks llm request {response} made =
    elim (Option-cases (
      rounds u lower retrieve marks llm request (suc request.max_rounds)
        (first_state u lower retrieve marks llm request))) [
          | inl e ↦ absurd (ground arith)
          | inr (out, e) ↦
              let same : response.items ≡ (choose request.budget out.0.found).items =
                ground arith in
              rw same (
                choose-IsEvidence request.budget out.0.found (
                  rounds-AreDistinct u retrieve marks lower llm request (suc request.max_rounds)
                    (first_state u lower retrieve marks llm request) e
                    (retrieve_node-AreDistinct u retrieve marks request.question []
                      (λ x. omega arith))))
        ]
