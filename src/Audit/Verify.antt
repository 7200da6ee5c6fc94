-- ===== src/Audit/Verify.antt =====
-- What `verify` lets through, and the bounds of an audit.
use mathlib.Core.Path.{subst}
use memry_os_lite.Prelude.{
  ℕ, ◌+◌, ◌≤◌, ◌≡◌, refl, sym, ◌∙◌, arith, Text, codes, Bool, true, false, ◌&&◌, ◌||◌, Bool-cases,
  Option-cases, inl, inr, some, or_else, List, [], ◌∷◌, each, each_inv_all, any, All, All-append,
  length, length-append, take, length-take, Dict, get, put, get-put, elem, teq, teq_iff, occurs,
  strip,
}
use memry_os_lite.Json.{Json, obj, Fields, get_field, as_str, as_obj}
use memry_os_lite.Floats.{Floats}
use memry_os_lite.Audit.{
  AuditItem, AuditRequest, AuditFlag, AuditResponse, Outside, Verified, is_dep, quote_chars, texts,
  is_quote, verify_step, verify, run_audit, expand_node, stripped_queries, list_of, fields_of,
  judge_node, retrieve_node, expansions_count,
}

-- Some item has the id of a flag, and its text holds the quote.
abbrev pub quotes_item : List AuditItem → Text → Text → Bool
quotes_item items id quote = any (λ i. teq id i.id && occurs quote i.text) items

texts-quotes :
    (items : List AuditItem) (d : Dict Text) (id quote : Text)
    → occurs quote (or_else (get (each (λ d i. put d i.id i.text) d items) id) []) ≡ true
    → (quotes_item items id quote || occurs quote (or_else (get d id) [])) ≡ true
texts-quotes [] d id quote h = ground arith
texts-quotes (i ∷ items) d id quote h =
    ground (arith, texts-quotes items (put d i.id i.text) id quote h, get-put d i.id id i.text)

no-occurs : (text quote : Text) → is_quote text quote ≡ true → occurs quote [] ≡ false
unfolding is_quote strip occurs
no-occurs text [] h = absurd (ground arith)
no-occurs text (c ∷ quote) h = refl

is_quote-occurs : (text quote : Text) → is_quote text quote ≡ true → occurs quote text ≡ true
unfolding is_quote
is_quote-occurs text quote h = ground arith

is_quote-length : (text quote : Text) → is_quote text quote ≡ true → length quote ≤ quote_chars + 20
unfolding is_quote
is_quote-length text quote h = ground arith

is_quote-item :
    (items : List AuditItem) (id quote : Text)
    → is_quote (or_else (get (texts items) id) []) quote ≡ true
    → quotes_item items id quote ≡ true
unfolding texts get
is_quote-item items id quote h =
    let found =
      texts-quotes items [] id quote
        (is_quote-occurs (or_else (get (texts items) id) []) quote h) in
    let nowhere = no-occurs (or_else (get (texts items) id) []) quote h in ground arith

module _ (items : List AuditItem) (candidates : List Text) where
  -- A flag is for a candidate, its quote is an exact substring of the text of the item, and has at
  -- most `quote_chars + 20` characters.
  pub record IsFlag (a : AuditFlag) : Type 0 where
    pub candidate : elem a.id candidates ≡ true
    pub quotes : quotes_item items a.id a.quote ≡ true
    pub short : length a.quote ≤ quote_chars + 20

  abbrev AreFlags : Verified → Type 0
  AreFlags r = All IsFlag r.flags

  verify_step-AreFlags :
      (is_one : Text → Bool) (verdicts : Fields) (r : Verified) (id : Text)
      → elem id candidates ≡ true
      → AreFlags r
      → AreFlags (verify_step is_one (texts items) verdicts r id)
  unfolding verify_step
  verify_step-AreFlags is_one verdicts r id here flags =
      elim (Option-cases (as_obj (get_field id verdicts))) [
        | inl e ↦ rw (verify_step, e) flags
        | inr (v, e) ↦ elim (Bool-cases (is_dep is_one (get_field (codes "dep") v))) [
          | inr d ↦ rw (verify_step, e, d) flags
          | inl d ↦ elim (Option-cases (as_str (get_field (codes "quote") v))) [
            | inl q ↦ rw (verify_step, e, d, q) flags
            | inr (quote, q) ↦
                elim (Bool-cases (is_quote (or_else (get (texts items) id) []) quote)) [
                  | inr f ↦ rw (verify_step, e, d, q, f) flags
                  | inl f ↦
                      rw (verify_step, e, d, q, f)
                        (All-append IsFlag r.flags (record { id = id; quote = quote } ∷ []) flags (
                          record {
                            candidate = here;
                            quotes = is_quote-item items id quote f;
                            short = is_quote-length (or_else (get (texts items) id) []) quote f;
                          },
                          tt,
                        ))
                ]
          ]
        ]
      ]

All-elem : (xs : List Text) → All (λ x. elem x xs ≡ true) xs
unfolding elem
All-elem xs = go xs (λ x h. h)
  where
    go :
        (ys : List Text)
        → ((x : Text) → elem x ys ≡ true → elem x xs ≡ true)
        → All (λ x. elem x xs ≡ true) ys
    go [] h = tt
    go (y ∷ ys) h = (h y (ground (arith, teq_iff y y)), go ys (λ x e. h x (ground arith)))

one-length :
    (is_one : Text → Bool) (text : Dict Text) (verdicts : Fields) (r : Verified) (id : Text)
    → length (verify_step is_one text verdicts r id).flags
        + (verify_step is_one text verdicts r id).dropped
      ≤ length r.flags + r.dropped + 1
unfolding verify_step
one-length is_one text verdicts r id = elim (Option-cases (as_obj (get_field id verdicts))) [
  | inl e ↦ rw (verify_step, e) (omega arith)
  | inr (v, e) ↦ elim (Bool-cases (is_dep is_one (get_field (codes "dep") v))) [
    | inr d ↦ rw (verify_step, e, d) (omega arith)
    | inl d ↦ elim (Option-cases (as_str (get_field (codes "quote") v))) [
      | inl q ↦ rw (verify_step, e, d, q) (omega arith)
      | inr (quote, q) ↦ elim (Bool-cases (is_quote (or_else (get text id) []) quote)) [
        | inr f ↦ rw (verify_step, e, d, q, f) (omega arith)
        | inl f ↦ rw (verify_step, e, d, q, f, length-append) (omega arith)
      ]
    ]
  ]
]

-- Each candidate is flagged, dropped or neither.
verify-length :
    (is_one : Text → Bool) (text : Dict Text) (verdicts : Fields) (r : Verified) (ids : List Text)
    → length (each (verify_step is_one text verdicts) r ids).flags
        + (each (verify_step is_one text verdicts) r ids).dropped
      ≤ length r.flags + r.dropped + length ids
verify-length is_one text verdicts r [] = omega arith
verify-length is_one text verdicts r (id ∷ ids) = omega (
  arith,
  verify-length is_one text verdicts (verify_step is_one text verdicts r id) ids,
  one-length is_one text verdicts r id,
)

verify-AreFlags :
    (is_one : Text → Bool) (items : List AuditItem) (candidates : List Text) (verdicts : Json)
    → All (IsFlag items candidates) (verify is_one items candidates verdicts).flags
      × (length (verify is_one items candidates verdicts).flags
            + (verify is_one items candidates verdicts).dropped
          ≤ length candidates)
unfolding verify
verify-AreFlags is_one items candidates (obj verdicts) =
    let begin : Verified = record { flags = []; dropped = 0 } in
    (
      each_inv_all (λ id. elem id candidates ≡ true) (AreFlags items candidates)
          (verify_step is_one (texts items) verdicts)
          (λ r id here flags. verify_step-AreFlags items candidates is_one verdicts r id here flags)
          begin candidates (All-elem candidates) tt,
      omega (arith, verify-length is_one (texts items) verdicts begin candidates),
    )
verify-AreFlags is_one items candidates _ = (tt, omega arith)

take-le : (n : ℕ) (xs : List Text) → length (take n xs) ≤ n
take-le n xs = omega (arith, length-take n xs)

module _ (f : Floats) (o : Outside f) (request : AuditRequest) where
  expand_node-bound :
      {queries : List Text} {calls : ℕ}
      → expand_node f o request ≡ some (queries, calls)
      → (length queries ≤ expansions_count) × (calls ≤ 1)
  unfolding expand_node
  expand_node-bound {queries} {calls} made = ground (
    arith,
    λ (reply : Json).
        length-take expansions_count
          (stripped_queries (list_of (get_field (codes "queries") (fields_of reply)))),
  )

  judge_node-bound :
      (calls : ℕ) (ids : List Text) {verdicts : Json} {calls' : ℕ}
      → judge_node f o request calls ids ≡ some (verdicts, calls')
      → calls' ≤ calls + 1
  unfolding judge_node
  judge_node-bound calls [] made = ground arith
  judge_node-bound calls (c ∷ cs) {verdicts} {calls'} made = ground arith

  retrieve_node-bound :
      (expansions : List Text)
      → length (retrieve_node f o request expansions).candidates ≤ request.k
  unfolding retrieve_node
  retrieve_node-bound expansions = take-le request.k _

-- What an audit promises.
pub record IsSound (request : AuditRequest) (response : AuditResponse) : Type 0 where
  pub flags : All (IsFlag request.items response.candidates) response.flagged
  pub counted : length response.flagged + response.dropped_quotes ≤ length response.candidates
  pub judged : response.judged ≡ length response.candidates
  pub at_most : length response.candidates ≤ request.k
  pub expanded : response.expanded ≤ expansions_count
  pub calls : response.llm_calls ≤ 2

-- Each flag of a response of `run_audit` is for one of its candidates, and quotes at most
-- `quote_chars + 20` characters of the text of an item with that id, exactly. Flags and dropped
-- quotes together are not more than the candidates, which are at most `k`; at most
-- `expansions_count` queries come from the LLM, which is called at most twice.
pub run_audit-IsSound :
    (f : Floats) (o : Outside f) (request : AuditRequest) {response : AuditResponse}
    → run_audit f o request ≡ some response
    → IsSound request response
unfolding run_audit
run_audit-IsSound f o request {response} made = elim (Option-cases (expand_node f o request)) [
  | inl e ↦ absurd (ground arith)
  | inr ((expansions, calls), e) ↦
      let r = retrieve_node f o request expansions in
      elim (Option-cases (judge_node f o request calls r.candidates)) [
        | inl j ↦ absurd (ground arith)
        | inr ((verdicts, calls'), j) ↦
            let v = verify o.equals_one request.items r.candidates verdicts in
            let whole : AuditResponse = record {
              flagged = v.flags;
              candidates = r.candidates;
              queries = r.queries;
              expanded = length expansions;
              dense = r.dense;
              judged = length r.candidates;
              dropped_quotes = v.dropped;
              llm_calls = calls';
            } in
            let same : some response ≡ some whole = sym made ∙ rw (run_audit, e, j) refl in
            let bound = expand_node-bound f o request e in
            subst (λ r. IsSound request (or_else r whole)) (sym same)
              (record {
                flags = (verify-AreFlags o.equals_one request.items r.candidates verdicts).0;
                counted = (verify-AreFlags o.equals_one request.items r.candidates verdicts).1;
                judged = refl;
                at_most = retrieve_node-bound f o request expansions;
                expanded = bound.0;
                calls = omega (arith, judge_node-bound f o request calls r.candidates j, bound.1);
              })
      ]
]
