-- ===== src/Client/Attempts.antt =====
-- src/memoryos_lite/curator/llm.py, `ChatCuratorLLM._invoke`: which attempts it makes.
use memry_os_lite.Prelude.{
  ℕ, zero, suc, ◌+◌, ◌≤◌, ◌<◌, ◌≡◌, refl, ap, arith, true, false, leb, ltb, Bool-cases,
  Either-cases, some, ◌⊎◌, inl, inr, List, [], ◌∷◌, take, drop,
}
use mathlib.Core.Path.{subst}
use memry_os_lite.Client.{
  Failure, ChatMessage, LlmAttempt, Provider, classify, attempt_of, retries, retry_backoff_s,
  backoff, Invoked, invoke_from, invoke,
}

abbrev pub IsRetryable : Failure ⊎ ChatMessage → Type 0
IsRetryable (inl failure) = (classify failure).1 ≡ true
IsRetryable (inr message) = true ≡ false

-- The attempts at the indices from the first on, as many as are asked for.
unfoldable pub attempts_from : Provider → ℕ → ℕ → List LlmAttempt
attempts_from provider zero k = []
attempts_from provider (suc n) k = attempt_of (provider k) ∷ attempts_from provider n (suc k)

-- What a run of the loop from an index on is: it makes the attempts up to a last one, each but the
-- last failed and could be retried, the last ends it, and one pause lies between two attempts.
pub record IsTried (provider : Provider) (k : ℕ) (run : Invoked) : Type 0 where
  pub last : ℕ
  pub pauses : ℕ
  pub counted : k + pauses ≡ last
  pub in_range : last ≤ retries
  pub retried : (i : ℕ) → k ≤ i → i < last → IsRetryable (provider i)
  pub ends : IsRetryable (provider last) → last ≡ retries
  pub result_eq : run.result ≡ some (provider last)
  pub attempts_eq : run.attempts ≡ attempts_from provider (suc pauses) k
  pub sleeps_eq : run.sleeps ≡ take pauses (drop k retry_backoff_s)

-- The pause behind an attempt that can be followed by another.
drop-backoff :
    (k : ℕ)
    → k < retries
    → (s : ℕ) × (backoff k retry_backoff_s ≡ some s)
      × (drop k retry_backoff_s ≡ s ∷ drop (suc k) retry_backoff_s)
unfolding backoff
drop-backoff zero h = (1, refl, refl)
drop-backoff (suc zero) h = (2, refl, refl)
drop-backoff (suc (suc k)) h = absurd (omega (arith, h))

-- A run that ends with its first attempt.
one-IsTried :
    (provider : Provider) (k : ℕ)
    → k ≤ retries
    → (IsRetryable (provider k) → k ≡ retries)
    → IsTried provider k (record {
      attempts = attempt_of (provider k) ∷ [];
      sleeps = [];
      result = some (provider k);
    })
unfolding attempts_from
one-IsTried provider k hk he = record {
  last = k;
  pauses = 0;
  counted = omega arith;
  in_range = hk;
  retried = λ i h l. absurd (omega (arith, h, l));
  ends = he;
  result_eq = refl;
  attempts_eq = refl;
  sleeps_eq = refl;
}

-- A run that goes on behind an attempt that can be retried.
next-IsTried :
    (provider : Provider) (k s : ℕ) (rest : Invoked)
    → IsRetryable (provider k)
    → drop k retry_backoff_s ≡ s ∷ drop (suc k) retry_backoff_s
    → IsTried provider (suc k) rest
    → IsTried provider k (record {
      attempts = attempt_of (provider k) ∷ rest.attempts;
      sleeps = s ∷ rest.sleeps;
      result = rest.result;
    })
unfolding attempts_from
next-IsTried provider k s rest hr hd t = record {
  last = t.last;
  pauses = suc t.pauses;
  counted = omega (arith, t.counted);
  in_range = t.in_range;
  retried = λ i h l. elim (Bool-cases (leb i k)) [
    | inl e ↦ subst (λ j. IsRetryable (provider j)) (ground (arith, e, h)) hr
    | inr e ↦ t.retried i (ground (arith, e)) l
  ];
  ends = t.ends;
  result_eq = t.result_eq;
  attempts_eq = ap (◌∷◌ (attempt_of (provider k))) t.attempts_eq;
  sleeps_eq = rw (hd, t.sleeps_eq) refl;
}

-- The loop ends with an attempt that is not followed by another.
stop-IsTried :
    (provider : Provider) (k : ℕ) (o : Failure ⊎ ChatMessage)
    → provider k ≡ o
    → k ≤ retries
    → (IsRetryable o → k ≡ retries)
    → IsTried provider k
        (record { attempts = attempt_of (provider k) ∷ []; sleeps = []; result = some o })
stop-IsTried provider k o e hk =
    subst
      (λ o.
        (IsRetryable o → k ≡ retries)
        → IsTried provider k
            (record { attempts = attempt_of (provider k) ∷ []; sleeps = []; result = some o }))
      e (one-IsTried provider k hk)

-- The loop goes on behind a failure that can be retried.
go_on-IsTried :
    (provider : Provider) (k s : ℕ) (rest : Invoked) (o : Failure ⊎ ChatMessage)
    → provider k ≡ o
    → IsRetryable o
    → drop k retry_backoff_s ≡ s ∷ drop (suc k) retry_backoff_s
    → IsTried provider (suc k) rest
    → IsTried provider k (record {
      attempts = attempt_of (provider k) ∷ rest.attempts;
      sleeps = s ∷ rest.sleeps;
      result = rest.result;
    })
go_on-IsTried provider k s rest o e hr hd t =
    subst
      (λ o.
        IsRetryable o
        → IsTried provider k (record {
          attempts = attempt_of (provider k) ∷ rest.attempts;
          sleeps = s ∷ rest.sleeps;
          result = rest.result;
        }))
      e (λ h. next-IsTried provider k s rest h hd t) hr

round-IsTried :
    (provider : Provider) (left k : ℕ)
    → k ≤ retries
    → (k < retries → IsTried provider (suc k) (invoke_from provider left (suc k)))
    → IsTried provider k (invoke_from provider (suc left) k)
unfolding invoke_from
round-IsTried provider left k h rest = elim (Either-cases (provider k)) [
  | inr (message, e) ↦
      rw (invoke_from, e)
        (stop-IsTried provider k (inr message) e h (λ f. absurd (ground (arith, f))))
  | inl (failure, e) ↦ elim (Bool-cases ((classify failure).1)) [
    | inr r ↦
        rw (invoke_from, e, r)
          (stop-IsTried provider k (inl failure) e h (λ f. absurd (ground (arith, f, r))))
    | inl r ↦ elim (Bool-cases (ltb k retries)) [
      | inr f ↦
          rw (invoke_from, e, r, f)
            (stop-IsTried provider k (inl failure) e h (λ _. ground (arith, f, h)))
      | inl f ↦
          let pause = drop-backoff k (ground (arith, f)) in
          rw (invoke_from, e, r, f, pause.1)
            (go_on-IsTried provider k pause.0 (invoke_from provider left (suc k)) (inl failure) e r
              pause.2 (rest (ground (arith, f))))
    ]
  ]
]

-- While there are attempts left for the retries, the loop makes the attempts that it should.
invoke_from-IsTried :
    (provider : Provider) (left k : ℕ)
    → left + k ≡ retries
    → IsTried provider k (invoke_from provider (suc left) k)
invoke_from-IsTried provider zero k h =
    round-IsTried provider 0 k (omega (arith, h)) (λ l. absurd (omega (arith, h, l)))
invoke_from-IsTried provider (suc left) k h =
    round-IsTried provider (suc left) k (omega (arith, h))
      (λ _. invoke_from-IsTried provider left (suc k) (omega (arith, h)))

-- Whatever the provider does, a call makes at most three attempts, one behind the other: each but
-- the last failed in a way that may be retried (a dropped connection, 429 or 5xx), and the last is
-- a response, a failure that may not be retried, or the third. The call ends with what the last
-- attempt gave, never otherwise. Every attempt is recorded in its order, with its outcome and the
-- usage that it reported, and the pauses are those of `RETRY_BACKOFF_S`, one between two attempts.
pub invoke-IsTried : (provider : Provider) → IsTried provider 0 (invoke provider)
unfolding invoke
invoke-IsTried provider = invoke_from-IsTried provider retries 0 refl
