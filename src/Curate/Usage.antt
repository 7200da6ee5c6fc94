-- ===== src/Curate/Usage.antt =====
-- `CurateAttempt` and `CurateUsage.total` of src/memoryos_lite/curator/curate.py: the tokens of all
-- provider attempts of a request.
use memry_os_lite.Prelude.{
  ℕ, ◌+◌, ◌≡◌, refl, arith, Bool, ◌&&◌, Option, or_else, is_some, not, if◌then◌else◌, List, [], ◌∷◌,
  each, keep, length,
}

pub data Outcome : Type 0 where
  ok timeout error : Outcome

pub record CurateAttempt : Type 0 where
  pub outcome : Outcome
  pub prompt_tokens : Option ℕ
  pub completion_tokens : Option ℕ
  pub total_tokens : Option ℕ

pub record CurateUsage : Type 0 where
  pub attempts : ℕ
  pub unmetered_attempts : ℕ
  pub prompt_tokens : ℕ
  pub completion_tokens : ℕ
  pub total_tokens : ℕ

-- One round of the loop of `total`.
unfoldable pub add_attempt : CurateUsage → CurateAttempt → CurateUsage
add_attempt usage attempt = record usage {
  unmetered_attempts =
      usage.unmetered_attempts
      + (if not (is_some attempt.total_tokens) && not (is_some attempt.prompt_tokens)
          then 1
          else 0);
  prompt_tokens = usage.prompt_tokens + or_else attempt.prompt_tokens 0;
  completion_tokens = usage.completion_tokens + or_else attempt.completion_tokens 0;
  total_tokens = usage.total_tokens + or_else attempt.total_tokens 0;
}

abbrev usage_of : ℕ → CurateUsage
usage_of attempts = record {
  attempts = attempts;
  unmetered_attempts = 0;
  prompt_tokens = 0;
  completion_tokens = 0;
  total_tokens = 0;
}

unfoldable pub total_usage : List CurateAttempt → CurateUsage
unfolding add_attempt
total_usage attempts = each add_attempt (usage_of (length attempts)) attempts

-- `sum(field(a) for a in attempts)`
unfoldable pub sum_of : (CurateAttempt → ℕ) → List CurateAttempt → ℕ
sum_of field [] = 0
sum_of field (a ∷ attempts) = field a + sum_of field attempts

abbrev pub is_unmetered : CurateAttempt → Bool
is_unmetered a = not (is_some a.total_tokens) && not (is_some a.prompt_tokens)

-- The usage of attempts: how many they are, how many report neither a total nor prompt tokens, and
-- the sums of what they report.
pub record IsTotal (attempts : List CurateAttempt) (usage : CurateUsage) : Type 0 where
  pub all_counted : usage.attempts ≡ length attempts
  pub unmetered : usage.unmetered_attempts ≡ length (keep is_unmetered attempts)
  pub prompts : usage.prompt_tokens ≡ sum_of (λ a. or_else a.prompt_tokens 0) attempts
  pub completions : usage.completion_tokens ≡ sum_of (λ a. or_else a.completion_tokens 0) attempts
  pub totals : usage.total_tokens ≡ sum_of (λ a. or_else a.total_tokens 0) attempts

total_from :
    (usage : CurateUsage) (xs : List CurateAttempt)
    → ((each add_attempt usage xs).attempts ≡ usage.attempts)
      × ((each add_attempt usage xs).unmetered_attempts
          ≡ usage.unmetered_attempts + length (keep is_unmetered xs))
      × ((each add_attempt usage xs).prompt_tokens
          ≡ usage.prompt_tokens + sum_of (λ a. or_else a.prompt_tokens 0) xs)
      × ((each add_attempt usage xs).completion_tokens
          ≡ usage.completion_tokens + sum_of (λ a. or_else a.completion_tokens 0) xs)
      × ((each add_attempt usage xs).total_tokens
          ≡ usage.total_tokens + sum_of (λ a. or_else a.total_tokens 0) xs)
unfolding add_attempt sum_of
total_from usage [] = (refl, omega arith, omega arith, omega arith, omega arith)
total_from usage (x ∷ xs) =
    let (n, u, p, c, t) = total_from (add_attempt usage x) xs in
    (n, ground arith, omega arith, omega arith, omega arith)

-- `CurateUsage.total` counts the attempts, and as unmetered those that report neither a total nor
-- prompt tokens (also one that reports only completion tokens), and sums the tokens that are
-- reported, a missing number as 0.
pub total_usage-IsTotal : (attempts : List CurateAttempt) → IsTotal attempts (total_usage attempts)
unfolding total_usage
total_usage-IsTotal attempts =
    let (n, u, p, c, t) = total_from (usage_of (length attempts)) attempts in
    record {
      all_counted = n;
      unmetered = omega arith;
      prompts = omega arith;
      completions = omega arith;
      totals = omega arith;
    }
