-- ===== src/Budget.antt =====
-- memoryos_eval/memory/budget.py: the budget of a context, between the floor and the ceiling of the
-- settings.
use memry_os_lite.Prelude.{ℕ, ◌+◌, ◌*◌, ◌≤◌, min, max, arith}

pub record Settings : Type 0 where
  pub rot_safe_budget : ℕ
  pub hard_limit : ℕ

-- `compute`, of the tokens of the task and the number of messages
unfoldable pub compute : Settings → ℕ → ℕ → ℕ
compute settings task_tokens messages =
    let floor = settings.rot_safe_budget in
    let task_pressure = min task_tokens 500 in
    let message_pressure = min (messages * 20) 400 in
    min (max (floor + task_pressure + message_pressure) floor) settings.hard_limit

-- The budget never passes the ceiling, reaches the lower of the floor and the ceiling, is at most
-- 900 above the floor, and does not fall when the task or the session grows.
pub compute_bounds :
    (s : Settings) (t t' m m' : ℕ)
    → t ≤ t'
    → m ≤ m'
    → (compute s t m ≤ s.hard_limit)
      × (min s.rot_safe_budget s.hard_limit ≤ compute s t m)
      × (compute s t m ≤ s.rot_safe_budget + 900)
      × (compute s t m ≤ compute s t' m')
unfolding compute
compute_bounds s t t' m m' h k = omega arith
