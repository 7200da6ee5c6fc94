-- ===== src/Client/Requests.antt =====
-- A curate request of src/memoryos_lite/curator/graph.py with the client of
-- src/memoryos_lite/curator/llm.py.
use memry_os_lite.Prelude.{ℕ, ◌≤◌, ◌<◌, ◌≡◌, inr}
use memry_os_lite.Unicode.{Unicode}
use memry_os_lite.Json.{Json}
use memry_os_lite.Client.{ChatMessage, Provider, retries}
use memry_os_lite.Client.Attempts.{IsRetryable}

-- The provider responds to one of the first attempts, and those before may be retried.
pub record IsResponsive (provider : Provider) : Type 0 where
  pub index : ℕ
  pub message : ChatMessage
  pub in_range : index ≤ retries
  pub response : provider index ≡ inr message
  pub before : (i : ℕ) → i < index → IsRetryable (provider i)
