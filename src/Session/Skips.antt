-- ===== src/Session/Skips.antt =====
-- Runs of the session curator while the provider of the LLM is down.
use memry_os_lite.Prelude.{ℕ, ◌<◌, ◌≡◌, ◌⊎◌, Text, Bool, true, false, List, length}
use memry_os_lite.Unicode.{Unicode}
use memry_os_lite.Curate.Consolidate.{Hashing}
use memry_os_lite.Curate.Loop.{Llm, Prompt, Answer}
use memry_os_lite.Session.Tables.{Message, Store, Host}
use memry_os_lite.Session.Run.{fail_window, watermark}
use memry_os_lite.Session.Variables.{
  Settings, Curator, LoopState, Next, finished, raised, attempts, count_request,
}
use memry_os_lite.Session.Failing.{IsRegistered}

-- The provider raises an error at every call.
abbrev pub IsDown : (ℕ → Llm) → Type 0
IsDown llm = (k n : ℕ) (prompt : Prompt) → llm k n prompt ≡ Answer.llm_error

module _ (host : Host) (settings : Settings) (h : Hashing) (u : Unicode) (session_id : Text)
    (llm : ℕ → Llm) (down : IsDown llm) (has : settings.has_langgraph ≡ true) where
  -- A round of a forced run: the request is refused, or the failure of the window is registered.
  abbrev IsDownNext : LoopState → List Message → Text → Next → Type 0
  IsDownNext s window run_id n =
      (n ≡ raised (count_request s))
      ⊎ (n ≡ finished (fail_window host settings session_id (count_request s) window run_id false))

  -- What a forced run leaves that returns a result.
  abbrev FailedRun : Curator → Curator → Type 0
  FailedRun before after =
      (window : List Message) × (skip : Bool) × (0 < length window)
      × IsRegistered host settings session_id (watermark before.store session_id) window before
          after skip

  -- The attempts at the window behind the watermark.
  abbrev pub tried : Curator → ℕ
  tried c = attempts c.window_failures (session_id, watermark c.store session_id)
