-- ===== src/Session/Failing.antt =====
-- `_register_window_failure` of memoryos_eval/memory/session_curator.py over the attempts at a
-- window.
use memry_os_lite.Prelude.{
  ℕ, ◌+◌, ◌≤◌, ◌<◌, ◌≡◌, ◌⊎◌, inl, inr, refl, arith, Text, Bool, true, false, leb, Bool-cases, List,
  [], ◌∷◌, length, teq_iff,
}
use memry_os_lite.Session.Store.{WindowReport, apply_curator_window, bump_curator_state}
use memry_os_lite.Session.Tables.{Message, Host}
use memry_os_lite.Session.Run.{skip_window, count_failure, register_window_failure, watermark}
use memry_os_lite.Session.Variables.{
  Settings, Curator, Failures, attempts, forget, remember, same_key, skip_after_failures,
}
use memry_os_lite.Session.Steps.{watermark-apply, watermark-bump}

same_key_refl : (key : Text × ℕ) → same_key key key ≡ true
same_key_refl key = ground (arith, teq_iff key.0 key.0)

attempts-forget : (fs : Failures) (key : Text × ℕ) → attempts (forget fs key) key ≡ 0
unfolding attempts forget
attempts-forget [] key = refl
attempts-forget ((k, n) ∷ fs) key = ground (arith, attempts-forget fs key)

attempts-remember : (fs : Failures) (key : Text × ℕ) (n : ℕ) → attempts (remember fs key n) key ≡ n
unfolding attempts remember
attempts-remember fs key n = rw (same_key_refl key) refl

module _ (host : Host) (settings : Settings) (session_id : Text) where
  -- What the failure of a window does, with the attempts that were made before: it is counted, and
  -- the watermark stays, or after the third attempt the window is passed over and its attempts are
  -- forgotten. The memories stay.
  pub record IsRegistered (seq : ℕ) (window : List Message) (before after : Curator) (skip : Bool)
      : Type 0 where
    pub memories : after.store.memories ≡ before.store.memories
    pub messages : after.store.messages ≡ before.store.messages
    pub attempt :
        ((skip ≡ false)
          × (attempts before.window_failures (session_id, seq) + 1 < skip_after_failures)
          × (attempts after.window_failures (session_id, seq)
              ≡ attempts before.window_failures (session_id, seq) + 1)
          × (watermark after.store session_id ≡ watermark before.store session_id))
        ⊎ ((skip ≡ true)
            × (skip_after_failures ≤ attempts before.window_failures (session_id, seq) + 1)
            × (attempts after.window_failures (session_id, seq) ≡ 0)
            × (watermark after.store session_id ≡ seq + length window))

  skip_window-IsRegistered :
      (curator : Curator) (seq : ℕ) (window : List Message) (run_id : Text) (report : WindowReport)
      → skip_after_failures ≤ attempts curator.window_failures (session_id, seq) + 1
      → IsRegistered seq window curator
          (skip_window host settings session_id curator seq window run_id report)
          true
  unfolding skip_window
  skip_window-IsRegistered curator seq window run_id report last = record {
    memories = unfold apply_curator_window in refl;
    messages = unfold apply_curator_window in refl;
    attempt = inr (
      refl,
      last,
      attempts-forget curator.window_failures (session_id, seq),
      watermark-apply host session_id curator.store run_id settings.model (seq + length window) []
          report,
    );
  }

  count_failure-IsRegistered :
      (curator : Curator) (seq : ℕ) (window : List Message) (report : WindowReport)
      → attempts curator.window_failures (session_id, seq) + 1 < skip_after_failures
      → IsRegistered seq window curator
          (count_failure host settings session_id curator seq
            (attempts curator.window_failures (session_id, seq) + 1)
            report)
          false
  unfolding count_failure
  count_failure-IsRegistered curator seq window report left = record {
    memories = unfold bump_curator_state in refl;
    messages = unfold bump_curator_state in refl;
    attempt = inl (
      refl,
      left,
      attempts-remember curator.window_failures (session_id, seq) _,
      watermark-bump host session_id curator.store report,
    );
  }

  pub register_window_failure-IsRegistered :
      (curator : Curator) (seq : ℕ) (window : List Message) (run_id : Text) (runs : ℕ)
      (schema_failure : Bool)
      → let r =
          register_window_failure host settings session_id curator seq window run_id runs
            schema_failure in
        IsRegistered seq window curator r.0 r.1
  unfolding register_window_failure
  register_window_failure-IsRegistered curator seq window run_id runs schema_failure =
      elim (Bool-cases
        (leb skip_after_failures (attempts curator.window_failures (session_id, seq) + 1))) [
          | inl skip ↦
              rw (skip, register_window_failure)
                (skip_window-IsRegistered curator seq window run_id _ (ground arith))
          | inr stays ↦
              rw (stays, register_window_failure)
                (count_failure-IsRegistered curator seq window _ (ground arith))
        ]
