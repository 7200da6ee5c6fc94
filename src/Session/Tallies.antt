-- ===== src/Session/Tallies.antt =====
-- The counts of `CuratorRunResult` against the table.
use memry_os_lite.Prelude.{
  ℕ, suc, ◌+◌, ◌≡◌, inl, inr, refl, ap, ◌∙◌, arith, Text, codes, Bool, leb, Bool-cases,
  Option-cases, some, List, [], ◌∷◌, length, length-append, each,
}
use memry_os_lite.Unicode.{Unicode}
use memry_os_lite.Curate.Consolidate.{Hashing}
use memry_os_lite.Session.Store.{
  Stamp, WindowReport, flip, insert_write, targets_of, apply_curator_window, count_session_messages,
}
use memry_os_lite.Session.Tables.{CuratedMemoryRow, CuratedMemoryWrite, Message, Host, Store}
use memry_os_lite.Session.Window.{WindowCounts}
use memry_os_lite.Session.Run.{fail_window, commit_window, run_session, watermark}
use memry_os_lite.Session.Variables.{Settings, Curator, CuratorRunResult, LoopState}
use memry_os_lite.Session.Rounds.{IsTallied}
use memry_os_lite.Session.Failing.{register_window_failure-IsRegistered}
use memry_os_lite.Session.Kept.{IsKept, run_windows-kept}

length-flip :
    (session_id by : Text) (rows : List CuratedMemoryRow) (target : Text)
    → length (flip session_id by rows target) ≡ length rows
unfolding flip
length-flip session_id by [] target = refl
length-flip session_id by (r ∷ rows) target = ap suc (length-flip session_id by rows target)

length-flips :
    (session_id by : Text) (rows : List CuratedMemoryRow) (targets : List Text)
    → length (each (flip session_id by) rows targets) ≡ length rows
length-flips session_id by rows [] = refl
length-flips session_id by rows (t ∷ targets) =
    length-flips session_id by (flip session_id by rows t) targets
    ∙ length-flip session_id by rows t

module _ (host : Host) where
  length-insert_write :
      (stamp : Stamp) (t : List CuratedMemoryRow × List CuratedMemoryRow × ℕ)
      (write : CuratedMemoryWrite)
      → length (insert_write host stamp t write).0 ≡ length t.0 + 1
  unfolding insert_write
  length-insert_write stamp t write =
      length-flips stamp.session_id (host.new_id (codes "cmem") t.2) _ (targets_of write)
      ∙ length-append t.0 _

  length-insert_writes :
      (stamp : Stamp) (t : List CuratedMemoryRow × List CuratedMemoryRow × ℕ)
      (writes : List CuratedMemoryWrite)
      → length (each (insert_write host stamp) t writes).0 ≡ length t.0 + length writes
  length-insert_writes stamp t [] = omega arith
  length-insert_writes stamp t (w ∷ writes) = omega (
    arith,
    length-insert_writes stamp (insert_write host stamp t w) writes,
    length-insert_write stamp t w,
  )

  length-apply :
      (store : Store) (session_id run_id model : Text) (last : ℕ) (writes : List CuratedMemoryWrite)
      (report : WindowReport)
      → length
          (apply_curator_window host store session_id run_id model last writes report).0.memories
        ≡ length store.memories + length writes
  unfolding apply_curator_window
  length-apply store session_id run_id model last writes report = length-insert_writes _ _ writes

  -- The counts agree with one another and with the rows added since the start.
  pub record Accounts (start : ℕ) (s : LoopState) : Type 0 where
    pub operations :
        s.result.operations
        ≡ s.result.added + s.result.superseded + s.result.noop + s.result.stale
          + s.result.rejected_grounding
    pub rows : length s.curator.store.memories ≡ start + s.result.added + s.result.superseded

  module _ (settings : Settings) (session_id : Text) (start : ℕ) where
    commit_window-Accounts :
        (s : LoopState) (window : List Message) (run_id : Text) (counts : WindowCounts)
        → IsTallied counts
        → Accounts start s
        → Accounts start (commit_window host settings session_id s window run_id counts)
    unfolding commit_window
    commit_window-Accounts s window run_id counts t a = record {
      operations = omega (arith, a.operations, t.tallied);
      rows = omega (
        arith,
        a.rows,
        t.tallied,
        length-apply s.curator.store session_id run_id settings.model (s.seq + length window)
            counts.writes _,
      );
    }

    fail_window-Accounts :
        (s : LoopState) (window : List Message) (run_id : Text) (schema_failure : Bool)
        → Accounts start s
        → Accounts start (fail_window host settings session_id s window run_id schema_failure)
    unfolding fail_window
    fail_window-Accounts s window run_id schema_failure a = record {
      operations = a.operations;
      rows =
          ap length
            (register_window_failure-IsRegistered host settings session_id s.curator s.seq window
              run_id _ schema_failure).memories
          ∙ a.rows;
    }

    Accounts-kept : IsKept host settings session_id (Accounts start)
    Accounts-kept = record {
      commit = commit_window-Accounts;
      fail = fail_window-Accounts;
      clock = λ s a. record { operations = a.operations; rows = a.rows };
      request = λ s a. record { operations = a.operations; rows = a.rows };
      early = λ s a. record { operations = a.operations; rows = a.rows };
      unavailable = λ s a. record { operations = a.operations; rows = a.rows };
    }

-- In the result of a run the operations are the memories that were added or superseded others, and
-- the proposals that changed nothing, were stale or were rejected; and the table has as many rows
-- more as the result counts as added and as superseding.
pub run_session-tallies :
    (host : Host) (settings : Settings) (h : Hashing) (u : Unicode) (session_id : Text)
    (force : Bool) (curator after : Curator) (result : CuratorRunResult)
    → run_session host settings h u session_id force curator ≡ some (after, some result)
    → (result.operations
        ≡ result.added + result.superseded + result.noop + result.stale + result.rejected_grounding)
      × (length after.store.memories
          ≡ length curator.store.memories + result.added + result.superseded)
unfolding run_session
run_session-tallies host settings h u session_id force curator after result e =
    let seq = watermark curator.store session_id in
    let total = count_session_messages curator.store session_id in
    elim (Bool-cases (leb total seq)) [
      | inl nothing ↦ ground (arith, nothing, e)
      | inr some_left ↦ elim (Option-cases settings.llm) [
        | inl without ↦ ground (arith, some_left, without, e)
        | inr (llm, has) ↦
            let start = length curator.store.memories in
            let (s, a, same, same') =
              run_windows-kept host settings session_id (Accounts host start)
                (Accounts-kept host settings session_id start) h u llm force curator after result
                seq total (record { operations = omega arith; rows = omega arith })
                (ground (arith, some_left, has, e)) in
            (rw same' at a.operations, ground (arith, a.rows, same, same'))
      ]
    ]
