-- ===== src/Session/Rounds.antt =====
-- What a round of the session curator leaves, by the steps of `Session.Steps`.
use memry_os_lite.Prelude.{
  ℕ, ◌+◌, ◌-◌, min, max, ◌≤◌, ◌<◌, ◌≡◌, inl, inr, refl, sym, ◌∙◌, arith, Text, Bool, true, false,
  not, ◌&&◌, ltb, leb, if◌then◌else◌, Bool-cases, Option-cases, List, [], ◌∷◌, keep, sort, length,
  length-append, length-take, length-drop, length-sort, drop, each_inv, All, All-append, Dict,
}
use memry_os_lite.Unicode.{Unicode}
use memry_os_lite.Curate.Model.{CurateResponse, CurateMemoryVersion, CurateRequest}
use memry_os_lite.Curate.Consolidate.{Hashing}
use memry_os_lite.Curate.Loop.{Llm, run_curate}
use memry_os_lite.Session.Store.{
  count_session_messages, list_messages_for_curation, get_curator_state, in_session, message_le,
}
use memry_os_lite.Session.Tables.{CuratedMemoryRow, Message, Store, Host}
use memry_os_lite.Session.Window.{
  WindowCounts, Curated, curate_window, window_writes, count_version, write_of, has_not_json,
}
use memry_os_lite.Session.Activities.{valid_request}
use memry_os_lite.Session.Run.{
  watermark, register_window_failure, fail_window, commit_window, curated, conclude, work, round_of,
  window_size, skip_window, count_failure, failure_report, idle_due,
}
use memry_os_lite.Session.Variables.{
  Settings, LoopState, Next, again, finished, raised, read_clock, count_request,
  skip_after_failures, attempts,
}
use memry_os_lite.Session.Steps.{
  IsNew, consume, bump, read_time, Reach, next, watermark-apply, Step-IsOnward, count_same,
}

-- What the writes and counts of a window have in common.
pub record IsTallied (counts : WindowCounts) : Type 0 where
  pub new : All IsNew counts.writes
  pub tallied : counts.added + counts.superseded ≡ length counts.writes

count_version-IsTallied :
    (active : Dict CuratedMemoryRow) (counts : WindowCounts) (version : CurateMemoryVersion)
    → IsTallied counts
    → IsTallied (count_version active counts version)
unfolding count_version
count_version-IsTallied active counts version t = record {
  new = All-append IsNew counts.writes _ t.new (refl, tt);
  tallied = ground (arith, t.tallied, length-append counts.writes (write_of active version ∷ []));
}

pub window_writes-IsTallied :
    (response : CurateResponse) (active : Dict CuratedMemoryRow)
    → IsTallied (window_writes response active)
unfolding window_writes
window_writes-IsTallied response active =
    each_inv IsTallied (count_version active) (count_version-IsTallied active) _ response.memories
      (record { new = tt; tallied = omega arith })

-- Counts come from a response.
pub response_of_counts :
    (h : Hashing) (u : Unicode) (has_langgraph : Bool) (llm : Llm) (request : CurateRequest)
    (active : Dict CuratedMemoryRow) (counts : WindowCounts)
    → curate_window h u has_langgraph llm request active ≡ Curated.counts_of counts
    → (response : CurateResponse) × (counts ≡ window_writes response active)
unfolding curate_window
response_of_counts h u has_langgraph llm request active counts e = elim (Bool-cases has_langgraph) [
  | inr not_so ↦ absurd (ground arith)
  | inl has ↦ elim (Bool-cases (valid_request request)) [
    | inr not_so ↦ absurd (ground arith)
    | inl fits ↦ elim (Option-cases (run_curate h u llm request)) [
      | inl raises ↦ absurd (ground arith)
      | inr (response, made) ↦
          elim (Bool-cases (has_not_json response.diagnostics.final_violations)) [
            | inl bad ↦ absurd (ground arith)
            | inr good ↦ (response, ground arith)
          ]
    ]
  ]
]

pub curate_window-IsTallied :
    (h : Hashing) (u : Unicode) (has_langgraph : Bool) (llm : Llm) (request : CurateRequest)
    (active : Dict CuratedMemoryRow) (counts : WindowCounts)
    → curate_window h u has_langgraph llm request active ≡ Curated.counts_of counts
    → IsTallied counts
curate_window-IsTallied h u has_langgraph llm request active counts e =
    let (response, made) = response_of_counts h u has_langgraph llm request active counts e in
    rw made (window_writes-IsTallied response active)

module _ (host : Host) (settings : Settings) (session_id : Text) where
  pub length-window :
      (store : Store) (seq limit : ℕ)
      → length (list_messages_for_curation store session_id seq limit)
        ≡ min (max 1 limit) (count_session_messages store session_id - seq)
  unfolding list_messages_for_curation count_session_messages
  length-window store seq limit = omega (
    arith,
    length-take (max 1 limit)
        (drop seq (sort message_le (keep (in_session session_id) store.messages))),
    length-drop seq (sort message_le (keep (in_session session_id) store.messages)),
    length-sort message_le (keep (in_session session_id) store.messages),
  )

  pub curated-IsTallied :
      (h : Hashing) (u : Unicode) (llm : ℕ → Llm) (s : LoopState) (window : List Message)
      (counts : WindowCounts)
      → curated host settings session_id h u llm s window ≡ Curated.counts_of counts
      → IsTallied counts
  unfolding curated
  curated-IsTallied h u llm s window counts e =
      curate_window-IsTallied h u settings.has_langgraph (llm s.curator.requests) _ s.active counts
        e

  -- A state of the loop, from the store at the start and the number of messages.
  pub record IsRunning (start : Store) (total : ℕ) (s : LoopState) : Type 0 where
    pub reached : Reach host session_id start s.curator.store
    pub seq : s.seq ≡ watermark s.curator.store session_id
    pub within : s.seq ≤ total
    pub counted : total ≡ count_session_messages s.curator.store session_id

  module _ (start : Store) (total : ℕ) where
    read_clock-IsRunning :
        (s : LoopState) → IsRunning start total s → IsRunning start total (read_clock s)
    unfolding get_curator_state count_session_messages
    read_clock-IsRunning s run = record {
      reached = next run.reached (read_time s.curator.store);
      seq = run.seq;
      within = run.within;
      counted = run.counted;
    }

    commit_window-IsRunning :
        (s : LoopState) (window : List Message) (run_id : Text) (counts : WindowCounts)
        → IsRunning start total s
        → s.seq + length window ≤ total
        → IsTallied counts
        → IsRunning start total (commit_window host settings session_id s window run_id counts)
    unfolding commit_window
    commit_window-IsRunning s window run_id counts run fits t =
        let step =
          consume s.curator.store run_id settings.model s.seq (length window) counts.writes _
            run.seq (omega (arith, run.counted)) t.new in
        let onward = Step-IsOnward host session_id step in
        record {
          reached = next run.reached step;
          seq = sym (
              watermark-apply host session_id s.curator.store run_id settings.model _ counts.writes
                _);
          within = fits;
          counted = run.counted ∙ sym (count_same host session_id _ _ onward.messages);
        }

    Reach-fail_window :
        (s : LoopState) (window : List Message) (run_id : Text) (schema_failure : Bool)
        → IsRunning start total s
        → s.seq + length window ≤ total
        → Reach host session_id start
            (fail_window host settings session_id s window run_id schema_failure).curator.store
    unfolding fail_window register_window_failure skip_window count_failure
    Reach-fail_window s window run_id schema_failure run fits =
        elim (Bool-cases
          (leb skip_after_failures (attempts s.curator.window_failures (session_id, s.seq) + 1))) [
            | inl skip ↦
                rw (skip, fail_window, register_window_failure)
                  (next run.reached (
                    consume s.curator.store run_id settings.model s.seq (length window) []
                      (failure_report host settings session_id (if s.run_counted then 0 else 1)
                        schema_failure)
                      run.seq (omega (arith, run.counted)) tt))
            | inr keeps ↦
                rw (keeps, fail_window, register_window_failure)
                  (next run.reached (
                    bump s.curator.store (
                      failure_report host settings session_id (if s.run_counted then 0 else 1)
                        schema_failure)))
          ]

    seq-commit_window :
        (s : LoopState) (window : List Message) (run_id : Text) (counts : WindowCounts)
        → 0 < length window
        → s.seq < (commit_window host settings session_id s window run_id counts).seq
    unfolding commit_window
    seq-commit_window s window run_id counts some_of = omega arith

    count_request-IsRunning :
        (s : LoopState) → IsRunning start total s → IsRunning start total (count_request s)
    count_request-IsRunning s run = record {
      reached = run.reached;
      seq = run.seq;
      within = run.within;
      counted = run.counted;
    }

    -- What a round leaves: a state to go on from, with a higher watermark, or a store at the end.
    abbrev pub IsAfter : LoopState → Next → Type 0
    IsAfter s (again s') = IsRunning start total s' × (s.seq < s'.seq)
    IsAfter s (finished s') = Reach host session_id start s'.curator.store
    IsAfter s (raised s') = Reach host session_id start s'.curator.store

    conclude-IsAfter :
        (s : LoopState) (window : List Message) (run_id : Text) (answer : Curated)
        → IsRunning start total s
        → s.seq + length window ≤ total
        → 0 < length window
        → ((counts : WindowCounts) → answer ≡ Curated.counts_of counts → IsTallied counts)
        → IsAfter s (conclude host settings session_id s window run_id answer)
    unfolding conclude
    conclude-IsAfter s window run_id Curated.import_error run fits some_of t = run.reached
    conclude-IsAfter s window run_id Curated.invalid_request run fits some_of t = run.reached
    conclude-IsAfter s window run_id Curated.unusable_reply run fits some_of t =
        Reach-fail_window s window run_id true run fits
    conclude-IsAfter s window run_id Curated.provider_error run fits some_of t =
        Reach-fail_window s window run_id false run fits
    conclude-IsAfter s window run_id (Curated.counts_of counts) run fits some_of t = (
      commit_window-IsRunning s window run_id counts run fits (t counts refl),
      seq-commit_window s window run_id counts some_of,
    )

    module _ (h : Hashing) (u : Unicode) (llm : ℕ → Llm) (force : Bool) (run_id : Text) where
      work-IsAfter :
          (s : LoopState) (window : List Message)
          → IsRunning start total s
          → s.seq + length window ≤ total
          → 0 < length window
          → IsAfter s (work host settings session_id h u llm s window run_id)
      unfolding work
      work-IsAfter s window run fits some_of =
          conclude-IsAfter (count_request s) window run_id
            (curated host settings session_id h u llm s window) (count_request-IsRunning s run) fits
            some_of (curated-IsTallied h u llm s window)

      pub round_of-IsAfter :
          (s : LoopState) (window : List Message)
          → IsRunning start total s
          → s.seq + length window ≤ total
          → IsAfter s (round_of host settings session_id h u llm force s window run_id)
      unfolding round_of
      round_of-IsAfter s [] run fits = run.reached
      round_of-IsAfter s (oldest ∷ rest) run fits =
          elim (Bool-cases
            (ltb (length (oldest ∷ rest)) (window_size host settings session_id) && not force)) [
              | inr full ↦
                  rw (full, round_of) (work-IsAfter s (oldest ∷ rest) run fits (omega arith))
              | inl short ↦ elim (Bool-cases (idle_due host settings session_id s oldest)) [
                | inl due ↦
                    rw (short, round_of, due)
                      (work-IsAfter (read_clock s) (oldest ∷ rest) (read_clock-IsRunning s run) fits
                        (omega arith))
                | inr early ↦ rw (short, round_of, early) (read_clock-IsRunning s run).reached
              ]
            ]
