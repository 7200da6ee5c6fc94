-- ===== src/Session/Run.antt =====
-- memoryos_eval/memory/session_curator.py: `Curator.run_session`, its loop over windows with the
-- watermark, and the failures of a window. Traces are not modelled. What an LLM does may differ from
-- one curate request to the next; the loop is bounded by the messages that are left.
use memry_os_lite.Prelude.{
  ℕ, zero, suc, ◌+◌, ◌-◌, min, Text, codes, Bool, true, false, not, ◌&&◌, leb, ltb, if◌then◌else◌,
  Option, none, some, List, [], ◌∷◌, ◌++◌, map, keep, each, length, Dict, put, elem,
}
use memry_os_lite.Unicode.{Unicode}
use memry_os_lite.Curate.Consolidate.{Hashing}
use memry_os_lite.Curate.Loop.{Llm}
use memry_os_lite.Session.Store.{
  WindowReport, get_curator_state, list_active_curated_memories, count_session_messages,
  list_messages_for_curation, apply_curator_window, bump_curator_state,
}
use memry_os_lite.Session.Tables.{
  CuratedMemoryRow, Message, Store, Host, ErrorCode, CuratorStateRow, curator_llm_key_missing,
  curator_llm_init_error, curator_llm_error, curator_schema_error,
}
use memry_os_lite.Session.Window.{WindowCounts, Curated, proposals, window_request, curate_window}
use memry_os_lite.Session.Variables.{
  Curator, CuratorRunResult, LoopState, Next, Settings, again, attempts, context_messages,
  count_request, failed, finished, first_result, forget, infos_from, llm_unavailable, note_write,
  ok, raised, read_clock, remember, skip_after_failures, skipped, stop_early, without_langgraph,
  zip_writes,
}

module _ (host : Host) (settings : Settings) (session_id : Text) where
  abbrev pub failure_code : Bool → ErrorCode
  failure_code schema_failure = if schema_failure then curator_schema_error else curator_llm_error

  -- What both branches of `_register_window_failure` tell the store.
  abbrev pub failure_report : ℕ → Bool → WindowReport
  failure_report runs schema_failure = record {
    ops_count = 0;
    runs = runs;
    rejected_grounding = 0;
    rejected_schema = if schema_failure then 1 else 0;
    llm_errors = if schema_failure then 0 else 1;
    error_code = some (failure_code schema_failure);
  }

  -- The branch after the last attempt: the window is passed over.
  unfoldable pub skip_window : Curator → ℕ → List Message → Text → WindowReport → Curator
  skip_window curator seq window run_id report = record curator {
    store =
        (apply_curator_window host curator.store session_id run_id settings.model
          (seq + length window) [] report).0;
    window_failures = forget curator.window_failures (session_id, seq);
  }

  -- The branch before: the attempt is counted.
  unfoldable pub count_failure : Curator → ℕ → ℕ → WindowReport → Curator
  count_failure curator seq attempt report = record curator {
    store = bump_curator_state host curator.store session_id report;
    window_failures = remember curator.window_failures (session_id, seq) attempt;
  }

  -- `_register_window_failure`: the curator, and whether the window was skipped
  unfoldable pub register_window_failure :
      Curator → ℕ → List Message → Text → ℕ → Bool → Curator × Bool
  register_window_failure curator seq window run_id runs schema_failure =
      let attempt = attempts curator.window_failures (session_id, seq) + 1 in
      if leb skip_after_failures attempt
      then (skip_window curator seq window run_id (failure_report runs schema_failure), true)
      else (count_failure curator seq attempt (failure_report runs schema_failure), false)

  -- What is done with a window that could not be curated.
  unfoldable pub fail_window : LoopState → List Message → Text → Bool → LoopState
  fail_window s window run_id schema_failure =
      let runs = if s.run_counted then 0 else 1 in
      let (curator, skip) =
        register_window_failure s.curator s.seq window run_id runs schema_failure in
      record s {
        curator = curator;
        result = record s.result {
          rejected_schema =
              if schema_failure then s.result.rejected_schema + 1 else s.result.rejected_schema;
          llm_errors = if schema_failure then s.result.llm_errors else s.result.llm_errors + 1;
          status = if skip then skipped else failed;
          error_code = some (failure_code schema_failure);
        };
      }

  -- What is done with the counts of a window: its writes are committed with the watermark.
  unfoldable pub commit_window : LoopState → List Message → Text → WindowCounts → LoopState
  commit_window s window run_id counts =
      let (store, created) =
        apply_curator_window host s.curator.store session_id run_id settings.model
          (s.seq + length window) counts.writes
          (record {
            ops_count = proposals counts;
            runs = if s.run_counted then 0 else 1;
            rejected_grounding = counts.rejected;
            rejected_schema = 0;
            llm_errors = 0;
            error_code = none;
          }) in
      record {
        curator = record s.curator {
          store = store;
          window_failures = forget s.curator.window_failures (session_id, s.seq);
        };
        active = each note_write s.active (zip_writes counts.writes created);
        result = record s.result {
          windows = s.result.windows + 1;
          operations = s.result.operations + proposals counts;
          added = s.result.added + counts.added;
          superseded = s.result.superseded + counts.superseded;
          noop = s.result.noop + counts.noop;
          rejected_grounding = s.result.rejected_grounding + counts.rejected;
          stale = s.result.stale + counts.stale;
          status = ok;
        };
        run_counted = true;
        seq = s.seq + length window;
      }

  abbrev pub window_size : ℕ
  window_size = min settings.window_messages 32

  -- The messages before the window that are not in it.
  unfoldable pub context_of : Store → ℕ → List Message → List Message
  unfolding list_messages_for_curation elem
  context_of store seq window =
      if ltb 0 seq
      then keep (λ m. not (elem m.id (map (λ w. w.id) window)))
          (list_messages_for_curation store session_id (seq - context_messages)
            (min context_messages seq))
      else []

  -- The rest of a round, with the answer to the curate request.
  unfoldable pub conclude : LoopState → List Message → Text → Curated → Next
  conclude s window run_id Curated.import_error = finished (without_langgraph s)
  conclude s window run_id Curated.invalid_request = raised s
  conclude s window run_id Curated.unusable_reply = finished (fail_window s window run_id true)
  conclude s window run_id Curated.provider_error = finished (fail_window s window run_id false)
  conclude s window run_id (Curated.counts_of counts) = again (commit_window s window run_id counts)

  -- `_idle_due`: the window's oldest message has waited long enough
  abbrev pub idle_due : LoopState → Message → Bool
  idle_due s oldest =
      leb (oldest.created_at + settings.idle_flush) (host.utc_now s.curator.store.times)

  module _ (h : Hashing) (u : Unicode) (llm : ℕ → Llm) where
    -- The call of `_curate_window`.
    unfoldable pub curated : LoopState → List Message → Curated
    curated s window =
        let context = context_of s.curator.store s.seq window in
        curate_window h u settings.has_langgraph (llm s.curator.requests)
          (window_request settings.max_active_in_prompt session_id context window s.active
            (infos_from [] (s.seq - length context + 1) (context ++ window)))
          s.active

    -- A window is curated, and what comes of it is recorded.
    unfoldable pub work : LoopState → List Message → Text → Next
    work s window run_id = conclude (count_request s) window run_id (curated s window)

    -- A round, with the messages of its window: one that is short waits until it is due.
    unfoldable pub round_of : Bool → LoopState → List Message → Text → Next
    round_of force s [] run_id = finished s
    round_of force s (oldest ∷ rest) run_id =
        elim (ltb (length (oldest ∷ rest)) window_size && not force) [
          | false ↦ work s (oldest ∷ rest) run_id
          | true ↦ elim (idle_due s oldest) [
            | true ↦ work (read_clock s) (oldest ∷ rest) run_id
            | false ↦ finished (stop_early (read_clock s))
          ]
        ]

    -- The body of the loop.
    unfoldable pub round : Bool → Text → LoopState → Next
    round force run_id s =
        round_of force s (list_messages_for_curation s.curator.store session_id s.seq window_size)
          run_id

    -- `while seq < total`; `none` is fuel that ran out.
    unfoldable pub loop : ℕ → Bool → Text → ℕ → LoopState → Option Next
    loop zero force run_id total s = none
    loop (suc fuel) force run_id total s = elim (ltb s.seq total) [
      | false ↦ some (finished s)
      | true ↦ elim (round force run_id s) [
        | again s' ↦ loop fuel force run_id total s'
        | finished s' ↦ some (finished s')
        | raised s' ↦ some (raised s')
      ]
    ]

-- The dictionary of the rows that are active.
unfoldable pub active_rows : List CuratedMemoryRow → Dict CuratedMemoryRow
unfolding put
active_rows rows = each (λ d row. put d row.id row) [] rows

-- `state.last_message_seq if state is not None else 0`
abbrev pub seq_of_state : Option CuratorStateRow → ℕ
seq_of_state none = 0
seq_of_state (some state) = state.last_message_seq

abbrev pub watermark : Store → Text → ℕ
watermark store session_id = seq_of_state (get_curator_state store session_id)

-- What a run leaves: the curator, and the result, unless it raised.
abbrev pub Ran : Type 0
Ran = Curator × Option CuratorRunResult

abbrev pub ran : Next → Ran
ran (again s) = (s.curator, none)
ran (finished s) = (s.curator, some s.result)
ran (raised s) = (s.curator, none)

-- The variables before the loop, the id of the run taken.
abbrev pub begin_loop : Text → Curator → ℕ → LoopState
begin_loop session_id curator seq = record {
  curator = record curator { store = record curator.store { ids = curator.store.ids + 1 } };
  active = active_rows (list_active_curated_memories curator.store session_id none);
  result = first_result;
  run_counted = false;
  seq = seq;
}

-- `run_session`; the outer `none` is fuel that ran out, which is one more than the messages.
module _ (host : Host) (settings : Settings) (h : Hashing) (u : Unicode) where
  -- The loop, behind the early returns.
  unfoldable pub run_windows : (ℕ → Llm) → Text → Bool → Curator → ℕ → ℕ → Option Ran
  run_windows llm session_id force curator seq total =
      let run_id = host.new_id (codes "crun") curator.store.ids in
      let s = begin_loop session_id curator seq in
      elim (loop host settings session_id h u llm (suc total) force run_id total s) [
        | none ↦ none
        | some next ↦ some (ran next)
      ]

  unfoldable pub run_session : Text → Bool → Curator → Option Ran
  run_session session_id force curator =
      let seq = watermark curator.store session_id in
      let total = count_session_messages curator.store session_id in
      if leb total seq then some (curator, some first_result) else elim settings.llm [
        | none ↦ some (
          curator,
          some (record first_result {
            status = llm_unavailable;
            error_code =
                some (if settings.has_key then curator_llm_init_error else curator_llm_key_missing);
            llm_errors = 1;
          }),
        )
        | some llm ↦ run_windows llm session_id force curator seq total
      ]
