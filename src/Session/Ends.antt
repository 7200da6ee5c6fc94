-- ===== src/Session/Ends.antt =====
-- How a run of the session curator ends.
use memry_os_lite.Prelude.{
  sym, ◌∙◌, ℕ, zero, suc, ◌+◌, ◌≤◌, ◌<◌, ◌≡◌, ◌⊎◌, refl, arith, Text, codes, Bool, ltb, leb,
  Bool-cases, Option-cases, inl, inr, none, some, not, ◌&&◌, true, false, List, [], ◌∷◌, length,
}
use memry_os_lite.Unicode.{Unicode}
use memry_os_lite.Curate.Consolidate.{Hashing}
use memry_os_lite.Curate.Loop.{Llm}
use memry_os_lite.Session.Store.{
  count_session_messages, get_curator_state, list_messages_for_curation,
}
use memry_os_lite.Session.Tables.{Store, Host, Message}
use memry_os_lite.Session.Run.{
  Ran, ran, watermark, round, loop, run_windows, run_session, begin_loop, window_size, curated,
  conclude, work, round_of, idle_due, context_of,
}
use memry_os_lite.Session.Window.{Curated}
use memry_os_lite.Session.Variables.{
  Settings, Curator, LoopState, Next, again, finished, raised, read_clock,
}
use memry_os_lite.Session.Steps.{Reach, here, next, draw_id, IsOnward, Reach-IsOnward}
use memry_os_lite.Session.Rounds.{IsRunning, IsAfter, round_of-IsAfter, length-window}

pub Next-cases :
    (n : Next)
    → ((s : LoopState) × (n ≡ again s))
      ⊎ ((s : LoopState) × (n ≡ finished s))
      ⊎ ((s : LoopState) × (n ≡ raised s))
Next-cases (again s) = inl (s, refl)
Next-cases (finished s) = inr (inl (s, refl))
Next-cases (raised s) = inr (inr (s, refl))

module _ (host : Host) (settings : Settings) (h : Hashing) (u : Unicode) (session_id : Text)
    (force : Bool) where
  -- The states that the rounds of a loop lead to.
  pub data Along (llm : ℕ → Llm) (run_id : Text) (first : LoopState) : LoopState → Type 0 where
    at_first : Along llm run_id first first
    further :
        {s s' : LoopState}
        → Along llm run_id first s
        → round host settings session_id h u llm force run_id s ≡ again s'
        → Along llm run_id first s'

  -- Rounds lead to a state where the model of the request for the next window refuses it.
  abbrev pub Refused : (ℕ → Llm) → Text → LoopState → Type 0
  Refused llm run_id first =
      (s : LoopState) × Along llm run_id first s
      × (curated host settings session_id h u llm s (
            list_messages_for_curation s.curator.store session_id s.seq
              (window_size host settings session_id))
          ≡ Curated.invalid_request)

  conclude-raised :
      (s s' : LoopState) (window : List Message) (run_id : Text) (c : Curated)
      → conclude host settings session_id s window run_id c ≡ raised s'
      → c ≡ Curated.invalid_request
  unfolding conclude
  conclude-raised s s' window run_id Curated.invalid_request e = refl
  conclude-raised s s' window run_id Curated.import_error e = absurd (ground (arith, e))
  conclude-raised s s' window run_id Curated.unusable_reply e = absurd (ground (arith, e))
  conclude-raised s s' window run_id Curated.provider_error e = absurd (ground (arith, e))
  conclude-raised s s' window run_id (Curated.counts_of counts) e = absurd (ground (arith, e))

  module _ (llm : ℕ → Llm) (run_id : Text) where
    work-raised :
        (s s' : LoopState) (window : List Message)
        → work host settings session_id h u llm s window run_id ≡ raised s'
        → curated host settings session_id h u llm s window ≡ Curated.invalid_request
    unfolding work
    work-raised s s' window e = conclude-raised _ s' window run_id _ e

    curated-read_clock :
        (s : LoopState) (window : List Message)
        → curated host settings session_id h u llm (read_clock s) window
          ≡ curated host settings session_id h u llm s window
    unfolding curated context_of list_messages_for_curation
    curated-read_clock s window = refl

    round_of-raised :
        (s s' : LoopState) (window : List Message)
        → round_of host settings session_id h u llm force s window run_id ≡ raised s'
        → curated host settings session_id h u llm s window ≡ Curated.invalid_request
    unfolding round_of
    round_of-raised s s' [] e = absurd (ground (arith, e))
    round_of-raised s s' (oldest ∷ rest) e =
        elim (Bool-cases
          (ltb (length (oldest ∷ rest)) (window_size host settings session_id) && not force)) [
            | inr f ↦ work-raised s s' (oldest ∷ rest) (rw (f, round_of) at e)
            | inl f ↦ elim (Bool-cases (idle_due host settings session_id s oldest)) [
              | inl g ↦
                  sym (curated-read_clock s (oldest ∷ rest))
                  ∙ work-raised (read_clock s) s' (oldest ∷ rest) (rw (f, round_of, g) at e)
              | inr g ↦ absurd (ground (arith, rw (f, round_of, g) at e))
            ]
          ]

    -- A loop ends with a result, or with a request that is refused.
    abbrev Ended : LoopState → Next → Type 0
    Ended first (again s) = true ≡ false
    Ended first (finished s) = Unit
    Ended first (raised s) = Refused llm run_id first

  module _ (start : Store) (total : ℕ) (llm : ℕ → Llm) (run_id : Text) (first : LoopState) where
    round-IsAfter :
        (s : LoopState)
        → IsRunning host settings session_id start total s
        → s.seq < total
        → IsAfter host settings session_id start total s
            (round host settings session_id h u llm force run_id s)
    unfolding round
    round-IsAfter s run left =
        round_of-IsAfter host settings session_id start total h u llm force run_id s _ run (
          omega (
            arith,
            run.counted,
            length-window host settings session_id s.curator.store s.seq
                (window_size host settings session_id),
          ))

    -- With fuel above the messages that are left the loop ends, and its store is reached by steps.
    loop-ends :
        (fuel : ℕ) (s : LoopState)
        → IsRunning host settings session_id start total s
        → total < fuel + s.seq
        → Along llm run_id first s
        → (end : Next) × (loop host settings session_id h u llm fuel force run_id total s
            ≡ some end)
          × Reach host session_id start (ran end).0.store
          × Ended llm run_id first end
    unfolding loop round
    loop-ends zero s run enough along = absurd (omega (arith, run.within))
    loop-ends (suc fuel) s run enough along = elim (Bool-cases (ltb s.seq total)) [
      | inr over ↦ (finished s, rw (over, loop) refl, run.reached, tt)
      | inl left ↦
          let after = round-IsAfter s run (ground arith) in
          elim (Next-cases (round host settings session_id h u llm force run_id s)) [
            | inl (s', e) ↦
                let (run', onward) : IsAfter host settings session_id start total s (again s') =
                  rw e at after in
                rw (left, loop, e)
                  (loop-ends fuel s' run' (omega (arith, onward)) (further along e))
            | inr (inl (s', e)) ↦ (finished s', rw (left, loop, e) refl, rw e at after, tt)
            | inr (inr (s', e)) ↦ (
              raised s',
              rw (left, loop, e) refl,
              rw e at after,
              (s, along, round_of-raised llm run_id s s' _ e),
            )
          ]
    ]

  none-Refused :
      (llm : ℕ → Llm) (run_id : Text) (first : LoopState) (end : Next)
      → Ended llm run_id first end
      → (ran end).1 ≡ none
      → Refused llm run_id first
  none-Refused llm run_id first (again s) k e = absurd (ground (arith, k))
  none-Refused llm run_id first (finished s) k e = absurd (ground (arith, e))
  none-Refused llm run_id first (raised s) k e = k

  -- The run's id, and the state at the beginning of its loop.
  abbrev pub run_id_of : Curator → Text
  run_id_of curator = host.new_id (codes "crun") curator.store.ids

  abbrev pub first_state : Curator → LoopState
  first_state curator = begin_loop session_id curator (watermark curator.store session_id)

  run_windows-ends :
      (llm : ℕ → Llm) (curator : Curator)
      → watermark curator.store session_id ≤ count_session_messages curator.store session_id
      → (outcome : Ran) × (run_windows host settings h u llm session_id force curator
            (watermark curator.store session_id)
            (count_session_messages curator.store session_id)
          ≡ some outcome)
        × Reach host session_id curator.store outcome.0.store
        × (outcome.1 ≡ none → Refused llm (run_id_of curator) (first_state curator))
  unfolding run_windows get_curator_state count_session_messages
  run_windows-ends llm curator fits =
      let (end, e, reached, ended) =
        loop-ends curator.store (count_session_messages curator.store session_id) llm
          (run_id_of curator) (first_state curator)
          (suc (count_session_messages curator.store session_id)) (first_state curator)
          (record {
            reached = next here (draw_id curator.store);
            seq = refl;
            within = fits;
            counted = refl;
          })
          (omega arith) at_first in
      (
        ran end,
        rw (run_windows, e) refl,
        reached,
        none-Refused llm (run_id_of curator) (first_state curator) end ended,
      )

  run_session-windows :
      (llm : ℕ → Llm) (curator : Curator) (outcome : Ran)
      → leb (count_session_messages curator.store session_id) (watermark curator.store session_id)
        ≡ false
      → settings.llm ≡ some llm
      → run_windows host settings h u llm session_id force curator
          (watermark curator.store session_id)
          (count_session_messages curator.store session_id)
        ≡ some outcome
      → run_session host settings h u session_id force curator ≡ some outcome
  unfolding run_session
  run_session-windows llm curator outcome some_left has made = simp (some_left, has, made)

  -- Every run ends, whatever the LLM, the clock and the store do: with a result; or without one, by
  -- a `ValidationError`, but only when the rounds of its loop lead to a window whose curate request
  -- is refused by its model. The store that it leaves is reached by steps that consume messages,
  -- count a failure, or read the clock or the source of ids. The messages stay, the watermark of
  -- the session does not fall, and it does not pass the higher of its old value and the number of
  -- the session's messages.
  pub run_session-ends :
      (curator : Curator)
      → (outcome : Ran) × (run_session host settings h u session_id force curator ≡ some outcome)
        × Reach host session_id curator.store outcome.0.store
        × IsOnward host session_id curator.store outcome.0.store
        × (outcome.1 ≡ none
            → (llm : ℕ → Llm) × (settings.llm ≡ some llm)
              × Refused llm (run_id_of curator) (first_state curator))
  unfolding run_session
  run_session-ends curator =
      elim (Bool-cases (
        leb (count_session_messages curator.store session_id)
          (watermark curator.store session_id))) [
            | inl nothing ↦
                rw (nothing, run_session)
                  (
                    _,
                    refl,
                    here,
                    Reach-IsOnward host session_id here,
                    λ e. absurd (ground (arith, e)),
                  )
            | inr some_left ↦ elim (Option-cases settings.llm) [
              | inl without ↦
                  rw (some_left, run_session, without)
                    (
                      _,
                      refl,
                      here,
                      Reach-IsOnward host session_id here,
                      λ e. absurd (ground (arith, e)),
                    )
              | inr (llm, has) ↦
                  let (outcome, made, reached, refused) =
                    run_windows-ends llm curator (ground arith) in
                  let whole = run_session-windows llm curator outcome some_left has made in
                  (
                    outcome,
                    whole,
                    reached,
                    Reach-IsOnward host session_id reached,
                    λ e. (llm, has, refused e),
                  )
            ]
          ]

  pub Reach-run_session :
      (curator : Curator) (outcome : Ran)
      → run_session host settings h u session_id force curator ≡ some outcome
      → Reach host session_id curator.store outcome.0.store
  Reach-run_session curator outcome e =
      let (outcome', e', reached, _, _) = run_session-ends curator in
      let same : outcome' ≡ outcome = cc in rw same at reached
