-- ===== src/Session/Kept.antt =====
-- A rule for the loop of `run_session`: what the parts of its rounds keep, a run keeps.
use memry_os_lite.Prelude.{
  ℕ, zero, suc, ◌≡◌, inl, inr, refl, arith, Text, codes, Bool, true, false, not, ltb, ◌&&◌,
  Bool-cases, Option-cases, some, List, [], ◌∷◌, length,
}
use mathlib.Core.Path.{subst}
use memry_os_lite.Unicode.{Unicode}
use memry_os_lite.Curate.Consolidate.{Hashing}
use memry_os_lite.Curate.Loop.{Llm}
use memry_os_lite.Session.Tables.{Message, Host}
use memry_os_lite.Session.Window.{WindowCounts, Curated}
use memry_os_lite.Session.Run.{
  fail_window, commit_window, conclude, work, round_of, round, loop, run_windows, begin_loop,
  idle_due, window_size,
}
use memry_os_lite.Session.Variables.{
  Settings, Curator, CuratorRunResult, LoopState, Next, again, finished, raised, count_request,
  read_clock, stop_early, without_langgraph,
}
use memry_os_lite.Session.Rounds.{IsTallied, curated-IsTallied}
use memry_os_lite.Session.Ends.{Next-cases}

module _ (host : Host) (settings : Settings) (session_id : Text) (P : LoopState → Type 0) where
  -- The parts of a round keep `P`.
  pub record IsKept : Type 0 where
    pub commit :
        (s : LoopState) (window : List Message) (run_id : Text) (counts : WindowCounts)
        → IsTallied counts
        → P s
        → P (commit_window host settings session_id s window run_id counts)
    pub fail :
        (s : LoopState) (window : List Message) (run_id : Text) (schema_failure : Bool)
        → P s
        → P (fail_window host settings session_id s window run_id schema_failure)
    pub clock : (s : LoopState) → P s → P (read_clock s)
    pub request : (s : LoopState) → P s → P (count_request s)
    pub early : (s : LoopState) → P s → P (stop_early s)
    pub unavailable : (s : LoopState) → P s → P (without_langgraph s)

  abbrev After : Next → Type 0
  After (again s) = P s
  After (finished s) = P s
  After (raised s) = P s

  After-eq : (m n : Next) → m ≡ n → After m → After n
  After-eq m n e p = subst After e p

  module _ (k : IsKept) where
    conclude-After :
        (s : LoopState) (window : List Message) (run_id : Text) (answer : Curated)
        → ((counts : WindowCounts) → answer ≡ Curated.counts_of counts → IsTallied counts)
        → P s
        → After (conclude host settings session_id s window run_id answer)
    unfolding conclude
    conclude-After s window run_id Curated.import_error t p = k.unavailable s p
    conclude-After s window run_id Curated.invalid_request t p = p
    conclude-After s window run_id Curated.unusable_reply t p = k.fail s window run_id true p
    conclude-After s window run_id Curated.provider_error t p = k.fail s window run_id false p
    conclude-After s window run_id (Curated.counts_of counts) t p =
        k.commit s window run_id counts (t counts refl) p

    module _ (h : Hashing) (u : Unicode) (llm : ℕ → Llm) where
      work-After :
          (s : LoopState) (window : List Message) (run_id : Text)
          → P s
          → After (work host settings session_id h u llm s window run_id)
      unfolding work
      work-After s window run_id p =
          conclude-After (count_request s) window run_id _
            (curated-IsTallied host settings session_id h u llm s window) (k.request s p)

      round_of-After :
          (force : Bool) (s : LoopState) (window : List Message) (run_id : Text)
          → P s
          → After (round_of host settings session_id h u llm force s window run_id)
      unfolding round_of
      round_of-After force s [] run_id p = p
      round_of-After force s (oldest ∷ rest) run_id p =
          elim (Bool-cases
            (ltb (length (oldest ∷ rest)) (window_size host settings session_id) && not force)) [
              | inr full ↦ rw (full, round_of) (work-After s (oldest ∷ rest) run_id p)
              | inl short ↦ elim (Bool-cases (idle_due host settings session_id s oldest)) [
                | inl due ↦
                    rw (short, round_of, due)
                      (work-After (read_clock s) (oldest ∷ rest) run_id (k.clock s p))
                | inr too_early ↦
                    rw (short, round_of, too_early) (k.early (read_clock s) (k.clock s p))
              ]
            ]

      round-After :
          (force : Bool) (run_id : Text) (s : LoopState)
          → P s
          → After (round host settings session_id h u llm force run_id s)
      unfolding round
      round-After force run_id s p = round_of-After force s _ run_id p

      loop-After :
          (fuel : ℕ) (force : Bool) (run_id : Text) (total : ℕ) (s : LoopState) (n : Next)
          → P s
          → loop host settings session_id h u llm fuel force run_id total s ≡ some n
          → After n
      unfolding loop
      loop-After zero force run_id total s n p e = cc
      loop-After (suc fuel) force run_id total s n p e = elim (Bool-cases (ltb s.seq total)) [
        | inr over ↦ After-eq (finished s) n (ground (arith, over, e)) p
        | inl left ↦
            let q = round-After force run_id s p in
            elim (Next-cases (round host settings session_id h u llm force run_id s)) [
              | inl (s', f) ↦
                  loop-After fuel force run_id total s' n (subst After f q)
                    (ground (arith, left, f, e))
              | inr (inl (s', f)) ↦
                  After-eq (finished s') n (ground (arith, left, f, e)) (subst After f q)
              | inr (inr (s', f)) ↦
                  After-eq (raised s') n (ground (arith, left, f, e)) (subst After f q)
            ]
      ]

      -- The state of the loop at the end of a run that returns a result.
      pub run_windows-kept :
          (force : Bool) (curator after : Curator) (result : CuratorRunResult) (seq total : ℕ)
          → P (begin_loop session_id curator seq)
          → run_windows host settings h u llm session_id force curator seq total
            ≡ some (after, some result)
          → (s : LoopState) × P s × (s.curator ≡ after) × (s.result ≡ result)
      unfolding run_windows
      run_windows-kept force curator after result seq total p e =
          let s = begin_loop session_id curator seq in
          let run_id = host.new_id (codes "crun") curator.store.ids in
          elim (Option-cases
            (loop host settings session_id h u llm (suc total) force run_id total s)) [
              | inl f ↦ absurd (ground (arith, f, e))
              | inr (n, f) ↦
                  let q = loop-After (suc total) force run_id total s n p f in
                  elim (Next-cases n) [
                    | inl (s', g) ↦ absurd (ground (arith, f, e, g))
                    | inr (inl (s', g)) ↦
                        (s', subst After g q, ground (arith, f, e, g), ground (arith, f, e, g))
                    | inr (inr (s', g)) ↦ absurd (ground (arith, f, e, g))
                  ]
            ]
