-- ===== src/Session/Steps.antt =====
-- What a run of the session curator does to the store, as a relation of steps, and that runs end.
use memry_os_lite.Prelude.{
  ℕ, ◌+◌, max, ◌≤◌, ◌≡◌, inl, inr, refl, ap, ◌∙◌, arith, Text, true, if◌then◌else◌, Option-cases,
  none, some, or_else, List, keep, length, All, get, get-put, teq, teq_iff,
}
use memry_os_lite.Session.Store.{
  WindowReport, StateChange, changed_state, fresh_state, mutate_curator_state, apply_curator_window,
  bump_curator_state, count_session_messages, get_curator_state, in_session,
}
use memry_os_lite.Session.Tables.{CuratedMemoryWrite, Store, Host}
use memry_os_lite.Session.Run.{watermark}

-- The write is stored as active.
abbrev pub IsNew : CuratedMemoryWrite → Type 0
IsNew write = write.superseded_by_id ≡ none

module _ (host : Host) (session_id : Text) where
  -- A step of a run: messages are consumed with the writes that they led to, a failure is counted,
  -- or the clock or the source of ids is read.
  pub data Step : Store → Store → Type 0 where
    consume :
        (store : Store) (run_id model : Text) (seq n : ℕ) (writes : List CuratedMemoryWrite)
        (report : WindowReport)
        → seq ≡ watermark store session_id
        → seq + n ≤ count_session_messages store session_id
        → All IsNew writes
        → Step store
            (apply_curator_window host store session_id run_id model (seq + n) writes report).0
    bump :
        (store : Store) (report : WindowReport)
        → Step store (bump_curator_state host store session_id report)
    read_time : (store : Store) → Step store (record store { times = store.times + 1 })
    draw_id : (store : Store) → Step store (record store { ids = store.ids + 1 })

  pub data Reach (start : Store) : Store → Type 0 where
    here : Reach start start
    next : {a b : Store} → Reach start a → Step a b → Reach start b

  -- The state of a session after a change of another or of its own.
  pub get-mutate :
      (store : Store) (j : Text) (change : StateChange)
      → get (mutate_curator_state store.states session_id change) j ≡ (
          if teq j session_id
          then some (changed_state (or_else (get store.states session_id) fresh_state) change)
          else get store.states j)
  unfolding mutate_curator_state
  get-mutate store j change = get-put store.states session_id j _

  teq_self : teq session_id session_id ≡ true
  teq_self = (teq_iff session_id session_id).1 refl

  pub watermark-apply :
      (store : Store) (run_id model : Text) (last : ℕ) (writes : List CuratedMemoryWrite)
      (report : WindowReport)
      → watermark
          (apply_curator_window host store session_id run_id model last writes report).0
          session_id
        ≡ last
  unfolding apply_curator_window get_curator_state changed_state
  watermark-apply store run_id model last writes report =
      rw (get-mutate store session_id _, teq_self) refl

  pub watermark-bump :
      (store : Store) (report : WindowReport)
      → watermark (bump_curator_state host store session_id report) session_id
        ≡ watermark store session_id
  unfolding bump_curator_state get_curator_state changed_state
  watermark-bump store report = elim (Option-cases (get store.states session_id)) [
    | inl e ↦ rw (get-mutate store session_id _, teq_self, e) refl
    | inr (state, e) ↦ rw (get-mutate store session_id _, teq_self, e) refl
  ]

  -- Along the steps of a run the watermark of the session does not fall, or pass the messages,
  -- which stay.
  pub record IsOnward (a b : Store) : Type 0 where
    pub messages : b.messages ≡ a.messages
    pub onward : watermark a session_id ≤ watermark b session_id
    pub within :
        watermark b session_id ≤ max (watermark a session_id) (count_session_messages a session_id)

  IsOnward-refl : (a : Store) → IsOnward a a
  IsOnward-refl a = record { messages = refl; onward = omega arith; within = omega arith }

  pub count_same :
      (a b : Store)
      → b.messages ≡ a.messages
      → count_session_messages b session_id ≡ count_session_messages a session_id
  unfolding count_session_messages
  count_same a b e = ap (λ ms. length (keep (in_session session_id) ms)) e

  IsOnward-trans : (a b c : Store) → IsOnward a b → IsOnward b c → IsOnward a c
  IsOnward-trans a b c ab bc =
      let same = count_same a b ab.messages in
      record {
        messages = bc.messages ∙ ab.messages;
        onward = omega (arith, ab.onward, bc.onward);
        within = omega (arith, ab.onward, bc.onward, ab.within, bc.within, same);
      }

  pub Step-IsOnward : {a b : Store} → Step a b → IsOnward a b
  unfolding apply_curator_window bump_curator_state get_curator_state
  Step-IsOnward (consume store run_id model seq n writes report at bound new) =
      let e = watermark-apply store run_id model (seq + n) writes report in
      record {
        messages = refl;
        onward = omega (arith, e, at);
        within = omega (arith, e, bound, at);
      }
  Step-IsOnward (bump store report) =
      let e = watermark-bump store report in
      record { messages = refl; onward = omega (arith, e); within = omega (arith, e) }
  Step-IsOnward (read_time store) = record {
    messages = refl;
    onward = omega arith;
    within = omega arith;
  }
  Step-IsOnward (draw_id store) = record {
    messages = refl;
    onward = omega arith;
    within = omega arith;
  }

  pub Reach-IsOnward : {a b : Store} → Reach a b → IsOnward a b
  Reach-IsOnward {a = a} here = IsOnward-refl a
  Reach-IsOnward {a = a} {b = b} (next r st) =
      IsOnward-trans a _ b (Reach-IsOnward r) (Step-IsOnward st)
