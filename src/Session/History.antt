-- ===== src/Session/History.antt =====
-- What the runs of the session curator leave of the rows that are in its table.
use memry_os_lite.Prelude.{
  ℕ, ◌≡◌, ◌⊎◌, inl, inr, refl, ap, ◌∙◌, arith, Text, codes, Bool, true, ◌&&◌, Bool-cases, some,
  List, [], ◌∷◌, ◌++◌, each, each_inv, All, teq,
}
use memry_os_lite.Unicode.{Unicode}
use memry_os_lite.Curate.Consolidate.{Hashing}
use memry_os_lite.Session.Store.{
  Stamp, flip, flip_row, is_active_in, insert_write, record_of, targets_of, apply_curator_window,
  bump_curator_state,
}
use memry_os_lite.Session.Tables.{
  CuratedMemoryRow, CuratedMemoryWrite, Store, Host, superseded_status,
}
use memry_os_lite.Session.Run.{Ran, run_session}
use memry_os_lite.Session.Variables.{Settings, Curator}
use memry_os_lite.Session.Steps.{Step, consume, bump, read_time, draw_id, Reach, here, next}
use memry_os_lite.Session.Ends.{Reach-run_session}

module _ (session_id : Text) where
  -- An active row of the session, marked as superseded by another.
  abbrev pub Retired : CuratedMemoryRow → CuratedMemoryRow → Type 0
  Retired r r' =
      (is_active_in session_id r ≡ true)
      × (by : Text) × (r' ≡ record r { status = superseded_status; superseded_by_id = some by })

  abbrev pub Kept : CuratedMemoryRow → CuratedMemoryRow → Type 0
  Kept r r' = (r' ≡ r) ⊎ Retired r r'

  -- Each row is kept in its place, and the rows behind are of the session.
  abbrev pub Extends : List CuratedMemoryRow → List CuratedMemoryRow → Type 0
  Extends [] after = All (λ r. r.session_id ≡ session_id) after
  Extends (r ∷ rs) [] = ⊥
  Extends (r ∷ rs) (r' ∷ rs') = Kept r r' × Extends rs rs'

  pub Extends-refl : (rs : List CuratedMemoryRow) → Extends rs rs
  Extends-refl [] = tt
  Extends-refl (r ∷ rs) = (inl refl, Extends-refl rs)

  Kept-session : (r r' : CuratedMemoryRow) → Kept r r' → r'.session_id ≡ r.session_id
  Kept-session r r' (inl e) = ap (λ x. x.session_id) e
  Kept-session r r' (inr (a, by, e)) = ap (λ x. x.session_id) e

  Kept-trans : (a b c : CuratedMemoryRow) → Kept a b → Kept b c → Kept a c
  unfolding teq
  Kept-trans a b c (inl e) k = rw e at k
  Kept-trans a b c (inr (act, by, e)) (inl e') = inr (act, by, e' ∙ e)
  Kept-trans a b c (inr (act, by, e)) (inr (act', _, _)) = absurd (ground (arith, e))

  Extends-trans : (a b c : List CuratedMemoryRow) → Extends a b → Extends b c → Extends a c
  Extends-trans [] [] c h k = k
  Extends-trans [] (r ∷ b) [] h k = tt
  Extends-trans [] (r ∷ b) (s ∷ c) h k = (Kept-session r s k.0 ∙ h.0, Extends-trans [] b c h.1 k.1)
  Extends-trans (r ∷ a) [] c h k = absurd h
  Extends-trans (r ∷ a) (s ∷ b) [] h k = absurd k
  Extends-trans (r ∷ a) (s ∷ b) (t ∷ c) h k =
      (Kept-trans r s t h.0 k.0, Extends-trans a b c h.1 k.1)

  Kept-flip_row :
      (by target : Text) (r : CuratedMemoryRow) → Kept r (flip_row session_id by target r)
  unfolding flip_row
  Kept-flip_row by target r = elim (Bool-cases (teq r.id target && is_active_in session_id r)) [
    | inl e ↦ rw (e, flip_row) (inr (ground arith, by, refl))
    | inr e ↦ rw (e, flip_row) (inl refl)
  ]

  Extends-flip :
      (by target : Text) (rs : List CuratedMemoryRow) → Extends rs (flip session_id by rs target)
  unfolding flip
  Extends-flip by target [] = tt
  Extends-flip by target (r ∷ rs) = (Kept-flip_row by target r, Extends-flip by target rs)

  Extends-flips :
      (by : Text) (targets : List Text) (start rs : List CuratedMemoryRow)
      → Extends start rs
      → Extends start (each (flip session_id by) rs targets)
  Extends-flips by targets start rs h =
      each_inv (Extends start) (flip session_id by)
        (λ s target e. Extends-trans start s _ e (Extends-flip by target s)) rs targets h

  Extends-append :
      (rs : List CuratedMemoryRow) (r : CuratedMemoryRow)
      → r.session_id ≡ session_id
      → Extends rs (rs ++ r ∷ [])
  Extends-append [] r e = (e, tt)
  Extends-append (x ∷ rs) r e = (inl refl, Extends-append rs r e)

module _ (host : Host) where
  Extends-insert_write :
      (stamp : Stamp) (start : List CuratedMemoryRow)
      (t : List CuratedMemoryRow × List CuratedMemoryRow × ℕ) (write : CuratedMemoryWrite)
      → Extends stamp.session_id start t.0
      → Extends stamp.session_id start (insert_write host stamp t write).0
  unfolding insert_write record_of
  Extends-insert_write stamp start t write h =
      Extends-flips stamp.session_id (host.new_id (codes "cmem") t.2) (targets_of write) start _
        (Extends-trans stamp.session_id start t.0 _ h (Extends-append stamp.session_id t.0 _ refl))

  module _ (session_id : Text) where
    Step-Extends :
        {a b : Store} → Step host session_id a b → Extends session_id a.memories b.memories
    unfolding apply_curator_window bump_curator_state
    Step-Extends (consume store run_id model seq n writes report at bound new) =
        let stamp : Stamp = record {
          session_id = session_id;
          run_id = run_id;
          model = model;
          now = host.utc_now store.times;
        } in
        each_inv (λ t. Extends session_id store.memories t.0) (insert_write host stamp)
          (λ t write. Extends-insert_write stamp store.memories t write) _ writes
          (Extends-refl session_id store.memories)
    Step-Extends (bump store report) = Extends-refl session_id store.memories
    Step-Extends (read_time store) = Extends-refl session_id store.memories
    Step-Extends (draw_id store) = Extends-refl session_id store.memories

    Reach-Extends :
        {a b : Store} → Reach host session_id a b → Extends session_id a.memories b.memories
    Reach-Extends {a = a} here = Extends-refl session_id a.memories
    Reach-Extends {a = a} {b = b} (next r st) =
        Extends-trans session_id a.memories _ b.memories (Reach-Extends r) (Step-Extends st)

-- A run never deletes, moves or rewrites a row: a row that was there stays in its place, as it is
-- or, if it was an active row of the session, marked as superseded by another; all new rows are of
-- the session.
pub run_session-Extends :
    (host : Host) (settings : Settings) (h : Hashing) (u : Unicode) (session_id : Text)
    (force : Bool) (curator : Curator) (outcome : Ran)
    → run_session host settings h u session_id force curator ≡ some outcome
    → Extends session_id curator.store.memories outcome.0.store.memories
run_session-Extends host settings h u session_id force curator outcome e =
    Reach-Extends host session_id
      (Reach-run_session host settings h u session_id force curator outcome e)
