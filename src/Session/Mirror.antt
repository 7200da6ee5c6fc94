-- ===== src/Session/Mirror.antt =====
-- The dictionary of active rows that the loop of `run_session` keeps, against the table.
use memry_os_lite.Prelude.{
  ℕ, ◌+◌, ◌≤◌, ◌≡◌, inl, inr, refl, sym, ◌∙◌, arith, Text, codes, false, ◌&&◌, ◌||◌, if◌then◌else◌,
  Bool-cases, Option-cases, none, some, List, [], ◌∷◌, ◌++◌, append_assoc, append-nil, each,
  map-append, All, Dict, get, get-put, delete, teq, teq_iff, elem,
}
use memry_os_lite.Session.Store.{
  Stamp, flip, insert_write, record_of, targets_of, apply_curator_window,
}
use memry_os_lite.Session.Tables.{CuratedMemoryRow, CuratedMemoryWrite, Message, Host, is_active}
use memry_os_lite.Session.Window.{WindowCounts}
use memry_os_lite.Session.Run.{commit_window}
use memry_os_lite.Session.Variables.{Settings, LoopState, note_write, zip_writes}
use memry_os_lite.Session.Linked.{row_ids, ids-flip}
use memry_os_lite.Session.Lookups.{
  lookup_active, lookup-flips, lookup-append, lookup-append_some, lookup-none, HasOnce, HasOnce-put,
  HasOnce-deletes, get-deletes,
}

-- The dictionary has the active rows of the session by their ids, and no others.
pub record Mirrors (session_id : Text) (rows : List CuratedMemoryRow)
    (active : Dict CuratedMemoryRow) : Type 0 where
  pub once : HasOnce active
  pub same : (k : Text) → get active k ≡ lookup_active session_id rows k

elem-append_last : (x y : Text) (xs : List Text) → elem x (xs ++ y ∷ []) ≡ (elem x xs || teq x y)
unfolding elem
elem-append_last x y [] = ground arith
elem-append_last x y (z ∷ xs) = ground (arith, elem-append_last x y xs)

ids-flips :
    (session_id by : Text) (targets : List Text) (rows : List CuratedMemoryRow)
    → row_ids (each (flip session_id by) rows targets) ≡ row_ids rows
ids-flips session_id by [] rows = refl
ids-flips session_id by (t ∷ targets) rows =
    ids-flips session_id by targets (flip session_id by rows t) ∙ ids-flip session_id by t rows

module _ (host : Host) where
  abbrev pub cmem_id : ℕ → Text
  cmem_id n = host.new_id (codes "cmem") n

  -- The ids to come are those of no row and of no target, and differ.
  pub record IsFresh (ids : ℕ) (rows : List CuratedMemoryRow) (writes : List CuratedMemoryWrite)
      : Type 0 where
    pub new_rows : (n : ℕ) → ids ≤ n → elem (cmem_id n) (row_ids rows) ≡ false
    pub new_targets : (n : ℕ) → ids ≤ n → All (λ w. elem (cmem_id n) (targets_of w) ≡ false) writes
    pub distinct : (m n : ℕ) → cmem_id m ≡ cmem_id n → m ≡ n

  module _ (stamp : Stamp) where
    -- The rows that the writes create.
    created_of : ℕ → List CuratedMemoryWrite → List CuratedMemoryRow
    created_of ids [] = []
    created_of ids (w ∷ writes) = record_of stamp (cmem_id ids) w ∷ created_of (ids + 1) writes

    created_lem :
        (t : List CuratedMemoryRow × List CuratedMemoryRow × ℕ) (writes : List CuratedMemoryWrite)
        → (each (insert_write host stamp) t writes).1 ≡ t.1 ++ created_of t.2 writes
    unfolding created_of insert_write
    created_lem t [] = sym (append-nil t.1)
    created_lem t (w ∷ writes) =
        created_lem (insert_write host stamp t w) writes ∙ append_assoc t.1 _ _

    -- The table with the new row behind, at an id.
    lookup-new :
        (rows : List CuratedMemoryRow) (row : CuratedMemoryRow) (k : Text)
        → row.session_id ≡ stamp.session_id
        → elem row.id (row_ids rows) ≡ false
        → lookup_active stamp.session_id (rows ++ row ∷ []) k ≡ (
            if is_active row && teq k row.id
            then some row
            else lookup_active stamp.session_id rows k)
    lookup-new rows row k session new_row =
        elim (Option-cases (lookup_active stamp.session_id rows k)) [
          | inl e ↦ ground (
            arith,
            e,
            session,
            teq_iff row.session_id stamp.session_id,
            lookup-append stamp.session_id k rows row e,
          )
          | inr (r, e) ↦ ground (
            arith,
            e,
            new_row,
            teq_iff k row.id,
            lookup-none stamp.session_id row.id rows,
            lookup-append_some stamp.session_id k rows row r e,
          )
        ]

    get-note_write :
        (active : Dict CuratedMemoryRow) (w : CuratedMemoryWrite) (row : CuratedMemoryRow)
        (k : Text)
        → HasOnce active
        → get (note_write active (w, row)) k ≡ (
            if is_active row && teq k row.id
            then some row
            else if elem k (targets_of w)
            then none
            else get active k)
    unfolding note_write
    get-note_write active w row k once = ground (
      arith,
      get-put (each delete active (targets_of w)) row.id k row,
      get-deletes (targets_of w) active k once,
    )

    HasOnce-note_write :
        (active : Dict CuratedMemoryRow) (w : CuratedMemoryWrite) (row : CuratedMemoryRow)
        → HasOnce active
        → HasOnce (note_write active (w, row))
    unfolding note_write
    HasOnce-note_write active w row once = elim (Bool-cases (is_active row)) [
      | inl e ↦
          rw (e, note_write) (HasOnce-put _ row.id row (HasOnce-deletes (targets_of w) active once))
      | inr e ↦ rw (e, note_write) (HasOnce-deletes (targets_of w) active once)
    ]

    ids-insert_write :
        (rows created : List CuratedMemoryRow) (ids : ℕ) (w : CuratedMemoryWrite)
        → row_ids (insert_write host stamp (rows, created, ids) w).0
          ≡ row_ids rows ++ cmem_id ids ∷ []
    unfolding insert_write record_of
    ids-insert_write rows created ids w =
        ids-flips stamp.session_id (cmem_id ids) (targets_of w) _ ∙ map-append (λ r. r.id) rows _

    insert_write-Mirrors :
        (rows created : List CuratedMemoryRow) (ids : ℕ) (active : Dict CuratedMemoryRow)
        (w : CuratedMemoryWrite)
        → elem (cmem_id ids) (row_ids rows) ≡ false
        → elem (cmem_id ids) (targets_of w) ≡ false
        → Mirrors stamp.session_id rows active
        → Mirrors stamp.session_id
            (insert_write host stamp (rows, created, ids) w).0
            (note_write active (w, record_of stamp (cmem_id ids) w))
    unfolding insert_write record_of
    insert_write-Mirrors rows created ids active w new_row new_target m =
        let row = record_of stamp (cmem_id ids) w in
        record {
          once = HasOnce-note_write active w row m.once;
          same = λ k. ground (
            arith,
            get-note_write active w row k m.once,
            lookup-flips stamp.session_id row.id k (targets_of w) (rows ++ row ∷ []),
            lookup-new rows row k refl new_row,
            m.same k,
            new_target,
            teq_iff k row.id,
          );
        }

    insert_write-IsFresh :
        (rows created : List CuratedMemoryRow) (ids : ℕ) (w : CuratedMemoryWrite)
        (writes : List CuratedMemoryWrite)
        → IsFresh ids rows (w ∷ writes)
        → IsFresh (ids + 1) (insert_write host stamp (rows, created, ids) w).0 writes
    insert_write-IsFresh rows created ids w writes f = record {
      new_rows = λ n h. rw (ids-insert_write rows created ids w) (
          ground (
            arith,
            elem-append_last (cmem_id n) (cmem_id ids) (row_ids rows),
            f.new_rows n (omega (arith, h)),
            teq_iff (cmem_id n) (cmem_id ids),
            f.distinct n ids,
            h,
          ));
      new_targets = λ n h. (f.new_targets n (omega (arith, h))).1;
      distinct = f.distinct;
    }

    inserts-Mirrors :
        (rows created : List CuratedMemoryRow) (ids : ℕ) (active : Dict CuratedMemoryRow)
        (writes : List CuratedMemoryWrite)
        → IsFresh ids rows writes
        → Mirrors stamp.session_id rows active
        → Mirrors stamp.session_id
            (each (insert_write host stamp) (rows, created, ids) writes).0
            (each note_write active (zip_writes writes (created_of ids writes)))
    unfolding created_of zip_writes insert_write
    inserts-Mirrors rows created ids active [] f m = m
    inserts-Mirrors rows created ids active (w ∷ writes) f m =
        inserts-Mirrors (insert_write host stamp (rows, created, ids) w).0
          (insert_write host stamp (rows, created, ids) w).1 (ids + 1)
          (note_write active (w, record_of stamp (cmem_id ids) w)) writes
          (insert_write-IsFresh rows created ids w writes f)
          (insert_write-Mirrors rows created ids active w (f.new_rows ids (omega arith))
            (f.new_targets ids (omega arith)).0 m)

  -- A window that is committed leaves the dictionary and the table in agreement: if the dictionary
  -- has exactly the active rows of the session by their ids, so it has after the window, if the ids
  -- to come differ and are those of no row and of no row that a write names.
  pub commit_window-Mirrors :
      (settings : Settings) (session_id : Text) (s : LoopState) (window : List Message)
      (run_id : Text) (counts : WindowCounts)
      → IsFresh s.curator.store.ids s.curator.store.memories counts.writes
      → Mirrors session_id s.curator.store.memories s.active
      → let s' = commit_window host settings session_id s window run_id counts in
        Mirrors session_id s'.curator.store.memories s'.active
  unfolding commit_window apply_curator_window
  commit_window-Mirrors settings session_id s window run_id counts f m =
      let store = s.curator.store in
      let stamp : Stamp = record {
        session_id = session_id;
        run_id = run_id;
        model = settings.model;
        now = host.utc_now store.times;
      } in
      rw (created_lem stamp (store.memories, [], store.ids) counts.writes)
        (inserts-Mirrors stamp store.memories [] store.ids s.active counts.writes f m)
