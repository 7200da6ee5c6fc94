-- ===== src/Session/Linked.antt =====
-- Which rows of the session curator's table are superseded.
use memry_os_lite.Prelude.{
  ℕ, ◌≡◌, ◌⊎◌, inl, inr, refl, sym, ◌∙◌, arith, Text, codes, Bool, true, ◌&&◌, Bool-cases, none,
  some, List, [], ◌∷◌, ◌++◌, map, map-append, each, each_inv, each_inv_all, All, All-append, teq,
  teq_iff, elem,
}
use mathlib.Core.Path.{subst}
use memry_os_lite.Unicode.{Unicode}
use memry_os_lite.Curate.Consolidate.{Hashing}
use memry_os_lite.Session.Store.{
  Stamp, flip, flip_row, is_active_in, insert_write, record_of, targets_of, apply_curator_window,
  bump_curator_state,
}
use memry_os_lite.Session.Tables.{
  CuratedMemoryRow, CuratedMemoryWrite, Store, Host, superseded_status, active_status,
}
use memry_os_lite.Session.Run.{Ran, run_session}
use memry_os_lite.Session.Variables.{Settings, Curator}
use memry_os_lite.Session.Steps.{Step, consume, bump, read_time, draw_id, Reach, here, next, IsNew}
use memry_os_lite.Session.Ends.{Reach-run_session}

abbrev pub row_ids : List CuratedMemoryRow → List Text
row_ids = map (λ r. r.id)

-- A row is active and superseded by nothing, or superseded by a row whose id is among the ids.
abbrev pub Linked : List Text → CuratedMemoryRow → Type 0
Linked ids r =
    ((r.status ≡ active_status) × (r.superseded_by_id ≡ none))
    ⊎ ((r.status ≡ superseded_status)
        × (by : Text) × (r.superseded_by_id ≡ some by)
        × (elem by ids ≡ true))

abbrev pub IsLinked : List CuratedMemoryRow → Type 0
IsLinked rows = All (Linked (row_ids rows)) rows

elem-append : (x : Text) (xs ys : List Text) → elem x xs ≡ true → elem x (xs ++ ys) ≡ true
unfolding elem
elem-append x [] ys h = cc
elem-append x (y ∷ xs) ys h = ground (arith, elem-append x xs ys)

elem-last : (x : Text) (xs : List Text) → elem x (xs ++ x ∷ []) ≡ true
unfolding elem
elem-last x [] = ground (arith, teq_iff x x)
elem-last x (y ∷ xs) = ground (arith, elem-last x xs)

Linked-append :
    (ids more : List Text) (r : CuratedMemoryRow) → Linked ids r → Linked (ids ++ more) r
Linked-append ids more r (inl a) = inl a
Linked-append ids more r (inr (s, by, e, m)) = inr (s, by, e, elem-append by ids more m)

All-Linked-append :
    (ids more : List Text) (rs : List CuratedMemoryRow)
    → All (Linked ids) rs
    → All (Linked (ids ++ more)) rs
All-Linked-append ids more [] h = tt
All-Linked-append ids more (r ∷ rs) h =
    (Linked-append ids more r h.0, All-Linked-append ids more rs h.1)

module _ (session_id by : Text) where
  id-flip_row : (target : Text) (r : CuratedMemoryRow) → (flip_row session_id by target r).id ≡ r.id
  unfolding flip_row
  id-flip_row target r = ground arith

  pub ids-flip :
      (target : Text) (rs : List CuratedMemoryRow)
      → row_ids (flip session_id by rs target) ≡ row_ids rs
  unfolding flip
  ids-flip target [] = refl
  ids-flip target (r ∷ rs) = ground (arith, id-flip_row target r, ids-flip target rs)

  Linked-flip_row :
      (ids : List Text) (target : Text) (r : CuratedMemoryRow)
      → elem by ids ≡ true
      → Linked ids r
      → Linked ids (flip_row session_id by target r)
  unfolding flip_row
  Linked-flip_row ids target r m h =
      elim (Bool-cases (teq r.id target && is_active_in session_id r)) [
        | inl e ↦ rw (e, flip_row) (inr (refl, by, refl, m))
        | inr e ↦ rw (e, flip_row) h
      ]

  Linked-flip :
      (ids : List Text) (target : Text) (rs : List CuratedMemoryRow)
      → elem by ids ≡ true
      → All (Linked ids) rs
      → All (Linked ids) (flip session_id by rs target)
  unfolding flip
  Linked-flip ids target [] m h = tt
  Linked-flip ids target (r ∷ rs) m h =
      (Linked-flip_row ids target r m h.0, Linked-flip ids target rs m h.1)

  -- The rows after flips: their ids are those before.
  abbrev pub Flipped : List Text → List CuratedMemoryRow → Type 0
  Flipped ids rs = (row_ids rs ≡ ids) × All (Linked ids) rs

  pub Linked-flips :
      (ids : List Text) (targets : List Text) (rs : List CuratedMemoryRow)
      → elem by ids ≡ true
      → Flipped ids rs
      → Flipped ids (each (flip session_id by) rs targets)
  Linked-flips ids targets rs m h =
      each_inv (Flipped ids) (flip session_id by)
        (λ s target f. (ids-flip target s ∙ f.0, Linked-flip ids target s m f.1)) rs targets h

  Flipped-IsLinked : (ids : List Text) (rs : List CuratedMemoryRow) → Flipped ids rs → IsLinked rs
  Flipped-IsLinked ids rs f = subst (λ i. All (Linked i) rs) (sym f.0) f.1

module _ (host : Host) where
  record_of-Linked :
      (stamp : Stamp) (id : Text) (write : CuratedMemoryWrite) (ids : List Text)
      → IsNew write
      → Linked ids (record_of stamp id write)
  unfolding record_of
  record_of-Linked stamp id write ids new = inl (rw new refl, new)

  -- A row behind the others, before the flips.
  append-IsLinked :
      (rows : List CuratedMemoryRow) (row : CuratedMemoryRow)
      → IsLinked rows
      → ((ids : List Text) → Linked ids row)
      → IsLinked (rows ++ row ∷ [])
  append-IsLinked rows row h linked =
      All-append (Linked (row_ids (rows ++ row ∷ []))) rows (row ∷ [])
        (rw (map-append (λ r. r.id) rows (row ∷ [])) (All-Linked-append (row_ids rows) _ rows h))
        (linked _, tt)

  elem-row :
      (rows : List CuratedMemoryRow) (row : CuratedMemoryRow)
      → elem row.id (row_ids (rows ++ row ∷ [])) ≡ true
  elem-row rows row = rw (map-append (λ r. r.id) rows (row ∷ [])) (elem-last row.id (row_ids rows))

  pub insert_write-IsLinked :
      (stamp : Stamp) (t : List CuratedMemoryRow × List CuratedMemoryRow × ℕ)
      (write : CuratedMemoryWrite)
      → IsNew write
      → IsLinked t.0
      → IsLinked (insert_write host stamp t write).0
  unfolding insert_write
  insert_write-IsLinked stamp t write new h =
      let row = record_of stamp (host.new_id (codes "cmem") t.2) write in
      let flipped =
        Linked-flips stamp.session_id row.id (row_ids (t.0 ++ row ∷ [])) (targets_of write)
          (t.0 ++ row ∷ []) (elem-row t.0 row)
          (
            refl,
            append-IsLinked t.0 row h
                (λ ids. record_of-Linked stamp (host.new_id (codes "cmem") t.2) write ids new),
          ) in
      Flipped-IsLinked stamp.session_id row.id _ _ flipped

  module _ (session_id : Text) where
    Step-IsLinked :
        {a b : Store} → Step host session_id a b → IsLinked a.memories → IsLinked b.memories
    unfolding apply_curator_window bump_curator_state
    Step-IsLinked (consume store run_id model seq n writes report at bound new) h =
        let stamp : Stamp = record {
          session_id = session_id;
          run_id = run_id;
          model = model;
          now = host.utc_now store.times;
        } in
        each_inv_all IsNew (λ t. IsLinked t.0) (insert_write host stamp)
          (λ t write. insert_write-IsLinked stamp t write) _ writes new h
    Step-IsLinked (bump store report) h = h
    Step-IsLinked (read_time store) h = h
    Step-IsLinked (draw_id store) h = h

    Reach-IsLinked :
        {a b : Store} → Reach host session_id a b → IsLinked a.memories → IsLinked b.memories
    Reach-IsLinked here h = h
    Reach-IsLinked (next r st) h = Step-IsLinked st (Reach-IsLinked r h)

-- If each row of the table is either active and superseded by nothing, or superseded by a row of
-- the table, then so it is after a run.
pub run_session-IsLinked :
    (host : Host) (settings : Settings) (h : Hashing) (u : Unicode) (session_id : Text)
    (force : Bool) (curator : Curator) (outcome : Ran)
    → run_session host settings h u session_id force curator ≡ some outcome
    → IsLinked curator.store.memories
    → IsLinked outcome.0.store.memories
run_session-IsLinked host settings h u session_id force curator outcome e linked =
    Reach-IsLinked host session_id
      (Reach-run_session host settings h u session_id force curator outcome e) linked
