-- ===== src/Session/Lookups.antt =====
-- The active rows of a session by their ids: in the table, and in the dictionary of the loop.
use memry_os_lite.Prelude.{
  ◌≤◌, ◌≡◌, refl, arith, Text, false, ◌&&◌, if◌then◌else◌, Option, none, some, List, [], ◌∷◌, ◌++◌,
  each, Dict, get, put, keys, delete, teq, teq_iff, elem, count, count-keys-put, elem_iff_count,
}
use memry_os_lite.Session.Store.{flip, flip_row, is_active_in}
use memry_os_lite.Session.Tables.{CuratedMemoryRow}
use memry_os_lite.Session.Linked.{row_ids}

-- The active row of a session with an id.
unfoldable pub lookup_active : Text → List CuratedMemoryRow → Text → Option CuratedMemoryRow
lookup_active session_id [] k = none
lookup_active session_id (r ∷ rows) k =
    if teq k r.id && is_active_in session_id r then some r else lookup_active session_id rows k

module _ (session_id : Text) where
  lookup-flip :
      (by target k : Text) (rows : List CuratedMemoryRow)
      → lookup_active session_id (flip session_id by rows target) k
        ≡ (if teq k target then none else lookup_active session_id rows k)
  unfolding lookup_active flip flip_row teq
  lookup-flip by target k [] = ground arith
  lookup-flip by target k (r ∷ rows) =
      ground
        (arith, lookup-flip by target k rows, teq_iff k target, teq_iff r.id target, teq_iff k r.id)

  pub lookup-flips :
      (by k : Text) (targets : List Text) (rows : List CuratedMemoryRow)
      → lookup_active session_id (each (flip session_id by) rows targets) k
        ≡ (if elem k targets then none else lookup_active session_id rows k)
  unfolding elem
  lookup-flips by k [] rows = refl
  lookup-flips by k (t ∷ targets) rows =
      ground (arith, lookup-flips by k targets (flip session_id by rows t), lookup-flip by t k rows)

  pub lookup-append :
      (k : Text) (rows : List CuratedMemoryRow) (row : CuratedMemoryRow)
      → lookup_active session_id rows k ≡ none
      → lookup_active session_id (rows ++ row ∷ []) k
        ≡ (if teq k row.id && is_active_in session_id row then some row else none)
  unfolding lookup_active
  lookup-append k [] row h = refl
  lookup-append k (r ∷ rows) row h = ground (arith, h, lookup-append k rows row)

  pub lookup-append_some :
      (k : Text) (rows : List CuratedMemoryRow) (row : CuratedMemoryRow) (r : CuratedMemoryRow)
      → lookup_active session_id rows k ≡ some r
      → lookup_active session_id (rows ++ row ∷ []) k ≡ some r
  unfolding lookup_active
  lookup-append_some k [] row r h = cc
  lookup-append_some k (x ∷ rows) row r h = ground (arith, h, lookup-append_some k rows row r)

  pub lookup-none :
      (k : Text) (rows : List CuratedMemoryRow)
      → elem k (row_ids rows) ≡ false
      → lookup_active session_id rows k ≡ none
  unfolding lookup_active elem
  lookup-none k [] h = refl
  lookup-none k (r ∷ rows) h = ground (arith, h, lookup-none k rows)

module _ {V : Type 0} where
  -- Each key stands once.
  abbrev pub HasOnce : Dict V → Type 0
  HasOnce d = (j : Text) → count j (keys d) ≤ 1

  get-absent : (d : Dict V) (k : Text) → count k (keys d) ≡ 0 → get d k ≡ none
  unfolding get count
  get-absent [] k h = refl
  get-absent ((j, v) ∷ d) k h = ground (arith, h, get-absent d k)

  count-keys-delete : (d : Dict V) (k j : Text) → count j (keys (delete d k)) ≤ count j (keys d)
  unfolding delete count
  count-keys-delete [] k j = ground arith
  count-keys-delete ((i, v) ∷ d) k j = ground (arith, count-keys-delete d k j)

  HasOnce-delete : (d : Dict V) (k : Text) → HasOnce d → HasOnce (delete d k)
  HasOnce-delete d k h j = omega (arith, h j, count-keys-delete d k j)

  pub HasOnce-put : (d : Dict V) (k : Text) (v : V) → HasOnce d → HasOnce (put d k v)
  HasOnce-put d k v h j =
      ground (arith, h j, count-keys-put d k j v, elem_iff_count k (keys d), teq_iff j k)

  get-delete :
      (d : Dict V) (k j : Text)
      → count k (keys d) ≤ 1
      → get (delete d k) j ≡ (if teq j k then none else get d j)
  unfolding get delete count
  get-delete [] k j h = ground arith
  get-delete ((i, v) ∷ d) k j h =
      ground (arith, h, get-delete d k j, get-absent d k, teq_iff k i, teq_iff j i, teq_iff j k)

  pub HasOnce-deletes : (ks : List Text) (d : Dict V) → HasOnce d → HasOnce (each delete d ks)
  HasOnce-deletes [] d h = h
  HasOnce-deletes (k ∷ ks) d h = HasOnce-deletes ks (delete d k) (HasOnce-delete d k h)

  pub get-deletes :
      (ks : List Text) (d : Dict V) (j : Text)
      → HasOnce d
      → get (each delete d ks) j ≡ (if elem j ks then none else get d j)
  unfolding elem
  get-deletes [] d j h = refl
  get-deletes (k ∷ ks) d j h =
      ground (arith, get-deletes ks (delete d k) j (HasOnce-delete d k h), get-delete d k j (h k))
