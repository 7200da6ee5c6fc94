-- ===== src/Supersede/Marks.antt =====
-- The marks of `superseded_quotes`, and the order of `demote_superseded`.
use memry_os_lite.Prelude.{
  ◌≤◌, ◌≡◌, refl, sym, ap, ◌∙◌, arith, Text, Bool, true, false, not, ◌&&◌, ◌||◌, ltb, if◌then◌else◌,
  Bool-cases, inl, inr, List, [], ◌∷◌, ◌++◌, map, keep, any, each, each_inv, length, append-nil,
  append_assoc, Dict, put, keys, elem, is_some, occurs, teq, teq_iff, count, count-keys-put,
  elem_iff_count,
}
use memry_os_lite.Unicode.{Unicode}
use memry_os_lite.Json.{Fields}
use memry_os_lite.Grounding.{min_quote_chars, normalize_text}
use memry_os_lite.Supersede.{
  CuratedMemoryRow, SupersededQuote, quote_of, current_statement, is_active, is_superseded,
  active_quotes, mark_source, mark_row, superseded_quotes, first_mark, match_superseded, is_stale,
  demote_step, demote_superseded,
}

first_mark-any :
    (u : Unicode) (normalized : Text) (ms : List SupersededQuote)
    → is_some (first_mark u normalized ms)
      ≡ any (λ m. occurs (normalize_text u m.quote) normalized) ms
unfolding first_mark
first_mark-any u normalized [] = refl
first_mark-any u normalized (m ∷ ms) = ground (arith, first_mark-any u normalized ms)

keep-same :
    {T : Type 0} {p q : T → Bool} → ((x : T) → p x ≡ q x) → (xs : List T) → keep p xs ≡ keep q xs
keep-same h [] = refl
keep-same h (x ∷ xs) = rw (keep, h x, keep-same h xs) refl

keep-all : {T : Type 0} (xs : List T) → keep (λ x. true) xs ≡ xs
keep-all [] = refl
keep-all (x ∷ xs) = ap (◌∷◌ x) (keep-all xs)

keep-none : {T : Type 0} (xs : List T) → keep (λ x. false) xs ≡ []
keep-none [] = refl
keep-none (x ∷ xs) = keep-none xs

module _ (u : Unicode) where
  -- A source that is long enough has the normal form `k`.
  abbrev pub offers : Text → Fields → Bool
  offers k source =
      not (ltb (length (quote_of source)) min_quote_chars)
      && teq k (normalize_text u (quote_of source))

  -- A superseded row has such a source.
  abbrev pub row_offers : Text → CuratedMemoryRow → Bool
  row_offers k row = is_superseded row && any (offers k) row.sources

  abbrev HasOwnKeys : Dict SupersededQuote → Type 0
  HasOwnKeys d = map (λ e. normalize_text u e.1.quote) d ≡ keys d

  put-HasOwnKeys :
      (d : Dict SupersededQuote) (m : SupersededQuote)
      → HasOwnKeys d
      → HasOwnKeys (put d (normalize_text u m.quote) m)
  unfolding put
  put-HasOwnKeys [] m h = refl
  put-HasOwnKeys ((j, w) ∷ d) m h = ground (arith, put-HasOwnKeys d m)

  module _ (rows : List CuratedMemoryRow) where
    mark_source-HasOwnKeys :
        (row : CuratedMemoryRow) (d : Dict SupersededQuote) (source : Fields)
        → HasOwnKeys d
        → HasOwnKeys (mark_source u rows row d source)
    unfolding mark_source
    mark_source-HasOwnKeys row d source h =
        elim (Bool-cases (
          ltb (length (quote_of source)) min_quote_chars
          || elem (normalize_text u (quote_of source)) (active_quotes u rows)
          || elem (normalize_text u (quote_of source)) (keys d))) [
            | inl e ↦ rw (e, mark_source) h
            | inr e ↦ rw (e, mark_source) (put-HasOwnKeys d _ h)
          ]

    mark_row-HasOwnKeys :
        (d : Dict SupersededQuote) (row : CuratedMemoryRow)
        → HasOwnKeys d
        → HasOwnKeys (mark_row u rows d row)
    unfolding mark_row
    mark_row-HasOwnKeys d row h = elim (Bool-cases (is_superseded row)) [
      | inl e ↦
          rw (e, mark_row)
            (each_inv HasOwnKeys (mark_source u rows row) (mark_source-HasOwnKeys row) d row.sources
              h)
      | inr e ↦ rw (e, mark_row) h
    ]

    -- A key is there once, if it was there, or was offered by a source and grounds no active memory.
    abbrev Holds : Text → Dict SupersededQuote → Bool → Dict SupersededQuote → Type 0
    Holds k d offered d' =
        count k (keys d')
        ≡ (if elem k (keys d) || (offered && not (elem k (active_quotes u rows))) then 1 else 0)

    mark_source-Holds :
        (k : Text) (row : CuratedMemoryRow) (d : Dict SupersededQuote) (source : Fields)
        → count k (keys d) ≤ 1
        → Holds k d (offers k source) (mark_source u rows row d source)
    unfolding mark_source
    mark_source-Holds k row d source once =
        let m : SupersededQuote = record {
          quote = quote_of source;
          current = current_statement (keep is_active rows) row;
        } in
        ground (
          arith,
          teq_iff k (normalize_text u (quote_of source)),
          elem_iff_count k (keys d),
          count-keys-put d (normalize_text u (quote_of source)) k m,
        )

    sources-Holds :
        (k : Text) (row : CuratedMemoryRow) (d : Dict SupersededQuote) (sources : List Fields)
        → count k (keys d) ≤ 1
        → Holds k d (any (offers k) sources) (each (mark_source u rows row) d sources)
    sources-Holds k row d [] once = ground (arith, elem_iff_count k (keys d))
    sources-Holds k row d (source ∷ sources) once = ground (
      arith,
      mark_source-Holds k row d source,
      sources-Holds k row (mark_source u rows row d source) sources,
      elem_iff_count k (keys (mark_source u rows row d source)),
    )

    mark_row-Holds :
        (k : Text) (d : Dict SupersededQuote) (row : CuratedMemoryRow)
        → count k (keys d) ≤ 1
        → Holds k d (row_offers k row) (mark_row u rows d row)
    unfolding mark_row
    mark_row-Holds k d row once =
        ground (arith, sources-Holds k row d row.sources, elem_iff_count k (keys d))

    rows-Holds :
        (k : Text) (d : Dict SupersededQuote) (rs : List CuratedMemoryRow)
        → count k (keys d) ≤ 1
        → Holds k d (any (row_offers k) rs) (each (mark_row u rows) d rs)
    rows-Holds k d [] once = ground (arith, elem_iff_count k (keys d))
    rows-Holds k d (row ∷ rs) once = ground (
      arith,
      mark_row-Holds k d row,
      rows-Holds k (mark_row u rows d row) rs,
      elem_iff_count k (keys (mark_row u rows d row)),
    )

  values-HasOwnKeys :
      (d : Dict SupersededQuote)
      → HasOwnKeys d
      → map (λ m. normalize_text u m.quote) (map (λ e. e.1) d) ≡ keys d
  values-HasOwnKeys d h = map-map d ∙ h
    where
      map-map :
          (d : Dict SupersededQuote)
          → map (λ m. normalize_text u m.quote) (map (λ e. e.1) d)
            ≡ map (λ e. normalize_text u e.1.quote) d
      map-map [] = refl
      map-map (e ∷ d) = ap (◌∷◌ (normalize_text u e.1.quote)) (map-map d)

  -- A normal form belongs to one mark, if a superseded row has a quote of at least
  -- `min_quote_chars` characters with that normal form and no active row has one, and to none
  -- otherwise.
  pub superseded_quotes-once :
      (rows : List CuratedMemoryRow) (k : Text)
      → count k (map (λ m. normalize_text u m.quote) (superseded_quotes u rows))
        ≡ (if any (row_offers k) rows && not (elem k (active_quotes u rows)) then 1 else 0)
  unfolding superseded_quotes elem count
  superseded_quotes-once rows k =
      ap (count k) (
        values-HasOwnKeys (each (mark_row u rows) [] rows)
          (each_inv HasOwnKeys (mark_row u rows) (mark_row-HasOwnKeys rows) [] rows refl))
      ∙ rows-Holds rows k [] rows (omega arith)

  module _ {T : Type 0} (text_of : T → Text) (marks : List SupersededQuote) where
    abbrev fresh_of : List T → List T
    fresh_of = keep (λ item. not (is_stale u text_of marks item))

    abbrev stale_of : List T → List T
    stale_of = keep (is_stale u text_of marks)

    demote-each :
        (fresh stale items : List T)
        → each (demote_step u text_of marks) (fresh, stale) items
          ≡ (fresh ++ fresh_of items, stale ++ stale_of items)
    unfolding demote_step
    demote-each fresh stale [] = rw (append-nil fresh, append-nil stale) refl
    demote-each fresh stale (item ∷ items) = elim (Bool-cases (is_stale u text_of marks item)) [
      | inl e ↦
          rw
            (
              each,
              demote_step,
              e,
              demote-each fresh (stale ++ item ∷ []) items,
              append_assoc stale (item ∷ []) (stale_of items),
            )
            refl
      | inr e ↦
          rw
            (
              each,
              demote_step,
              e,
              demote-each (fresh ++ item ∷ []) stale items,
              append_assoc fresh (item ∷ []) (fresh_of items),
            )
            refl
    ]

    -- The text of an item holds the quote of a mark, up to case and whitespace.
    abbrev pub holds_quote : T → Bool
    holds_quote item =
        any (λ m. occurs (normalize_text u m.quote) (normalize_text u (text_of item))) marks

    is_stale-quote : (item : T) → is_stale u text_of marks item ≡ holds_quote item
    unfolding match_superseded
    is_stale-quote item = first_mark-any u (normalize_text u (text_of item)) marks

  -- `demote_superseded` is the stable partition: first the items whose text holds no quote of a
  -- mark, then those whose text does, each in their order.
  pub demote_superseded-partition :
      {T : Type 0} (text_of : T → Text) (marks : List SupersededQuote) (items : List T)
      → demote_superseded u text_of marks items
        ≡ keep (λ item. not (holds_quote text_of marks item)) items
          ++ keep (holds_quote text_of marks) items
  unfolding demote_superseded
  demote_superseded-partition text_of [] items =
      sym (rw (keep-none items, keep-all items, append-nil items) refl)
  demote_superseded-partition text_of (m ∷ ms) items =
      rw
        (
          demote-each text_of (m ∷ ms) [] [] items,
          keep-same (λ item. ap not (is_stale-quote text_of (m ∷ ms) item)) items,
          keep-same (is_stale-quote text_of (m ∷ ms)) items,
        )
        refl
