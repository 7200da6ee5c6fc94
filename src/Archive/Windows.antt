-- ===== src/Archive/Windows.antt =====
-- The windows of `FixedWindowArchiveSplitter`.
use memry_os_lite.Prelude.{
  ℕ, zero, suc, ◌+◌, ◌-◌, ◌≤◌, ◌<◌, ◌≡◌, ◌⊎◌, refl, ◌∙◌, arith, Text, true, ◌==◌, ltb, Bool-cases,
  inl, inr, some, List, [], ◌∷◌, all, length, teq_iff,
}
use memry_os_lite.Grounding.{slice}
use memry_os_lite.Archive.{
  ArchiveTextSpan, FixedWindowArchiveSplitter, make_splitter, window, window_stop, split_loop,
  split, valid_span, validate_spans,
}

module _ (splitter : FixedWindowArchiveSplitter) (text : Text) where
  -- The windows from `start` on: each is a slice of the text, of one to `max_chars` characters; the
  -- next begins `overlap_chars` before its end, and the last ends where the text ends.
  abbrev pub Windows : ℕ → List ArchiveTextSpan → Type 0
  Windows start [] = ⊥
  Windows start (s ∷ rest) =
      (s.start ≡ start)
      × (s.start < s.stop)
      × (s.stop ≤ start + splitter.max_chars)
      × (s.stop ≤ length text)
      × (s.text ≡ slice text s.start s.stop)
      × (((rest ≡ []) × (s.stop ≡ length text)) ⊎ Windows (s.stop - splitter.overlap_chars) rest)

  split_loop-Windows :
      splitter.overlap_chars < splitter.max_chars
      → (fuel start : ℕ) → start < length text
      → length text < fuel + start
      → (spans : List ArchiveTextSpan) × (split_loop splitter text fuel start ≡ some spans)
        × Windows start spans
  unfolding split_loop
  split_loop-Windows small zero start inside enough = absurd (omega arith)
  split_loop-Windows small (suc fuel) start inside enough =
      let more : ltb start (length text) ≡ true = ground arith in
      elim (Bool-cases (window_stop splitter text start == length text)) [
        | inl e ↦ (
          window splitter text start ∷ [],
          rw (more, split_loop, e) refl,
          (refl, omega arith, omega arith, omega arith, refl, inl (refl, ground arith)),
        )
        | inr e ↦
            let next : window_stop splitter text start - splitter.overlap_chars < length text =
              ground arith in
            let (spans, made, chain) =
              split_loop-Windows small fuel
                (window_stop splitter text start - splitter.overlap_chars) next (ground arith) in
            (
              window splitter text start ∷ spans,
              rw (more, split_loop, e, made) refl,
              (refl, omega arith, omega arith, omega arith, refl, inr chain),
            )
      ]

  Windows-valid :
      (start : ℕ) (spans : List ArchiveTextSpan)
      → Windows start spans
      → all (valid_span text) spans ≡ true
  unfolding valid_span
  Windows-valid start [] w = absurd w
  Windows-valid start (s ∷ rest) w =
      let here : valid_span text s ≡ true =
        ground (arith, teq_iff (slice text s.start s.stop) s.text) in
      elim w.5 [
        | inl e ↦ rw (e.0, here) refl
        | inr chain ↦ rw (here, Windows-valid (s.stop - splitter.overlap_chars) rest chain) refl
      ]

overlap-bound :
    (max_chars overlap_chars : ℕ) {splitter : FixedWindowArchiveSplitter}
    → make_splitter max_chars overlap_chars ≡ some splitter
    → splitter.overlap_chars < splitter.max_chars
unfolding make_splitter
overlap-bound max_chars overlap_chars made = ground arith

split-nonempty :
    (splitter : FixedWindowArchiveSplitter) (c : ℕ) (text : Text)
    → split splitter (c ∷ text) ≡ split_loop splitter (c ∷ text) (suc (length (c ∷ text))) 0
unfolding split
split-nonempty splitter c text = ground arith

-- A splitter that its constructor accepts splits every text: no text into no windows, any other into
-- windows that follow one another from its beginning to its end, each a slice of at most `max_chars`
-- characters, and all of them pass `_validate_spans`.
pub split_lem :
    (max_chars overlap_chars : ℕ) (text : Text) {splitter : FixedWindowArchiveSplitter}
    → make_splitter max_chars overlap_chars ≡ some splitter
    → (spans : List ArchiveTextSpan) × (split splitter text ≡ some spans)
      × (validate_spans text spans ≡ true)
      × (((text ≡ []) × (spans ≡ [])) ⊎ Windows splitter text 0 spans)
unfolding split validate_spans
split_lem max_chars overlap_chars [] made = ([], refl, refl, inl (refl, refl))
split_lem max_chars overlap_chars (c ∷ text) {splitter} made =
    let (spans, found, chain) =
      split_loop-Windows splitter (c ∷ text) (overlap-bound max_chars overlap_chars made)
        (suc (length (c ∷ text))) 0 (omega arith) (omega arith) in
    (
      spans,
      split-nonempty splitter c text ∙ found,
      Windows-valid splitter (c ∷ text) 0 spans chain,
      inr chain,
    )
