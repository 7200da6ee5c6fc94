-- ===== src/Curate/TopicKey.antt =====
-- `normalize_topic_key` and `_statement` of src/memoryos_lite/curator/curate.py.
use memry_os_lite.Prelude.{
  ℕ, Text, Bool, true, false, not, ◌&&◌, ◌||◌, ◌==◌, ltb, leb, if◌then◌else◌, Option, none, some,
  [], ◌∷◌, is_space, strip, length,
}
use memry_os_lite.Unicode.{Unicode, casefold}
use memry_os_lite.Curate.Model.{max_statement_chars, max_topic_key_chars}

-- `re.sub(r"p+", r, s)`, for one replacement character `r`; in a run of `p` the rest is dropped
pub sub_runs : (ℕ → Bool) → ℕ → Bool → Text → Text
sub_runs p r in_run [] = []
sub_runs p r in_run (c ∷ s) = elim (p c) [
  | true ↦ (if in_run then sub_runs p r true s else r ∷ sub_runs p r true s)
  | false ↦ c ∷ sub_runs p r false s
]

abbrev next_is_dot : Text → Bool
next_is_dot [] = false
next_is_dot (c ∷ s) = c == b'.'

-- `re.sub(r"_?\._?", ".", s)`, from the left; `after_dot` holds right behind a dot, where the match
-- takes one `_` more
pub sub_dots : Bool → Text → Text
sub_dots after_dot [] = []
sub_dots after_dot (c ∷ s) = elim (c == b'_') [
  | true ↦ (if after_dot || next_is_dot s then sub_dots false s else c ∷ sub_dots false s)
  | false ↦ c ∷ sub_dots (c == b'.') s
]

-- the characters that are stripped at the ends of a key
abbrev pub is_edge : ℕ → Bool
is_edge c = c == b'.' || c == b'_'

unfoldable pub normalize_topic_key : Unicode → Text → Option Text
unfolding sub_runs sub_dots strip
normalize_topic_key u raw =
    let separated =
      sub_runs (λ c. not (u.is_word c || c == b'.')) b'_' false (casefold u (strip is_space raw)) in
    let underscores = sub_runs (λ c. c == b'_') b'_' false separated in
    let dots = sub_runs (λ c. c == b'.') b'.' false underscores in
    let key = strip is_edge (sub_dots false dots) in
    if length key == 0 || ltb max_topic_key_chars (length key) then none else some key

-- `_statement`, of a `str`
unfoldable pub statement_text : Text → Option Text
unfolding strip
statement_text raw =
    let text = strip is_space raw in
    if not (length text == 0) && leb (length text) max_statement_chars then some text else none
