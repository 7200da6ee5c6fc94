-- ===== src/Lexical.antt =====
-- src/memoryos_lite/retrieval/lexical.py and tokenizer.py: tokens for BM25, and token counts.
use memry_os_lite.Prelude.{
  ℕ, Text, codes, Bool, true, false, not, ◌&&◌, ◌||◌, leb, ◌==◌, if◌then◌else◌, List, [], ◌∷◌, ◌++◌,
  map, keep, any, length, elem,
}

-- `ENGLISH_STOPWORDS`
abbrev pub english_stopwords : List Text
english_stopwords =
    codes "a"
    ∷ codes "an"
    ∷ codes "and"
    ∷ codes "are"
    ∷ codes "as"
    ∷ codes "at"
    ∷ codes "be"
    ∷ codes "by"
    ∷ codes "did"
    ∷ codes "do"
    ∷ codes "does"
    ∷ codes "for"
    ∷ codes "from"
    ∷ codes "how"
    ∷ codes "in"
    ∷ codes "is"
    ∷ codes "it"
    ∷ codes "of"
    ∷ codes "on"
    ∷ codes "or"
    ∷ codes "that"
    ∷ codes "the"
    ∷ codes "to"
    ∷ codes "was"
    ∷ codes "were"
    ∷ codes "what"
    ∷ codes "when"
    ∷ codes "where"
    ∷ codes "which"
    ∷ codes "who"
    ∷ codes "why"
    ∷ codes "with"
    ∷ codes "you"
    ∷ []

-- `[a-z0-9]`
abbrev pub is_latin : ℕ → Bool
is_latin c = (leb b'a' c && leb c b'z') || (leb b'0' c && leb c b'9')

-- `"一" <= char <= "鿿"`
abbrev pub is_cjk : ℕ → Bool
is_cjk c = leb 0x4e00 c && leb c 0x9fff

abbrev flush_token : Text → List Text → List Text
flush_token [] tokens = tokens
flush_token (c ∷ w) tokens = (c ∷ w) ∷ tokens

-- `re.findall(r"[a-z0-9]+", s)`; `w` is the token that is being read
unfoldable pub latin_tokens : Text → Text → List Text
latin_tokens w [] = flush_token w []
latin_tokens w (c ∷ s) = elim (is_latin c) [
  | true ↦ latin_tokens (w ++ c ∷ []) s
  | false ↦ flush_token w (latin_tokens [] s)
]

-- the texts of each two neighbours
unfoldable pub bigrams : Text → List Text
bigrams [] = []
bigrams (c ∷ []) = []
bigrams (c ∷ d ∷ s) = (c ∷ d ∷ []) ∷ bigrams (d ∷ s)

module _ (lower : Text → Text) where
  -- `tokenize`; `lower` is `str.lower`
  unfoldable pub tokenize : Text → List Text
  unfolding latin_tokens bigrams
  tokenize text =
      let normalized = lower text in
      let cjk_chars = keep is_cjk normalized in
      latin_tokens [] normalized ++ (map (λ c. c ∷ []) cjk_chars ++ bigrams cjk_chars)

-- `content_tokens`, a set
unfoldable pub content_tokens : List Text → List Text
unfolding elem
content_tokens = keep (λ token. not (elem token english_stopwords))

-- `a & b` is not empty
unfoldable pub intersects : List Text → List Text → Bool
unfolding elem
intersects a b = any (λ x. elem x b) a

-- `TokenEstimator.count`; `encode` counts the tokens of a text that is not empty
unfoldable pub count_tokens : (Text → ℕ) → Text → ℕ
count_tokens encode text = if length text == 0 then 0 else encode text
