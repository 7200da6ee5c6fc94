-- ===== src/Examples/Vectors.antt =====
-- Embeddings, near duplicates and token usage at concrete inputs.
use memry_os_lite.Prelude.{
  ℕ, ◌+◌, ◌≤◌, ◌≡◌, refl, max, teq, Text, codes, Option, none, some, List, [], ◌∷◌, map, All,
  length, text_le, Dict, IsSorted,
}
use memry_os_lite.Examples.Base.{naturals, naturals-laws}
use memry_os_lite.Recall.Embedding.{
  embedding_cache_size, embed, SimilarRequest, SimilarPair, before_pair, similar,
}
use memry_os_lite.Recall.Vectors.{IsSimilar, embed-bounds, similar-IsSimilar}
use memry_os_lite.Curate.Usage.{
  CurateAttempt, IsTotal, ok, timeout, total_usage, total_usage-IsTotal,
}

-- A hash that is the text, and a vector that is the length.
abbrev sha : Text → Text
sha text = text

abbrev batch : List Text → Option (List ℕ)
batch texts = some (map length texts)

-- "a" is in the cache already.
abbrev cache : Dict ℕ
cache = (codes "a", 7) ∷ []

abbrev cached : Dict ℕ
cached = (codes "bb", 2) ∷ (codes "a", 7) ∷ []

abbrev texts : List Text
texts = codes "bb" ∷ codes "a" ∷ []

abbrev looked_up : List ℕ
looked_up = 2 ∷ 7 ∷ []

embedded : embed sha batch cache texts ≡ some (looked_up, cached)
unfolding embed teq
embedded = refl

embed-bounds_example :
    (length looked_up ≡ length texts) × (length cached ≤ max embedding_cache_size (length texts))
embed-bounds_example = embed-bounds sha batch cache texts embedded

-- Vectors of one number; two are near when both are large.
abbrev vectors : List Text → Option (List (List ℕ))
vectors texts = some (map (λ t. length t ∷ []) texts)

abbrev nearness : List ℕ → List ℕ → ℕ
nearness (x ∷ a) (y ∷ b) = x + y
nearness a b = 0

abbrev doubled : SimilarRequest naturals
doubled = record {
  items =
      record { id = codes "y"; text = codes "xxx" }
      ∷ record { id = codes "x"; text = codes "yyy" }
      ∷ record { id = codes "z"; text = codes "z" }
      ∷ [];
  threshold = 5;
}

abbrev near : List (SimilarPair naturals)
near = record { a = codes "x"; b = codes "y"; score = 6 } ∷ []

similar_run : similar naturals (some vectors) nearness doubled ≡ some near
unfolding similar text_le
similar_run = refl

similar-IsSimilar_example :
    All (IsSimilar naturals nearness 5) near × IsSorted (before_pair naturals) near
similar-IsSimilar_example =
    similar-IsSimilar naturals naturals-laws (some vectors) nearness doubled similar_run

abbrev attempts : List CurateAttempt
attempts =
    record {
      outcome = timeout;
      prompt_tokens = none;
      completion_tokens = none;
      total_tokens = none;
    }
    ∷ record {
      outcome = ok;
      prompt_tokens = some 30;
      completion_tokens = some 4;
      total_tokens = some 34;
    }
    ∷ []

total_usage-IsTotal_example : IsTotal attempts (total_usage attempts)
total_usage-IsTotal_example = total_usage-IsTotal attempts
