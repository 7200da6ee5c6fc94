-- ===== src/Evidence/Accepted.antt =====
-- The candidates of the first version of source evidence, and the checks of its models.
use memry_os_lite.Prelude.{
  ℕ, ◌+◌, ◌≤◌, ◌≡◌, inl, inr, refl, arith, Text, codes, true, Option-cases, some, List, [], ◌∷◌,
  all, All, teq, teq_iff, strip_prefix-append,
}
use memry_os_lite.Json.{Json, str, get_field}
use memry_os_lite.Evidence.{
  Canonical, CanonicalLaws, SourceRef, ContextLayerItem, digest_of_text, is_digest, valid_id,
  valid_id_text, rank_from,
}
use memry_os_lite.Evidence.First.{
  SourceEvidenceItem, tokens_of, text_of, ranked, document_ids, candidate, valid_item, ranks_from,
}

pub teq_self : (t : Text) → teq t t ≡ true
teq_self t = (teq_iff t t).1 refl

pub is_digest-digest_of_text :
    (k : Canonical) → CanonicalLaws k → (t : Text) → is_digest (digest_of_text k t) ≡ true
unfolding is_digest
is_digest-digest_of_text k laws t = ground (
  arith,
  strip_prefix-append (codes "sha256:") (k.sha256_hex t),
  laws.hex_length t,
  laws.hex_digits t,
)

valid_id_lem : (j : Json) (t : Text) → valid_id j ≡ some t → valid_id_text t ≡ true
unfolding valid_id
valid_id_lem (str s) t e = ground (arith, e)
valid_id_lem _ t e = cc

document_ids_lem :
    (rs : List SourceRef) (ids : List Text)
    → document_ids rs ≡ some ids
    → all valid_id_text ids ≡ true
unfolding document_ids
document_ids_lem [] ids e = ground (arith, e)
document_ids_lem (r ∷ rs) ids e = elim (Option-cases (document_ids rs)) [
  | inl f ↦ absurd (ground (arith, e, f))
  | inr (more, f) ↦ ground (arith, e, f, document_ids_lem rs more f)
]

module _ (k : Canonical) (laws : CanonicalLaws k) where
  -- The item is accepted, once it has a rank.
  abbrev pub Sound : SourceEvidenceItem → Type 0
  Sound i = valid_item k (ranked 1 i) ≡ true

  pub Sound-candidate :
      (rank : ℕ) (i : ContextLayerItem) (c : SourceEvidenceItem)
      → candidate k rank i ≡ some c
      → Sound c
  unfolding candidate valid_item
  Sound-candidate rank i c e = ground (
    arith,
    e,
    valid_id_lem (str i.item_id) c.item_id,
    valid_id_lem (get_field (codes "archive_id") i.metadata) c.archive_id,
    valid_id_lem (get_field (codes "document_id") i.metadata) c.document_id,
    document_ids_lem i.source_refs c.source_ids,
    is_digest-digest_of_text k laws i.text,
    teq_self (digest_of_text k i.text),
  )

  pub Sound-ranked : (n : ℕ) (c : SourceEvidenceItem) → Sound c → Sound (ranked n c)
  unfolding valid_item
  Sound-ranked n c h = h

  pub all-rank_from :
      (n : ℕ) (cs : List SourceEvidenceItem)
      → 1 ≤ n
      → All Sound cs
      → all (valid_item k) (rank_from tokens_of text_of ranked n cs) ≡ true
  unfolding rank_from valid_item
  all-rank_from n [] h s = refl
  all-rank_from n (c ∷ cs) h s = ground (arith, all-rank_from (n + 1) cs (omega arith) s.1, s.0)

  pub ranks_from-rank_from :
      (n : ℕ) (cs : List SourceEvidenceItem)
      → ranks_from k n (rank_from tokens_of text_of ranked n cs) ≡ true
  unfolding rank_from ranks_from
  ranks_from-rank_from n [] = refl
  ranks_from-rank_from n (c ∷ cs) = ground (arith, ranks_from-rank_from (n + 1) cs)
