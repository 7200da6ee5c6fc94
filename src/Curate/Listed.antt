-- ===== src/Curate/Listed.antt =====
-- The list of failures in the prompt of `render_request`.
use memry_os_lite.Prelude.{
  ◌<◌, ◌≡◌, refl, sym, ap, ◌∙◌, arith, Text, codes, List, [], ◌∷◌, ◌++◌, map, length, append_assoc,
  append-nil,
}
use memry_os_lite.Curate.Model.{
  CurateRequest, CurateMemory, Profile, failures, module_profile, room, collab,
}
use memry_os_lite.Curate.Prompts.{
  concat, join_with, line, or_none, failure_block, failure_ids, curate_head, room_head, collab_head,
  render_profile, build_curate_prompt, build_room_curate_prompt, build_collab_curate_prompt,
  render_request,
}

-- What announces the failures, by the profile.
abbrev pub announcement : Profile → Text
announcement module_profile = codes "Failures to account for (each needs exactly one assignment): "
announcement _ =
    codes "Failures to account for (each needs exactly one assignment, as in "
    ++ (codes
          "{\"assignments\":[{\"activity_id\":\"...\",\"lesson\":\"<topic_key>\",\"quote\":\"...\"}]} or "
        ++ codes "{\"activity_id\":\"...\",\"dismiss\":\"<reason>\"}): ")

-- A prompt that ends with the announcement and a list.
abbrev pub EndsWith : Profile → Text → Text → Type 0
EndsWith p list prompt = (before : Text) × (prompt ≡ before ++ (announcement p ++ list))

concat-append : (xs ys : List Text) → concat (xs ++ ys) ≡ concat xs ++ concat ys
unfolding concat
concat-append [] ys = refl
concat-append (x ∷ xs) ys =
    ap (λ t. x ++ t) (concat-append xs ys) ∙ sym (append_assoc x (concat xs) (concat ys))

concat-last : (xs : List Text) (t : Text) → concat (xs ++ t ∷ []) ≡ concat xs ++ t
unfolding concat
concat-last xs t = concat-append xs (t ∷ []) ∙ ap (λ s. concat xs ++ s) (append-nil t)

or_none-some : (t : Text) → 0 < length t → or_none t ≡ t
unfolding or_none
or_none-some [] h = absurd (omega (arith, h))
or_none-some (c ∷ t) h = refl

failure_block-EndsWith :
    (ids : List Text)
    → 0 < length (join_with (codes ", ") ids)
    → failure_block ids ≡ (line ++ line) ++ (announcement room ++ join_with (codes ", ") ids)
unfolding failure_block concat join_with
failure_block-EndsWith [] h = absurd (omega (arith, h))
failure_block-EndsWith (id ∷ ids) h = rw (append-nil (join_with (codes ", ") (id ∷ ids))) refl

block-EndsWith :
    (parts ids : List Text)
    → 0 < length (join_with (codes ", ") ids)
    → EndsWith room (join_with (codes ", ") ids) (concat (parts ++ failure_block ids ∷ []))
block-EndsWith parts ids h = (
  concat parts ++ (line ++ line),
  concat-last parts (failure_block ids)
      ∙ (ap (λ t. concat parts ++ t) (failure_block-EndsWith ids h)
          ∙ sym (append_assoc (concat parts) (line ++ line) _)),
)

module _ (request : CurateRequest)
    (some_of : 0 < length (join_with (codes ", ") (failure_ids request))) where
  module-EndsWith :
      (lessons others : List CurateMemory)
      → EndsWith module_profile
          (join_with (codes ", ") (failure_ids request))
          (build_curate_prompt request lessons others)
  unfolding build_curate_prompt concat
  module-EndsWith lessons others = (
    concat (curate_head request lessons others),
    concat-append (curate_head request lessons others) (
          announcement module_profile ∷ or_none (join_with (codes ", ") (failure_ids request)) ∷ [])
        ∙ ap
            (λ t. concat (curate_head request lessons others) ++ (announcement module_profile ++ t))
            (append-nil (or_none (join_with (codes ", ") (failure_ids request)))
              ∙ or_none-some (join_with (codes ", ") (failure_ids request)) some_of),
  )

  profile-EndsWith :
      (p : Profile)
      → EndsWith p (join_with (codes ", ") (failure_ids request)) (render_profile request p)
  unfolding render_profile build_curate_prompt build_room_curate_prompt build_collab_curate_prompt
  profile-EndsWith module_profile = module-EndsWith _ _
  profile-EndsWith room = block-EndsWith (room_head request _) (failure_ids request) some_of
  profile-EndsWith collab = block-EndsWith (collab_head request _) (failure_ids request) some_of

-- The prompt that `render_request` gives, for each of the three profiles, ends with what announces
-- the failures and behind it the ids of all the failures of the window in their order, joined by
-- commas; if there are failures whose ids are not empty.
pub render_request-failures :
    (request : CurateRequest)
    → 0 < length (join_with (codes ", ") (map (λ a. a.id) (failures request)))
    → EndsWith request.profile
        (join_with (codes ", ") (map (λ a. a.id) (failures request)))
        (render_request request)
unfolding render_request
render_request-failures request h = profile-EndsWith request h request.profile
