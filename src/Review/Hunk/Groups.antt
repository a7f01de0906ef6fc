-- ===== src/Review/Hunk/Groups.antt =====
-- The pieces of a file and the targets of `split_oversized_target`.
use mathlib.Core.List.{flat_map, append_assoc}
use dovi_ai_server.Base.{
  ℕ, ◌≤◌, ◌<◌, ◌≡◌, refl, ap, ◌∙◌, ◌⊎◌, inl, inr, false, not, ◌&&◌, List, [], ◌∷◌, ◌++◌, arith, ltb,
  leb, ltb→ge, Bool-cases, nat_eq, list_eq, triple_eq, length, is_nil, All, Text,
}
use dovi_ai_server.Review.Schema.{ReviewTarget}
use dovi_ai_server.Review.Hunk.{make, group_hunks, hunk_limit, split_hunk, split_oversized_target}

module _ (size_of : ReviewTarget → ℕ) (target : ReviewTarget) (max_chars : ℕ) where
  hunks-group_hunks :
      (group hunks : List Text)
      → flat_map (λ t. t.hunks) (group_hunks size_of target max_chars group hunks) ≡ group ++ hunks
  unfolding group_hunks flat_map
  hunks-group_hunks [] [] = refl
  hunks-group_hunks (g ∷ group) [] = refl
  hunks-group_hunks group (hunk ∷ hunks) =
      elim (Bool-cases (
        not (is_nil group)
        && ltb max_chars (size_of (make size_of target (group ++ (hunk ∷ [])))))) [
          | inl cut ↦ rw cut (ap (λ r. group ++ r) (hunks-group_hunks (hunk ∷ []) hunks))
          | inr stay ↦ rw stay (
              hunks-group_hunks (group ++ (hunk ∷ [])) hunks ∙ append_assoc group (hunk ∷ []) hunks)
        ]

  -- A target within the limit, or of one hunk.
  abbrev pub FitsAlone : ReviewTarget → Type 0
  FitsAlone t = (size_of t ≤ max_chars) ⊎ (length t.hunks ≤ 1)

  abbrev pub IsPart : ReviewTarget → Type 0
  IsPart t =
      (t.file_path ≡ target.file_path) × (t.status ≡ target.status) × (is_nil t.hunks ≡ false)

  fits_next :
      (group : List Text) (hunk : Text)
      → (not (is_nil group) && ltb max_chars (size_of (make size_of target (group ++ (hunk ∷ [])))))
        ≡ false
      → FitsAlone (make size_of target (group ++ (hunk ∷ [])))
  fits_next [] hunk e = inr (omega arith)
  fits_next (g ∷ group) hunk e = inl (ltb→ge _ _ e)

  snoc_not_nil : (group : List Text) (hunk : Text) → is_nil (group ++ (hunk ∷ [])) ≡ false
  snoc_not_nil [] hunk = refl
  snoc_not_nil (g ∷ group) hunk = refl

  parts-group_hunks :
      (group hunks : List Text)
      → (is_nil group ≡ false → FitsAlone (make size_of target group))
      → All (λ t. FitsAlone t × IsPart t) (group_hunks size_of target max_chars group hunks)
  unfolding group_hunks
  parts-group_hunks group [] f = elim (Bool-cases (is_nil group)) [
    | inl e ↦ rw e tt
    | inr e ↦ rw e ((f e, (refl, refl, e)), tt)
  ]
  parts-group_hunks group (hunk ∷ hunks) f =
      elim (Bool-cases (
        not (is_nil group)
        && ltb max_chars (size_of (make size_of target (group ++ (hunk ∷ [])))))) [
          | inl cut ↦
              let some_group : is_nil group ≡ false = ground arith in
              rw cut (
                (f some_group, (refl, refl, some_group)),
                parts-group_hunks (hunk ∷ []) hunks (λ e. inr (omega arith)),
              )
          | inr stay ↦
              rw stay
                (parts-group_hunks (group ++ (hunk ∷ [])) hunks (λ e. fits_next group hunk stay))
        ]

  abbrev pub cut_hunks : List Text
  cut_hunks = flat_map (λ hunk. split_hunk hunk (hunk_limit size_of target max_chars)) target.hunks

  -- A target whose size is over the limit is cut into targets of the same file and status, none of
  -- them empty, that hold, in order and with nothing left out, the pieces into which
  -- `split_hunk` cuts its hunks; each has a size within the limit or holds a single piece.
  pub split_oversized_target-parts :
      max_chars < size_of target
      → let parts = split_oversized_target size_of target max_chars in
        (flat_map (λ t. t.hunks) parts ≡ cut_hunks) × All (λ t. FitsAlone t × IsPart t) parts
  unfolding split_oversized_target
  split_oversized_target-parts h =
      let large : leb (size_of target) max_chars ≡ false = ground arith in
      rw large (hunks-group_hunks [] cut_hunks, parts-group_hunks [] cut_hunks (λ e. cc))
