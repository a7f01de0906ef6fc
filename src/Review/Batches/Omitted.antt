-- ===== src/Review/Batches/Omitted.antt =====
-- The files in the batches of `_split_targets_into_batches`, and the omitted ones.
use mathlib.Core.List.{List, [], ◌∷◌, ◌++◌, flatten, append_assoc, Perm}
use mathlib.Core.List.Perm
use dovi_ai_server.Base.{
  ℕ, zero, suc, ◌-◌, ◌≤◌, min, max, ◌≡◌, refl, sym, ap, ◌∙◌, inl, inr, Bool, true, map, arith, ltb,
  if◌then◌else◌, Bool-cases, nat_eq, list_eq, triple_eq, length, take, drop, length-take, sort,
  sort-perm, Text,
}
use dovi_ai_server.Review.Schema.{ReviewTarget}
use dovi_ai_server.Review.Model.{Model, Settings, Session, resolve_max_context}
use dovi_ai_server.Review.Render.{ChunkSearchResult}
use dovi_ai_server.Review.Batches.{
  Item, Budget, pack, source_first, item_paths, cap_batches, pack_targets, measure,
  split_targets_into_batches, pieces_of, max_diff_file_chars, max_diff_total_chars,
}
use dovi_ai_server.Review.Batches.Pack.{pack_exact}

paths : List Item → List Text
paths xs = map (λ x. x.target.file_path) xs

paths-append : (xs ys : List Item) → paths (xs ++ ys) ≡ paths xs ++ paths ys
unfolding paths
paths-append [] ys = refl
paths-append (x ∷ xs) ys = ap (λ l. x.target.file_path ∷ l) (paths-append xs ys)

flatten-cut :
    (n : ℕ) (bs : List (List Item)) → flatten bs ≡ flatten (take n bs) ++ flatten (drop n bs)
unfolding flatten
flatten-cut zero bs = refl
flatten-cut (suc n) [] = refl
flatten-cut (suc n) (b ∷ bs) =
    ap (λ l. b ++ l) (flatten-cut n bs)
    ∙ sym (append_assoc b (flatten (take n bs)) (flatten (drop n bs)))

cap_batches-paths :
    (cap : ℕ) (batches : List (List Item))
    → item_paths (cap_batches cap batches).0 ++ (cap_batches cap batches).1 ≡ item_paths batches
unfolding cap_batches paths
cap_batches-paths cap batches =
    sym (paths-append (flatten (take cap batches)) (flatten (drop cap batches)))
    ∙ ap paths (sym (flatten-cut cap batches))

-- The targets in the order in which they are packed.
abbrev pub packed_order : Budget → List Item → List Item
packed_order b items = if ltb 1 (length (pack b items)) then sort source_first items else items

pack-order :
    (b : Budget) (items : List Item)
    → (if ltb 1 (length (pack b items)) then pack b (sort source_first items) else pack b items)
      ≡ pack b (packed_order b items)
pack-order b items = elim (Bool-cases (ltb 1 (length (pack b items)))) [
  | inl many ↦ rw many refl
  | inr one ↦ rw one refl
]

-- Of the targets that are packed, in their packing order, the first go into at most `cap` batches
-- and the paths of all the others are the omitted files, each once for each target; the batches are
-- the first of `pack`; and the packing order is the given one, or a rearrangement of it.
pub pack_targets-paths :
    (b : Budget) (cap : ℕ) (items : List Item)
    → let result = pack_targets b cap items in
      (item_paths result.0 ++ result.1 ≡ map (λ x. x.target.file_path) (packed_order b items))
      × (length result.0 ≤ cap)
      × Perm (packed_order b items) items
unfolding pack_targets
pack_targets-paths b cap items = rw (pack-order b items) (
  cap_batches-paths cap (pack b (packed_order b items))
      ∙ ap (map (λ x. x.target.file_path)) (pack_exact b (packed_order b items)).0,
  omega (arith, length-take cap (pack b (packed_order b items))),
  rearranged b items,
)
  where
    rearranged : (b : Budget) (items : List Item) → Perm (packed_order b items) items
    rearranged b items = elim (Bool-cases (ltb 1 (length (pack b items)))) [
      | inl many ↦ rw many (sort-perm source_first items)
      | inr one ↦ rw one (Perm.refl _)
    ]

paths_of_targets :
    (items : List Item)
    → map (λ t. t.file_path) (map (λ x. x.target) items) ≡ map (λ x. x.target.file_path) items
paths_of_targets [] = refl
paths_of_targets (x ∷ xs) = ap (λ l. x.target.file_path ∷ l) (paths_of_targets xs)

module _ (m : Model) (o : Settings) (annotate_diff_lines : Bool)
    (related : Text → List ChunkSearchResult) where
  measured :
      (ts : List ReviewTarget) (s : Session m)
      → map (λ x. x.target) (measure m o annotate_diff_lines related ts s).0 ≡ ts
  unfolding measure
  measured [] s = refl
  measured (t ∷ ts) s = ap (λ l. t ∷ l) (measured ts _)

  -- The pieces of the targets, at the size that the first prompt leaves room for.
  abbrev pub all_pieces : ℕ → List ReviewTarget → List ReviewTarget
  all_pieces shared_chars targets =
      pieces_of m o annotate_diff_lines related
        (min max_diff_file_chars (max (max_diff_total_chars - shared_chars) 3000)) targets

  module _ (common_for : Bool → Session m → (ℕ × ℕ) × Session m) where
    -- `_split_targets_into_batches` returns at most `max_review_batches` batches, and no piece of a
    -- target is forgotten: the paths of the batches and the omitted paths together are those of all
    -- pieces of the targets, each once for each piece, in some order.
    pub split_targets_into_batches-Perm :
        (targets : List ReviewTarget) (s : Session m)
        → let shared_chars = (common_for true (resolve_max_context m o s).1).0.1 in
          let result =
            (split_targets_into_batches m o annotate_diff_lines related common_for targets s).0 in
          (length result.0 ≤ o.max_review_batches)
          × Perm
              (item_paths result.0 ++ result.1)
              (map (λ t. t.file_path) (all_pieces shared_chars targets))
    unfolding split_targets_into_batches
    split_targets_into_batches-Perm targets s = of_items _ _ _ _ (measured _ _)
      where
        of_items :
            (b : Budget) (cap : ℕ) (items : List Item) (pieces : List ReviewTarget)
            → map (λ x. x.target) items ≡ pieces
            → (length (pack_targets b cap items).0 ≤ cap)
              × Perm
                  (item_paths (pack_targets b cap items).0 ++ (pack_targets b cap items).1)
                  (map (λ t. t.file_path) pieces)
        of_items b cap items pieces e =
            let known = pack_targets-paths b cap items in
            (
              known.1,
              rw known.0 (
                  rw (← e)
                    (rw (paths_of_targets items) (Perm.map (λ x. x.target.file_path) known.2))),
            )
