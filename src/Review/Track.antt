-- ===== src/Review/Track.antt =====
-- app/review/pipeline.py, `_verify_across_batches`: each finding is verified with the messages of
-- the batch that it came from. The identity of a finding, `id(r)`, is used to find its batch, so a
-- finding goes through `filter_reviews` (app/review/result_filter.py), which keeps the objects, with
-- the number of its batch beside it.
pub mod Filter
pub mod Verified
use dovi_ai_server.Base.{
  ℕ, zero, suc, ◌+◌, ◌-◌, ◌*◌, ◌/◌, ◌%◌, ◌^◌, ◌≤◌, ◌<◌, min, max, ◌≡◌, refl, sym, ap, ap₂, ◌∙◌, ◌≢◌,
  ◌↔◌, ◌⊎◌, inl, inr, Bool, true, false, not, ◌&&◌, ◌||◌, Option, none, some, List, [], ◌∷◌, ◌++◌,
  map, arith, ltb, leb, nat_beq, if◌then◌else◌, ltb→lt, ltb→ge, leb→le, leb→gt, nat_beq_iff,
  Bool-cases, Option-cases, ◌>>=◌, Eq, ◌==◌, list_beq, list_beq_iff, nat_eq, list_eq, triple_beq,
  triple_beq_iff, triple_eq, ==_refl, ==_sound, ==_complete, Free, split_on-join, split_on-Free,
  show-Free, length, get_elem?, take, drop, is_nil, length-append, take-append-drop, length-take,
  length-drop, keep, any, All, All-append, All-take, All-keep, All-map_of, keep-All, contains,
  contains-append, count, count-append, Distinct, sort, sort-perm, All-sort, Ordered, sort-Ordered,
  Sub, Sub-refl, Sub-All, Sub-keep, Sub-Distinct, Sub-Ordered, first_of_each, Sub-first_of_each,
  first_of_each-Distinct, contains-first_of_each, contains-sort, none_left, keeps, skips, Text,
  codes, is_space, is_line_break, lower_char, lower, starts_with, ends_with, has_text, after_prefix,
  lstrip, strip, cons_head, split_on, lines_after, splitlines, join, newline, show_digits, show,
  is_digit, take_digits, head_is_digit, read_number, read_number-show, path_parts, last_or_nil,
  path_name, suffix_of_parts, path_suffix, lstrip_dots, drop_first, path_suffixes,
}
use dovi_ai_server.Review.Schema.{ReviewComment}
use dovi_ai_server.Review.Filter.{FilterOptions, is_kept, ranks_before, place, bump}
use dovi_ai_server.Review.Model.{Messages, Model, Settings, Session}
use dovi_ai_server.Review.Verify.{verify}

-- A finding with the number of its batch in `successful`; a dependency finding has none.
pub record Tracked : Type 0 where
  pub review : ReviewComment
  pub batch : Option ℕ

-- The last loop of `filter_reviews`.
unfoldable pub cap_tracked : FilterOptions → ℕ → (Text → ℕ) → List Tracked → List Tracked
cap_tracked o n per_file [] = []
cap_tracked o n per_file (t ∷ ts) =
    let path = t.review.file_path in
    let full = leb o.max_per_file (per_file path) in
    let rest =
      cap_tracked o (if full then n else suc n) (if full then per_file else bump path per_file)
        ts in
    if leb o.max_comments n then [] else if full then rest else t ∷ rest

unfoldable pub filter_tracked : FilterOptions → List Tracked → List Tracked
unfolding is_kept ranks_before cap_tracked keep sort first_of_each
filter_tracked o tracked =
    cap_tracked o 0 (λ path. 0)
      (first_of_each (λ t. place t.review) []
        (sort (λ a b. ranks_before a.review b.review) (keep (λ t. is_kept o t.review) tracked)))

-- `review_to_messages[id(review)]`, as a number; `none` where the code raises `KeyError`.
unfoldable pub batches_of : List Tracked → Option (List ℕ)
batches_of [] = some []
batches_of (t ∷ ts) = let rest = batches_of ts in t.batch >>= (λ n. rest >>= (λ ns. some (n ∷ ns)))

abbrev pub is_in_batch : ℕ → Tracked → Bool
is_in_batch n t = elim t.batch [ some k ↦ k == n | none ↦ false ]

abbrev pub reviews_of : List Tracked → List ReviewComment
reviews_of tracked = map (λ t. t.review) tracked

-- `id(r) in confirmed_ids`. The places of the filtered findings are distinct, so that the place
-- is the identity of a finding among them.
unfoldable pub is_confirmed_id : List (ℕ × List ReviewComment) → Tracked → Bool
unfolding any contains
is_confirmed_id groups t =
    any (λ g. is_in_batch g.0 t && contains (map place g.1) (place t.review)) groups

module _ (m : Model) (verify_prompt : Text) (o : Settings) (messages_of : ℕ → Messages) where
  -- The loop over `order`: what `_verify` confirms of each group, with the number of the batch.
  unfoldable pub verify_groups :
      List ℕ → List Tracked → Session m → List (ℕ × List ReviewComment) × Session m
  unfolding keep verify
  verify_groups [] filtered s = ([], s)
  verify_groups (n ∷ ns) filtered s =
      let (confirmed, s1) =
        verify m verify_prompt (messages_of n) o (reviews_of (keep (is_in_batch n) filtered)) s in
      let (rest, s2) = verify_groups ns filtered s1 in ((n, confirmed) ∷ rest, s2)

  abbrev pub verify_in :
      Option (List ℕ) → List Tracked → Session m → Option (List ReviewComment) × Session m
  verify_in none filtered s = (none, s)
  verify_in (some numbers) filtered s =
      let (groups, s1) = verify_groups (first_of_each (λ n. n) [] numbers) filtered s in
      (some (reviews_of (keep (is_confirmed_id groups) filtered)), s1)

  unfoldable pub verify_across_batches :
      List Tracked → Session m → Option (List ReviewComment) × Session m
  unfolding batches_of verify_groups is_confirmed_id keep first_of_each
  verify_across_batches filtered s = verify_in (batches_of filtered) filtered s
