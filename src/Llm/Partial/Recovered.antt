-- ===== src/Llm/Partial/Recovered.antt =====
-- The findings that `parse_partial_review_output` recovers.
use mathlib.Core.List.{List, [], map}
use dovi_ai_server.Base.{
  ℕ, ◌+◌, ◌-◌, ◌≤◌, ◌≡◌, refl, Bool, true, false, Option, none, some, arith, nat_eq, list_eq,
  triple_eq, length, is_nil, contains, Distinct, Sub, first_of_each, Sub-first_of_each,
  first_of_each-Distinct, contains-first_of_each, none_left, keeps, skips, Text,
}
use dovi_ai_server.Review.Schema.{ReviewComment}
use dovi_ai_server.Llm.Partial.{
  Decoders, strip_fence, find_reviews_array_start, decode_all, item_strings, dedupe_reviews,
  review_key, PartialRecoveryResult, parse_partial_review_output,
}

length-Sub {ℓ} : {A : Type ℓ} {xs ys : List A} → Sub xs ys → length xs ≤ length ys
length-Sub (none_left ys) = omega arith
length-Sub (keeps x s) = omega (arith, length-Sub s)
length-Sub (skips y s) = omega (arith, length-Sub s)

module _ (d : Decoders) where
  -- The findings that stand whole in an answer and decode.
  abbrev decoded : Text → List ReviewComment
  decoded text = decode_all d (item_strings d (find_reviews_array_start (strip_fence text)))

  -- A recovery: at least one finding, no key twice, every key of a decoded finding, and the count
  -- of the findings that repeat a key.
  pub record IsRecovery (text : Text) (r : PartialRecoveryResult) : Type 0 where
    pub nonempty : is_nil r.output.reviews ≡ false
    pub distinct : Distinct (map review_key r.output.reviews)
    pub complete :
        (k : Text × ℕ × Text)
        → contains (map review_key r.output.reviews) k ≡ contains (map review_key (decoded text)) k
    pub counted : length r.output.reviews + r.duplicates_removed ≡ length (decoded text)

  -- `parse_partial_review_output` returns a result whose findings are not empty, stand for the
  -- keys (file, line, message) of all whole findings of the answer that decode, each key once, and
  -- whose count of duplicates makes up the difference.
  pub parse_partial-IsRecovery :
      (text : Text) (r : PartialRecoveryResult)
      → parse_partial_review_output d text ≡ some r
      → IsRecovery text r
  unfolding parse_partial_review_output dedupe_reviews contains
  parse_partial-IsRecovery text r e =
      by_case (is_nil (first_of_each review_key [] (decoded text))) refl
    where
      kept : List ReviewComment
      kept = first_of_each review_key [] (decoded text)

      by_case : (b : Bool) → is_nil kept ≡ b → IsRecovery text r
      by_case true n = absurd (refused (rw (n, parse_partial_review_output) at e))
        where
          refused : ◌≡◌ {A = Option PartialRecoveryResult} none (some r) → ⊥
          refused p = cc
      by_case false n =
          let p = rw (n, parse_partial_review_output) at e in
          let same : kept ≡ r.output.reviews = reviews_of p in
          let count : length (decoded text) - length kept ≡ r.duplicates_removed = count_of p in
          record {
            nonempty = rw (← same) n;
            distinct = rw (← same) (first_of_each-Distinct review_key [] (decoded text));
            complete = λ k. rw (← same) (contains-first_of_each review_key k [] (decoded text));
            counted =
                rw (← same)
                  (omega (arith, length-Sub (Sub-first_of_each review_key [] (decoded text))));
          }
        where
          reviews_of :
              {q : PartialRecoveryResult} → some q ≡ some r → q.output.reviews ≡ r.output.reviews
          reviews_of p = cc

          count_of :
              {q : PartialRecoveryResult}
              → some q ≡ some r
              → q.duplicates_removed ≡ r.duplicates_removed
          count_of p = cc
