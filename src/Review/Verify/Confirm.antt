-- ===== src/Review/Verify/Confirm.antt =====
-- The findings that `_verify` returns, and the requests it sends.
use mathlib.Core.List.{List, [], ◌∷◌, ◌++◌, flatten}
use dovi_ai_server.Base.{
  ℕ, zero, suc, ◌+◌, ◌≤◌, ◌≡◌, refl, ap, ◌∙◌, Option, none, some, map, arith, nat_eq, list_eq,
  triple_eq, length, take, length-take, keep, Sub, Sub-refl, Sub-keep, none_left, keeps, skips,
  Text,
}
use dovi_ai_server.Review.Schema.{ReviewComment, ReviewVerdict}
use dovi_ai_server.Review.Model.{
  Messages, Model, Settings, Session, resolved, resolve_max_context, count_tokens,
}
use dovi_ai_server.Review.Verify.{
  Indexed, enumerate, is_confirmed, build_verify_messages, confirmed_of, verify_batches, verify,
  max_verify_batches, split_findings_into_batches,
}
use dovi_ai_server.Review.Verify.Split.{fits_alone, split_findings_into_batches_exact}

abbrev findings : List Indexed → List ReviewComment
findings xs = map (λ x. x.1) xs

Sub-findings : {xs ys : List Indexed} → Sub xs ys → Sub (findings xs) (findings ys)
Sub-findings (none_left ys) = none_left _
Sub-findings (keeps x s) = keeps x.1 (Sub-findings s)
Sub-findings (skips y s) = skips y.1 (Sub-findings s)

Sub-trans {ℓ} : {A : Type ℓ} {xs ys zs : List A} → Sub xs ys → Sub ys zs → Sub xs zs
Sub-trans (none_left ys) t = none_left _
Sub-trans (keeps x s) (keeps y t) = keeps x (Sub-trans s t)
Sub-trans (keeps x s) (skips y t) = skips y (Sub-trans (keeps x s) t)
Sub-trans (skips x s) (keeps y t) = skips y (Sub-trans s t)
Sub-trans (skips x s) (skips y t) = skips y (Sub-trans (skips x s) t)

Sub-append {ℓ} :
    {A : Type ℓ} {xs ys us vs : List A} → Sub xs ys → Sub us vs → Sub (xs ++ us) (ys ++ vs)
Sub-append (none_left []) t = t
Sub-append (none_left (y ∷ ys)) t = skips y (Sub-append (none_left ys) t)
Sub-append (keeps x s) t = keeps x (Sub-append s t)
Sub-append (skips y s) t = skips y (Sub-append s t)

findings-append : (xs ys : List Indexed) → findings (xs ++ ys) ≡ findings xs ++ findings ys
findings-append [] ys = refl
findings-append (x ∷ xs) ys = ap (λ l. x.1 ∷ l) (findings-append xs ys)

findings-enumerate : (i : ℕ) (rs : List ReviewComment) → findings (enumerate i rs) ≡ rs
unfolding enumerate
findings-enumerate i [] = refl
findings-enumerate i (r ∷ rs) = ap (λ l. r ∷ l) (findings-enumerate (i + 1) rs)

Sub-flatten-take :
    (n : ℕ) (batches : List (List Indexed)) → Sub (flatten (take n batches)) (flatten batches)
unfolding flatten
Sub-flatten-take zero batches = none_left _
Sub-flatten-take (suc n) [] = none_left _
Sub-flatten-take (suc n) (b ∷ bs) = Sub-append (Sub-refl b) (Sub-flatten-take n bs)

module _ (m : Model) (verify_prompt : Text) (messages : Messages) where
  Sub-confirmed_of :
      (answer : Option (List ReviewVerdict)) (batch : List Indexed)
      → Sub (confirmed_of m verify_prompt messages answer batch) (findings batch)
  Sub-confirmed_of none batch = none_left _
  Sub-confirmed_of (some verdicts) batch = Sub-findings (Sub-keep (is_confirmed verdicts) batch)

  Sub-verify_batches :
      (batches : List (List Indexed)) (st : m.State)
      → Sub (verify_batches m verify_prompt messages batches st).0 (findings (flatten batches))
  unfolding verify_batches flatten
  Sub-verify_batches [] st = none_left []
  Sub-verify_batches (b ∷ bs) st =
      let parts =
        Sub-append
          (Sub-confirmed_of
            (m.verify_findings (build_verify_messages verify_prompt messages b) st).0 b)
          (Sub-verify_batches bs
            (m.verify_findings (build_verify_messages verify_prompt messages b) st).1) in
      rw (← findings-append b (flatten bs)) at parts

  Sub-split :
      (base_tokens context reserve : ℕ) (reviews : List ReviewComment) (st : m.State)
      → let batches = split_findings_into_batches m base_tokens context reserve reviews in
        Sub (verify_batches m verify_prompt messages (take max_verify_batches batches) st).0 reviews
  Sub-split base_tokens context reserve reviews st =
      let batches : List (List Indexed) =
        split_findings_into_batches m base_tokens context reserve reviews in
      let numbered = Sub-keep (fits_alone m base_tokens context reserve) (enumerate 0 reviews) in
      let all : flatten batches
          ≡ keep (fits_alone m base_tokens context reserve) (enumerate 0 reviews) =
        (split_findings_into_batches_exact m base_tokens context reserve reviews).0 in
      let asked = Sub-flatten-take max_verify_batches batches in
      let inside : Sub (flatten (take max_verify_batches batches)) (enumerate 0 reviews) =
        Sub-trans asked (rw all numbered) in
      let given : Sub (findings (flatten (take max_verify_batches batches))) reviews =
        rw (findings-enumerate 0 reviews) at (Sub-findings inside) in
      Sub-trans (Sub-verify_batches (take max_verify_batches batches) st) given

  -- The findings that `_verify` confirms are findings it was given, in their order, none more often
  -- than it was given.
  pub Sub-verify :
      (o : Settings) (reviews : List ReviewComment) (s : Session m)
      → Sub (verify m verify_prompt messages o reviews s).0 reviews
  unfolding verify
  Sub-verify o reviews s = Sub-split _ _ _ reviews _

  -- A count of requests that `verify_findings` raises by one.
  module _ (calls : m.State → ℕ)
      (one_call : (q : Messages) (st : m.State)
        → calls (m.verify_findings q st).1 ≡ suc (calls st)) where
    calls-verify_batches :
        (batches : List (List Indexed)) (st : m.State)
        → calls (verify_batches m verify_prompt messages batches st).1 ≡ length batches + calls st
    unfolding verify_batches
    calls-verify_batches [] st = omega arith
    calls-verify_batches (b ∷ bs) st = omega (arith, calls-verify_batches bs _, one_call _ st)

    take_few :
        (batches : List (List Indexed))
        → length (take max_verify_batches batches) ≤ max_verify_batches
    take_few batches = omega (arith, length-take max_verify_batches batches)

    calls-resolved :
        (o : Settings) (a : Option ℕ) (st : m.State) → calls (resolved m o (a, st)).1.0 ≡ calls st
    calls-resolved o (some n) st = refl
    calls-resolved o none st = refl

    calls-resolve_max_context :
        ((st : m.State) → calls (m.get_context_window st).1 ≡ calls st)
        → (o : Settings) (s : Session m) → calls (resolve_max_context m o s).1.0 ≡ calls s.0
    unfolding resolve_max_context
    calls-resolve_max_context on_window o (st, some n) = refl
    calls-resolve_max_context on_window o (st, none) =
        calls-resolved o (m.get_context_window st).0 (m.get_context_window st).1 ∙ on_window st

    -- However many findings there are, `_verify` sends at most five verification requests: a count
    -- of the client that each verification request raises by one, and that a request for tokens or
    -- for the context size leaves alone, grows by five at most.
    pub calls-verify :
        ((text : Text) (st : m.State) → calls (m.ask_tokens text st).1 ≡ calls st)
        → ((st : m.State) → calls (m.get_context_window st).1 ≡ calls st)
        → (o : Settings) (reviews : List ReviewComment) (s : Session m)
        → calls (verify m verify_prompt messages o reviews s).1.0 ≤ max_verify_batches + calls s.0
    unfolding verify count_tokens
    calls-verify on_tokens on_window o reviews s = omega (
      arith,
      calls-verify_batches _ _,
      take_few _,
      on_tokens messages.user _,
      calls-resolve_max_context on_window o s,
    )
