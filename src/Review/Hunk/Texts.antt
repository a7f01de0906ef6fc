-- ===== src/Review/Hunk/Texts.antt =====
-- The line numbers that `split_hunk` leaves visible.
use mathlib.Core.List.{flat_map, append-nil}
use dovi_ai_server.Base.{
  ℕ, ◌+◌, ◌-◌, ◌*◌, max, ◌≡◌, refl, ◌∙◌, inl, inr, false, Option, none, some, List, [], ◌∷◌, ◌++◌,
  map, arith, leb, Bool-cases, Option-cases, nat_eq, list_eq, triple_eq, Free, split_on-join,
  split_on-Free, show-Free, length, contains, contains-append, Text, codes, after_prefix, split_on,
  join, newline, show, take_digits, read_number,
}
use dovi_ai_server.Review.Header.{Header, parse_header, parse_new, read_count}
use dovi_ai_server.Review.Header.Print.{print_header}
use dovi_ai_server.Review.Lines.{visible_lines}
use dovi_ai_server.Review.Hunk.{
  Piece, split_loop, start_state, header_reserve, piece_lines, split_body, split_lines, split_hunk,
}
use dovi_ai_server.Review.Hunk.Pieces.{NoHeader, visible-split_loop, bodies}

abbrev Clean : Text → Type 0
Clean t = contains t 10 ≡ false

after_prefix-Clean : (p t u : Text) → Clean t → after_prefix p t ≡ some u → Clean u
unfolding after_prefix contains
after_prefix-Clean [] t u h e = ground arith
after_prefix-Clean (c ∷ p) [] u h e = ground arith
after_prefix-Clean (c ∷ p) (d ∷ t) u h e = ground (arith, after_prefix-Clean p t u)

take_digits-Clean : (n : ℕ) (t : Text) → Clean t → Clean (take_digits n t).1
unfolding take_digits contains
take_digits-Clean n [] h = refl
take_digits-Clean n (c ∷ t) h = ground (arith, take_digits-Clean (n * 10 + (c - 48)) t)

read_number-Clean : (t u : Text) (n : ℕ) → Clean t → read_number t ≡ some (n, u) → Clean u
unfolding read_number
read_number-Clean t u n h e = ground (arith, take_digits-Clean 0 t h)

read_count-Clean : (t : Text) → Clean t → Clean (read_count t).1
unfolding read_count
read_count-Clean t h = elim (Option-cases (after_prefix (codes ",") t)) [
  | inl e ↦ rw (e, read_count) h
  | inr (u, e) ↦ elim (Option-cases (read_number u)) [
    | inl k ↦ rw (e, read_count) (rw (k, read_count) h)
    | inr ((n, v), k) ↦
        rw (e, read_count)
          (rw (k, read_count) (read_number-Clean u v n (after_prefix-Clean (codes ",") t u h e) k))
  ]
]

parse_new-Clean :
    (a : ℕ) (b : Option ℕ) (t : Text) (h : Header)
    → Clean t
    → parse_new a b t ≡ some h
    → Clean h.tail
unfolding parse_new
parse_new-Clean a b t h c e = elim (Option-cases (after_prefix (codes " +") t)) [
  | inl x ↦ absurd (refused (rw (x, parse_new) at e))
  | inr (t1, x) ↦ elim (Option-cases (read_number t1)) [
    | inl y ↦ absurd (refused (rw (y, parse_new) at (rw (x, parse_new) at e)))
    | inr ((n, t2), y) ↦
        let c2 : Clean t2 =
          read_number-Clean t1 t2 n (after_prefix-Clean (codes " +") t t1 c x) y in
        elim (Option-cases (after_prefix (codes " @@") (read_count t2).1)) [
          | inl z ↦
              absurd
                (refused (rw (z, parse_new) at (rw (y, parse_new) at (rw (x, parse_new) at e))))
          | inr (t3, z) ↦
              let c3 : Clean t3 =
                after_prefix-Clean (codes " @@") _ t3 (read_count-Clean t2 c2) z in
              let same : t3 ≡ h.tail =
                tail_of (rw (z, parse_new) at (rw (y, parse_new) at (rw (x, parse_new) at e))) in
              rw (← same) c3
        ]
  ]
]
  where
    refused : {A : Type 0} {a : A} → ◌≡◌ {A = Option A} none (some a) → ⊥
    refused p = cc

    tail_of : {g : Header} → some g ≡ some h → g.tail ≡ h.tail
    tail_of p = cc

parse_header-Clean :
    (line : Text) (h : Header) → Clean line → parse_header line ≡ some h → Clean h.tail
unfolding parse_header
parse_header-Clean line h c e = elim (Option-cases (after_prefix (codes "@@ -") line)) [
  | inl x ↦ absurd (refused (rw (x, parse_header) at e))
  | inr (t1, x) ↦ elim (Option-cases (read_number t1)) [
    | inl y ↦ absurd (refused (rw (y, parse_header) at (rw (x, parse_header) at e)))
    | inr ((n, t2), y) ↦
        parse_new-Clean n (read_count t2).0 (read_count t2).1 h
          (read_count-Clean t2
            (read_number-Clean t1 t2 n (after_prefix-Clean (codes "@@ -") line t1 c x) y))
          (rw (y, parse_header) at (rw (x, parse_header) at e))
  ]
]
  where
    refused : {A : Type 0} {a : A} → ◌≡◌ {A = Option A} none (some a) → ⊥
    refused p = cc

contains-append_free :
    (xs ys : Text)
    → contains xs 10 ≡ false
    → contains ys 10 ≡ false
    → contains (xs ++ ys) 10 ≡ false
contains-append_free xs ys h k = rw contains-append (rw (h, k))

print_header-Clean : (a b c d : ℕ) (tail : Text) → Clean tail → Clean (print_header a b c d tail)
unfolding print_header
print_header-Clean a b c d tail h =
    let e : Clean (codes " @@" ++ tail) =
      contains-append_free (codes " @@") tail (unfold contains in refl) h in
    let f : Clean (codes "," ++ (show d ++ (codes " @@" ++ tail))) =
      contains-append_free (codes ",") _ (unfold contains in refl)
        (contains-append_free (show d) _ (show-Free d) e) in
    let g : Clean (codes " +" ++ (show c ++ (codes "," ++ (show d ++ (codes " @@" ++ tail))))) =
      contains-append_free (codes " +") _ (unfold contains in refl)
        (contains-append_free (show c) _ (show-Free c) f) in
    contains-append_free (codes "@@ -") _ (unfold contains in refl) (
      contains-append_free (show a) _ (show-Free a) (
        contains-append_free (codes ",") _ (unfold contains in refl)
          (contains-append_free (show b) _ (show-Free b) g)))

All-split : (xs ys : List Text) → Free 10 (xs ++ ys) → Free 10 xs × Free 10 ys
All-split [] ys h = (tt, h)
All-split (x ∷ xs) ys h = let r = All-split xs ys h.1 in ((h.0, r.0), r.1)

visible-joined :
    (tail : Text) (ps : List Piece)
    → Clean tail
    → Free 10 (flat_map (λ p. p.body) ps)
    → flat_map
        (λ t. visible_lines none (split_on 10 t))
        (map (λ p. join newline (piece_lines tail p)) ps)
      ≡ flat_map (λ p. visible_lines none (piece_lines tail p)) ps
unfolding flat_map
visible-joined tail [] c h = refl
visible-joined tail (p ∷ ps) c h =
    let r = All-split p.body (flat_map (λ p. p.body) ps) h in
    let head : split_on 10 (join newline (piece_lines tail p)) ≡ piece_lines tail p =
      split_on-join 10 _ p.body
        (print_header-Clean p.old_start p.old_count p.new_start p.new_count tail c, r.0) in
    rw (head, visible-joined tail ps c r.1)

unfoldable pub visible_numbers : Text → List ℕ
visible_numbers t = visible_lines none (split_on 10 t)

-- For a hunk whose first line is a hunk header and whose other lines are not, and for any limit,
-- the texts that `split_hunk` returns, read one after the other, show lines of the new file under
-- exactly the numbers that the whole hunk shows, in the same order.
pub visible-split_hunk :
    (hunk : Text) (max_chars : ℕ) (first : Text) (rest : List Text) (h : Header)
    → split_on 10 hunk ≡ first ∷ rest
    → parse_header first ≡ some h
    → NoHeader rest
    → flat_map visible_numbers (split_hunk hunk max_chars) ≡ visible_numbers hunk
unfolding split_hunk flat_map visible_numbers
visible-split_hunk hunk max_chars first rest h lines e free =
    elim (Bool-cases (leb (length hunk) max_chars)) [
      | inl small ↦ rw small (append-nil _)
      | inr large ↦ rw (large, lines) (rw (e, split_lines) cut)
    ]
  where
    limit : ℕ
    limit = max (max_chars - header_reserve) 1

    clean : Free 10 (first ∷ rest)
    clean = rw lines at (split_on-Free 10 hunk)

    cut :
        flat_map (λ t. visible_lines none (split_on 10 t)) (split_body max_chars hunk h rest)
        ≡ visible_lines none (first ∷ rest)
    cut =
        visible-joined h.tail (split_loop limit (start_state h) rest)
          (parse_header-Clean first h clean.0 e) (rw bodies clean.1)
        ∙ visible-split_loop limit h.tail (start_state h) rest (record { old = refl; new = refl })
            tt free
        ∙ (unfold visible_lines in rw (e, visible_lines))
