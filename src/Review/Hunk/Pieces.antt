-- ===== src/Review/Hunk/Pieces.antt =====
-- The pieces of `split_hunk`, before they are printed: their lines, their headers and their sizes.
use mathlib.Core.List.{flat_map, append_assoc, append-nil}
use dovi_ai_server.Base.{
  ℕ, ◌+◌, ◌≡◌, refl, sym, ap, ◌∙◌, inl, inr, true, false, none, some, List, [], ◌∷◌, ◌++◌, arith,
  if◌then◌else◌, Bool-cases, nat_eq, list_eq, triple_eq, is_nil, All, All-append, Text,
}
use dovi_ai_server.Review.Header.{parse_header}
use dovi_ai_server.Review.Header.Print.{parse_header-print_header}
use dovi_ai_server.Review.Lines.{visible_lines, counts_as_new_file_line}
use dovi_ai_server.Review.Hunk.{
  Piece, SplitState, flushed_piece, flush, old_lines, new_lines, push, must_flush, split_loop,
  piece_lines,
}

abbrev total : (Text → ℕ) → List Text → ℕ
total f [] = 0
total f (l ∷ ls) = f l + total f ls

total-append : (f : Text → ℕ) (xs ys : List Text) → total f (xs ++ ys) ≡ total f xs + total f ys
total-append f [] ys = omega arith
total-append f (x ∷ xs) ys = omega (arith, total-append f xs ys)

-- The pieces follow one another: each header starts where the last one ended, and counts the
-- lines of its own body.
abbrev pub Chain : ℕ → ℕ → List Piece → Type 0
Chain old new [] = Unit
Chain old new (p ∷ ps) =
    (p.old_start ≡ old)
    × (p.new_start ≡ new)
    × (p.old_count ≡ total old_lines p.body)
    × (p.new_count ≡ total new_lines p.body)
    × Chain (old + p.old_count) (new + p.new_count) ps

-- The counters of the loop are those of the lines that it holds.
pub record IsCounted (s : SplitState) : Type 0 where
  pub old : s.old_count ≡ total old_lines s.current
  pub new : s.new_count ≡ total new_lines s.current

push-IsCounted : {s : SplitState} (line : Text) → IsCounted s → IsCounted (push s line)
unfolding push
push-IsCounted {s} line c = record {
  old = omega (arith, c.old, total-append old_lines s.current (line ∷ []));
  new = omega (arith, c.new, total-append new_lines s.current (line ∷ []));
}

flush-IsCounted : (s : SplitState) → IsCounted (flush s)
flush-IsCounted s = record { old = refl; new = refl }

module _ (limit : ℕ) where
  split_loop-Chain :
      (s : SplitState) (lines : List Text)
      → IsCounted s
      → Chain s.old_start s.new_start (split_loop limit s lines)
  unfolding split_loop push
  split_loop-Chain s [] c = elim (Bool-cases (is_nil s.current)) [
    | inl e ↦ rw e tt
    | inr e ↦ rw e (refl, refl, c.old, c.new, tt)
  ]
  split_loop-Chain s (line ∷ lines) c = elim (Bool-cases (must_flush limit s line)) [
    | inl cut ↦ rw cut (
      refl,
      refl,
      c.old,
      c.new,
      split_loop-Chain (push (flush s) line) lines (push-IsCounted line (flush-IsCounted s)),
    )
    | inr stay ↦ rw stay (split_loop-Chain (push s line) lines (push-IsCounted line c))
  ]

  pub bodies :
      (s : SplitState) (lines : List Text)
      → flat_map (λ p. p.body) (split_loop limit s lines) ≡ s.current ++ lines
  unfolding split_loop push flat_map
  bodies s [] = last s.current refl
    where
      last :
          (c : List Text)
          → s.current ≡ c
          → flat_map (λ p. p.body) (if is_nil s.current then [] else flushed_piece s ∷ [])
            ≡ s.current ++ []
      last [] e = rw e refl
      last (l ∷ ls) e = rw e refl
  bodies s (line ∷ lines) = elim (Bool-cases (must_flush limit s line)) [
    | inl cut ↦ rw cut (ap (λ r. s.current ++ r) (bodies (push (flush s) line) lines))
    | inr stay ↦ rw stay (bodies (push s line) lines ∙ append_assoc s.current (line ∷ []) lines)
  ]

abbrev pub NoHeader : List Text → Type 0
NoHeader = All (λ l. parse_header l ≡ none)

new_lines-counts : (line : Text) → counts_as_new_file_line line ≡ true → new_lines line ≡ 1
unfolding counts_as_new_file_line new_lines
new_lines-counts line c = ground arith

new_lines-skipped : (line : Text) → counts_as_new_file_line line ≡ false → new_lines line ≡ 0
unfolding counts_as_new_file_line new_lines
new_lines-skipped line c = ground arith

visible-step :
    (n : ℕ) (line : Text) (rest : List Text)
    → parse_header line ≡ none
    → visible_lines (some n) (line ∷ rest)
      ≡ visible_lines (some n) (line ∷ []) ++ visible_lines (some (n + new_lines line)) rest
unfolding visible_lines
visible-step n line rest e = elim (Bool-cases (counts_as_new_file_line line)) [
  | inl c ↦
      let k : n + new_lines line ≡ n + 1 = omega (arith, new_lines-counts line c) in
      rw (k, e, visible_lines) (rw (c, visible_lines))
  | inr c ↦
      let k : n + new_lines line ≡ n = omega (arith, new_lines-skipped line c) in
      rw (k, e, visible_lines) (rw (c, visible_lines))
]

visible-append :
    (n : ℕ) (xs ys : List Text)
    → NoHeader xs
    → visible_lines (some n) (xs ++ ys)
      ≡ visible_lines (some n) xs ++ visible_lines (some (n + total new_lines xs)) ys
visible-append n [] ys h = let e : n + 0 ≡ n = omega arith in rw e (unfold visible_lines in refl)
visible-append n (x ∷ xs) ys h =
    let e : n + new_lines x + total new_lines xs ≡ n + (new_lines x + total new_lines xs) =
      omega arith in
    visible-step n x (xs ++ ys) h.0
    ∙ ap (λ r. visible_lines (some n) (x ∷ []) ++ r) (visible-append (n + new_lines x) xs ys h.1)
    ∙ sym (append_assoc (visible_lines (some n) (x ∷ [])) _ _)
    ∙ ap
        (λ m.
          (visible_lines (some n) (x ∷ []) ++ visible_lines (some (n + new_lines x)) xs)
          ++ visible_lines (some m) ys)
        e
    ∙ ap (λ l. l ++ visible_lines (some (n + (new_lines x + total new_lines xs))) ys)
        (sym (visible-step n x xs h.0))

visible-piece :
    (tail : Text) (p : Piece)
    → visible_lines none (piece_lines tail p) ≡ visible_lines (some p.new_start) p.body
unfolding visible_lines
visible-piece tail p =
    rw (
      parse_header-print_header p.old_start p.old_count p.new_start p.new_count tail,
      visible_lines,
    )

module _ (limit : ℕ) (tail : Text) where
  -- Read piece by piece, the new file's lines are those of the hunk.
  pub visible-split_loop :
      (s : SplitState) (lines : List Text)
      → IsCounted s
      → NoHeader s.current
      → NoHeader lines
      → flat_map (λ p. visible_lines none (piece_lines tail p)) (split_loop limit s lines)
        ≡ visible_lines (some s.new_start) (s.current ++ lines)
  unfolding split_loop flat_map push
  visible-split_loop s [] c h k = last s.current refl
    where
      last :
          (l : List Text)
          → s.current ≡ l
          → flat_map
              (λ p. visible_lines none (piece_lines tail p))
              (if is_nil s.current then [] else flushed_piece s ∷ [])
            ≡ visible_lines (some s.new_start) (s.current ++ [])
      last [] e = rw e (unfold visible_lines in refl)
      last (x ∷ xs) e =
          rw (append-nil, e)
            (append-nil _ ∙ visible-piece tail (record (flushed_piece s) { body = x ∷ xs }))
  visible-split_loop s (line ∷ lines) c h k = elim (Bool-cases (must_flush limit s line)) [
    | inl cut ↦ rw cut (
        rw
          (
            visible-piece tail (flushed_piece s),
            visible-append s.new_start s.current (line ∷ lines) h,
          )
          (ap (λ r. visible_lines (some s.new_start) s.current ++ r)
            (visible-split_loop (push (flush s) line) lines
                (push-IsCounted line (flush-IsCounted s)) (k.0, tt) k.1
              ∙ ap (λ m. visible_lines (some (s.new_start + m)) (line ∷ lines)) c.new)))
    | inr stay ↦ rw stay (
        visible-split_loop (push s line) lines (push-IsCounted line c)
          (All-append _ s.current (line ∷ []) h (k.0, tt)) k.1
        ∙ ap (visible_lines (some s.new_start)) (append_assoc s.current (line ∷ []) lines))
  ]
