-- ===== src/Base/Texts.antt =====
-- Texts as lists of code points, with the methods of Python's `str` that the program calls.
use Prim.Native.Char.{code}
use Prim.Native.String.{String}
use mathlib.Core.List.{reverse}
use dovi_ai_server.Base.Tests.{if◌then◌else◌, leb, ltb, ltb→lt, ltb→ge, Bool-cases, ◌==◌, nat_eq}
use dovi_ai_server.Base.Lists.{is_nil}
use Prim.Native.Nat.{ℕ, zero, suc, ◌+◌, ◌-◌, ◌*◌, ◌/◌, ◌%◌, ◌<◌}
use mathlib.Core.Path.{◌≡◌, refl, ◌∙◌, ap}
use mathlib.Core.Logic.{inl, inr}
use mathlib.Core.Bool.{Bool, true, false, ◌&&◌, ◌||◌}
use mathlib.Core.Option.{Option, none, some}
use mathlib.Core.List.{List, [], ◌∷◌, ◌++◌, append_assoc}
use native.Mathlib.Omega.{arith}

abbrev pub Text : Type 0
Text = List ℕ

-- The code points of a literal.
abbrev pub codes : String → Text
codes String.[] = []
codes (String.◌∷◌ c s) = code c ∷ codes s

-- `str.isspace` of one character.
unfoldable pub is_space : ℕ → Bool
is_space c =
    (leb 9 c && leb c 13)
    || (leb 28 c && leb c 32)
    || c == 133
    || c == 160
    || c == 5760
    || (leb 8192 c && leb c 8202)
    || c == 8232
    || c == 8233
    || c == 8239
    || c == 8287
    || c == 12288

-- The characters at which `str.splitlines` ends a line.
unfoldable pub is_line_break : ℕ → Bool
is_line_break c =
    (leb 10 c && leb c 13) || (leb 28 c && leb c 30) || c == 133 || c == 8232 || c == 8233

-- `str.lower` on ASCII.
unfoldable pub lower_char : ℕ → ℕ
lower_char c = if leb b'A' c && leb c b'Z' then c + 32 else c

unfoldable pub lower : Text → Text
unfolding lower_char
lower [] = []
lower (c ∷ t) = lower_char c ∷ lower t

unfoldable pub starts_with : Text → Text → Bool
starts_with [] t = true
starts_with (p ∷ ps) [] = false
starts_with (p ∷ ps) (c ∷ t) = p == c && starts_with ps t

unfoldable pub ends_with : Text → Text → Bool
unfolding starts_with
ends_with suffix t = starts_with (reverse suffix) (reverse t)

-- `needle in text`.
unfoldable pub has_text : Text → Text → Bool
unfolding starts_with
has_text needle [] = is_nil needle
has_text needle (c ∷ t) = starts_with needle (c ∷ t) || has_text needle t

-- The text behind a prefix, if it has that prefix.
unfoldable pub after_prefix : Text → Text → Option Text
after_prefix [] t = some t
after_prefix (p ∷ ps) [] = none
after_prefix (p ∷ ps) (c ∷ t) = if p == c then after_prefix ps t else none

unfoldable pub lstrip : Text → Text
unfolding is_space
lstrip [] = []
lstrip (c ∷ t) = if is_space c then lstrip t else c ∷ t

-- `str.strip()`.
unfoldable pub strip : Text → Text
unfolding lstrip
strip t = reverse (lstrip (reverse (lstrip t)))

abbrev pub cons_head : ℕ → List Text → List Text
cons_head c [] = (c ∷ []) ∷ []
cons_head c (l ∷ ls) = (c ∷ l) ∷ ls

-- `text.split(c)` at one character.
unfoldable pub split_on : ℕ → Text → List Text
split_on c [] = [] ∷ []
split_on c (x ∷ t) = let rest = split_on c t in if x == c then [] ∷ rest else cons_head x rest

-- `text.splitlines()`; the flag says that the last character was a carriage return.
unfoldable pub lines_after : Bool → Text → List Text
unfolding is_line_break
lines_after cr [] = []
lines_after cr (c ∷ t) =
    let rest = lines_after (c == 13) t in
    if cr && c == 10 then rest else if is_line_break c then [] ∷ rest else cons_head c rest

unfoldable pub splitlines : Text → List Text
unfolding lines_after
splitlines t = lines_after false t

-- `sep.join(parts)`.
unfoldable pub join : Text → List Text → Text
join sep [] = []
join sep (x ∷ []) = x
join sep (x ∷ y ∷ ys) = x ++ (sep ++ join sep (y ∷ ys))

abbrev pub newline : Text
newline = 10 ∷ []

-- `str(n)`, in decimal. The fuel `suc n` is enough: each round divides by ten.
unfoldable pub show_digits : ℕ → ℕ → Text
show_digits zero n = []
show_digits (suc f) n =
    let rest = show_digits f (n / 10) in
    if ltb n 10 then (n + b'0') ∷ [] else rest ++ (n % 10 + b'0') ∷ []

unfoldable pub show : ℕ → Text
unfolding show_digits
show n = show_digits (suc n) n

-- `\d` on ASCII.
unfoldable pub is_digit : ℕ → Bool
is_digit c = leb b'0' c && leb c b'9'

-- The longest run of digits in front, read as a number onto `acc`, and the rest.
unfoldable pub take_digits : ℕ → Text → ℕ × Text
unfolding is_digit
take_digits acc [] = (acc, [])
take_digits acc (c ∷ t) =
    let rest = take_digits (acc * 10 + (c - b'0')) t in if is_digit c then rest else (acc, c ∷ t)

abbrev pub head_is_digit : Text → Bool
head_is_digit [] = false
head_is_digit (c ∷ t) = is_digit c

-- `\d+` in front of a text: the number and the rest.
unfoldable pub read_number : Text → Option (ℕ × Text)
unfolding take_digits
read_number t = if head_is_digit t then some (take_digits 0 t) else none

take_digits_stop :
    (n : ℕ) (rest : Text) → head_is_digit rest ≡ false → take_digits n rest ≡ (n, rest)
unfolding take_digits
take_digits_stop n [] h = refl
take_digits_stop n (c ∷ t) h = ground arith

take_digits_one :
    (a d : ℕ) (t : Text) → d < 10 → take_digits a ((d + b'0') ∷ t) ≡ take_digits (a * 10 + d) t
unfolding take_digits
take_digits_one a d t h =
    let e : a * 10 + (d + b'0' - b'0') ≡ a * 10 + d = omega arith in
    let b : is_digit (d + b'0') ≡ true = ground arith in rw (b, e)

take_digits-show_digits :
    (f n : ℕ) (t : Text) → n < f → take_digits 0 (show_digits f n ++ t) ≡ take_digits n t
unfolding show_digits
take_digits-show_digits zero n t h = absurd (omega arith)
take_digits-show_digits (suc f) n t h = elim (Bool-cases (ltb n 10)) [
  | inl small ↦ rw small (
      take_digits_one 0 n t (ltb→lt n 10 small)
      ∙ ap (λ m. take_digits m t) (let z : 0 * 10 + n ≡ n = omega arith in z))
  | inr big ↦
      let e : n / 10 * 10 + n % 10 ≡ n = omega arith in
      rw (big, append_assoc)
        (take_digits-show_digits f (n / 10) _ (omega (arith, ltb→ge n 10 big))
          ∙ take_digits_one (n / 10) (n % 10) t (omega arith)
          ∙ ap (λ m. take_digits m t) e)
]

head_is_digit-show_digits :
    (f n : ℕ) (t : Text) → n < f → head_is_digit (show_digits f n ++ t) ≡ true
unfolding show_digits is_digit
head_is_digit-show_digits zero n t h = absurd (omega arith)
head_is_digit-show_digits (suc f) n t h = elim (Bool-cases (ltb n 10)) [
  | inl small ↦ rw small (ground arith)
  | inr big ↦
      rw (big, append_assoc)
        (head_is_digit-show_digits f (n / 10) _ (omega (arith, ltb→ge n 10 big)))
]

-- A printed number reads back, whatever stands behind it but a digit.
pub read_number-show :
    (n : ℕ) (rest : Text)
    → head_is_digit rest ≡ false
    → read_number (show n ++ rest) ≡ some (n, rest)
unfolding read_number show
read_number-show n rest h =
    rw (head_is_digit-show_digits (suc n) n rest (omega arith))
      (ap some (take_digits-show_digits (suc n) n rest (omega arith) ∙ take_digits_stop n rest h))
