-- ===== src/Review/Header/Print.antt =====
-- The printing of hunk headers, and their reading.
use dovi_ai_server.Base.{
  ℕ, ◌≡◌, refl, Option, some, Text, codes, read_number-show, show, ◌++◌, ◌∷◌, is_digit,
}
use dovi_ai_server.Review.Header.{read_count, parse_new, parse_header}

-- `f"@@ -{old_start},{old_count} +{new_start},{new_count} @@{tail}"`.
unfoldable pub print_header : ℕ → ℕ → ℕ → ℕ → Text → Text
print_header a b c d tail =
    codes "@@ -"
    ++ (show a
        ++ (codes ","
            ++ (show b
                ++ (codes " +" ++ (show c ++ (codes "," ++ (show d ++ (codes " @@" ++ tail))))))))

read_count-show :
    (n : ℕ) (rest : Text) → read_count (codes "," ++ (show n ++ (32 ∷ rest))) ≡ (some n, 32 ∷ rest)
unfolding read_count is_digit
read_count-show n rest = rw (read_number-show n (32 ∷ rest) refl, read_count)

parse_new-print :
    (a : ℕ) (b : Option ℕ) (c d : ℕ) (tail : Text)
    → parse_new a b (codes " +" ++ (show c ++ (codes "," ++ (show d ++ (codes " @@" ++ tail)))))
      ≡ some
          (record { old_start = a; old_count = b; new_start = c; new_count = some d; tail = tail })
unfolding parse_new is_digit
parse_new-print a b c d tail =
    rw (read_number-show c (codes "," ++ (show d ++ (codes " @@" ++ tail))) refl)
      (rw (read_count-show d (64 ∷ 64 ∷ tail)))

-- A printed header is read as the numbers and the tail that it was printed from.
pub parse_header-print_header :
    (a b c d : ℕ) (tail : Text)
    → parse_header (print_header a b c d tail)
      ≡ some (record {
        old_start = a;
        old_count = some b;
        new_start = c;
        new_count = some d;
        tail = tail;
      })
unfolding parse_header print_header is_digit
parse_header-print_header a b c d tail = rw (read_number-show a _ refl) (
    rw
      (read_count-show b
        (codes "+" ++ (show c ++ (codes "," ++ (show d ++ (codes " @@" ++ tail))))))
      (parse_new-print a (some b) c d tail))
