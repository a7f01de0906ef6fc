-- ===== src/Tests/Hunks.antt =====
-- Hunks: their headers, their pieces and their line numbers; the files that are reviewed.
use mathlib.Core.List.{List, [], ◌∷◌, flat_map, filter_map}
use dovi_ai_server.Base.{
  ℕ, ◌≡◌, refl, none, some, map, arith, nat_eq, list_eq, triple_eq, length, All, Text, codes,
  split_on, splitlines,
}
use dovi_ai_server.Review.Schema.{modified, ReviewTarget, ReviewRequestedEvent}
use dovi_ai_server.Review.Header.{Header, parse_header}
use dovi_ai_server.Review.Lines.{annotate_hunk, visible_right_lines}
use dovi_ai_server.Review.Lines.Annotate.{label, unlabel, annotate_hunk-visible}
use dovi_ai_server.Review.Hunk.{SplitState, split_hunk, split_loop, split_oversized_target}
use dovi_ai_server.Review.Hunk.Texts.{visible_numbers, visible-split_hunk}
use dovi_ai_server.Review.Hunk.Groups.{FitsAlone, IsPart, cut_hunks, split_oversized_target-parts}
use dovi_ai_server.Review.Hunk.Sizes.{Fits, split_loop-Fits}

abbrev hunk : Text
hunk = codes "@@ -1,2 +1,2 @@\n x\n-y\n+z"

abbrev hunk_lines : List Text
hunk_lines = codes " x" ∷ codes "-y" ∷ codes "+z" ∷ []

abbrev hunk_header : Header
hunk_header = record {
  old_start = 1;
  old_count = some 2;
  new_start = 1;
  new_count = some 2;
  tail = [];
}

annotate_hunk-visible_example :
    (filter_map label (split_on 10 (annotate_hunk hunk)) ≡ visible_right_lines hunk)
    × (map unlabel (split_on 10 (annotate_hunk hunk)) ≡ split_on 10 hunk)
unfolding parse_header splitlines split_on
annotate_hunk-visible_example =
    annotate_hunk-visible hunk (codes "@@ -1,2 +1,2 @@") hunk_lines hunk_header refl refl refl

visible-split_hunk_example : flat_map visible_numbers (split_hunk hunk 10) ≡ visible_numbers hunk
unfolding parse_header split_on
visible-split_hunk_example =
    visible-split_hunk hunk 10 (codes "@@ -1,2 +1,2 @@") hunk_lines hunk_header refl refl
      (refl, (refl, (refl, tt)))

abbrev start : SplitState
start = record {
  current = [];
  current_len = 0;
  old_start = 1;
  new_start = 1;
  old_count = 0;
  new_count = 0;
}

split_loop-Fits_example : All (λ p. Fits 4 p.body) (split_loop 4 start hunk_lines)
split_loop-Fits_example = split_loop-Fits 4 start hunk_lines refl

abbrev target : ReviewTarget
target = record {
  file_path = codes "a.py";
  status = modified;
  hunks = hunk ∷ hunk ∷ [];
  context_chunks = [];
}

abbrev hunk_count : ReviewTarget → ℕ
hunk_count t = length t.hunks

split_oversized_target-parts_example :
    let parts = split_oversized_target hunk_count target 1 in
    (flat_map (λ t. t.hunks) parts ≡ cut_hunks hunk_count target 1)
    × All (λ t. FitsAlone hunk_count target 1 t × IsPart hunk_count target 1 t) parts
split_oversized_target-parts_example =
    split_oversized_target-parts hunk_count target 1 (omega arith)

abbrev patch : Text
patch = codes "diff\n@@ -1 +1 @@\n-a\n+b\n@@ -9 +9 @@\n c"

abbrev request : ReviewRequestedEvent
request = record {
  review_job_id = codes "1:2:abc";
  repository_id = 1;
  pr_number = 2;
  head_sha = codes "abc";
  base_sha = codes "def";
  pr_title = codes "t";
  pr_body = [];
  context_files = [];
  changed_files =
      record {
        file_path = codes "a.py";
        status = modified;
        patch = patch;
        content = none;
        previous_content = none;
      }
      ∷ record {
        file_path = codes "uv.lock";
        status = modified;
        patch = patch;
        content = none;
        previous_content = none;
      }
      ∷ [];
}
