-- ===== src/Tests/Prompts.antt =====
-- Prompts: budgets, batches, the answers of a model and the verification of its findings.
use mathlib.Core.List.{List, [], ◌∷◌, ◌++◌, flatten, Perm}
use dovi_ai_server.Base.{
  ℕ, suc, ◌+◌, ◌≤◌, ◌≡◌, refl, Bool, true, false, Option, none, some, map, if◌then◌else◌, ◌==◌,
  nat_eq, list_eq, triple_eq, length, keep, All, Text, codes,
}
use dovi_ai_server.Review.Schema.{modified, major, ReviewTarget, ReviewComment}
use dovi_ai_server.Review.Budget.{truncate_loop}
use dovi_ai_server.Review.Budget.Share.{IsShared, truncate_diff-IsShared}
use dovi_ai_server.Review.Model.{Messages, answered, invalid, Model, Settings, Session}
use dovi_ai_server.Review.Verify.{enumerate, split_findings_into_batches}
use dovi_ai_server.Review.Verify.Split.{fits_alone, IsSendable, split_findings_into_batches_exact}
use dovi_ai_server.Review.Generate.{generate_batch}
use dovi_ai_server.Review.Generate.Calls.{generate_batch-calls}
use dovi_ai_server.Review.Generate.Reasons.{ask, expected, after_cut, generate_batch-table}
use dovi_ai_server.Review.Batches.{Item, Budget, pack, item_paths, split_targets_into_batches}
use dovi_ai_server.Review.Batches.Pack.{FitFrom, pack_exact}
use dovi_ai_server.Review.Batches.Omitted.{all_pieces, split_targets_into_batches-Perm}
use dovi_ai_server.Llm.Partial.{Decoders}

abbrev blocks : List (Text × Text)
blocks = (codes "a", codes "aaaa\naaaa") ∷ (codes "b", codes "bb") ∷ []

truncate_diff-IsShared_example : IsShared 8 10 0 blocks (truncate_loop 8 10 0 blocks)
truncate_diff-IsShared_example = truncate_diff-IsShared 8 10 blocks

abbrev pub finding : ReviewComment
finding = record {
  severity = major;
  confidence = 7;
  file_path = codes "a.py";
  line = 2;
  title = codes "leak";
  message = codes "open";
  evidence = codes "e" ∷ [];
  suggested_fix = none;
}

-- A server that counts its calls, knows 4 tokens for any text, answers with an error first and with
-- two findings then, and confirms the finding 0.
abbrev pub server : Model
server = record {
  State = ℕ;
  get_context_window = λ n. (some 900, n);
  ask_tokens = λ text n. (some 4, n);
  generate = λ q limit n. (
    if n == 0
        then invalid
        else answered (record { summary = codes "s"; reviews = finding ∷ finding ∷ [] }),
    suc n,
  );
  verify_findings = λ q n. (some (record { index = 0; confirmed = true; reason = [] } ∷ []), suc n);
  ceil_hangul = λ n. n + n;
  ceil_other = λ n. n;
}

abbrev pub settings : Settings
settings = record {
  llm_max_context = 800;
  max_tokens = 100;
  verify_max_tokens = 100;
  truncation_retry_max_findings = 1;
  max_review_batches = 1;
}

abbrev pub decoders : Decoders
decoders = record { decode_string = λ t. some t; decode_review = λ t. none }

abbrev prompt : Messages
prompt = record { system = codes "s"; user = codes "u" }

abbrev shortened : Session server → Option Messages × Session server
shortened s = (some prompt, s)

split_findings_into_batches_exact_example :
    let batches = split_findings_into_batches server 4 100 20 (finding ∷ finding ∷ finding ∷ []) in
    (flatten batches
      ≡ keep (fits_alone server 4 100 20) (enumerate 0 (finding ∷ finding ∷ finding ∷ [])))
    × All (IsSendable server 4 100 20) batches
split_findings_into_batches_exact_example =
    split_findings_into_batches_exact server 4 100 20 (finding ∷ finding ∷ finding ∷ [])

generate_batch-table_example :
    let first = ask server decoders settings shortened prompt (0, none) in
    (generate_batch server decoders settings shortened prompt (0, none)).0
    ≡ expected server decoders settings shortened prompt first
        (ask server decoders settings shortened prompt first.1)
        (after_cut server decoders settings shortened prompt)
generate_batch-table_example =
    generate_batch-table server decoders settings shortened prompt (0, none)

generate_batch-calls_example :
    (generate_batch server decoders settings shortened prompt (0, none)).1.0 ≤ 3 + 0
generate_batch-calls_example =
    generate_batch-calls server decoders settings shortened (λ n. n) (λ q limit st. refl)
      (λ s. refl) prompt (0, none)

abbrev pub target : ReviewTarget
target = record {
  file_path = codes "a.py";
  status = modified;
  hunks = codes "@@ -1 +1 @@\n+a" ∷ [];
  context_chunks = [];
}

abbrev test_target : ReviewTarget
test_target = record target { file_path = codes "tests/a.py" }

abbrev measured_items : List Item
measured_items =
    record { target = test_target; tokens = 50; chars = 20 }
    ∷ record { target = target; tokens = 60; chars = 20 }
    ∷ []

abbrev room : Budget
room = record {
  context = 200;
  reserve = 80;
  common_first = 30;
  common_rest = 10;
  char_budget_first = 30;
  char_budget_rest = 40;
}

pack_exact_example :
    (flatten (pack room measured_items) ≡ measured_items)
    × FitFrom room 30 30 (pack room measured_items)
pack_exact_example = pack_exact room measured_items

abbrev shared : Bool → Session server → (ℕ × ℕ) × Session server
shared first s = (if first then (300, 100) else (200, 0), s)

split_targets_into_batches-Perm_example :
    let result =
      (split_targets_into_batches server settings false
        (λ path. [])
        shared
        (target ∷ test_target ∷ [])
        (0, none)).0 in
    (length result.0 ≤ 1)
    × Perm (item_paths result.0 ++ result.1) (
        map
          (λ t. t.file_path)
          (all_pieces server settings false (λ path. []) 100 (target ∷ test_target ∷ [])))
split_targets_into_batches-Perm_example =
    split_targets_into_batches-Perm server settings false (λ path. []) shared
      (target ∷ test_target ∷ []) (0, none)
