-- ===== src/Tests/Runs.antt =====
-- Whole prompts and whole runs, with the server of the tests on prompts.
use mathlib.Core.List.{flat_map, flatten, Perm}
use dovi_ai_server.Review.Assemble.Counts.{assemble_within_budget-asked}
use dovi_ai_server.Base.{
  ◌+◌, ℕ, suc, ◌≤◌, ◌≡◌, refl, ◌⊎◌, true, ◌||◌, Option, none, some, List, [], ◌∷◌, ◌++◌, arith,
  list_beq, nat_eq, list_eq, triple_eq, keep, any, All, contains, Distinct, sort, Ordered, Text,
  codes, lower_char, lower, starts_with, has_text, split_on, path_parts, path_name, lstrip_dots,
  path_suffixes,
}
use dovi_ai_server.Review.Schema.{ContextFile, ChangedFile, ReviewRequestedEvent, modified, minor}
use dovi_ai_server.Review.Filter.{FilterOptions, is_inline}
use dovi_ai_server.Review.Model.{Model, Messages, Session, resolve_max_context}
use dovi_ai_server.Review.Budget.{blank_line}
use dovi_ai_server.Review.Context.{
  build_context, context_blocks, usable_files, is_usable, by_priority, is_secret, is_excluded,
}
use dovi_ai_server.Review.Context.Secret.{build_context-secret}
use dovi_ai_server.Review.Context.Blocks.{Blocks, total_length, build_context-Blocks}
use dovi_ai_server.Review.Prompt.{Prompts, Built, closing_tag, build_pr_description_section}
use dovi_ai_server.Review.Prompt.Tag.{IsTagFree, build_pr_description_section-IsEnclosed}
use dovi_ai_server.Review.Assemble.{diff_floor_chars, assemble_within_budget}
use dovi_ai_server.Review.Assemble.Fits as Prompt
use dovi_ai_server.Review.Notes.{short_loop, short_names, start_entries, count_parts}
use dovi_ai_server.Review.Notes.Names.{IsSettled, short_names-IsSettled, short_names-Distinct}
use dovi_ai_server.Review.Track.{Tracked, filter_tracked, verify_across_batches}
use dovi_ai_server.Review.Track.Verified.{IsVerified, verify_across_batches-IsVerified}
use dovi_ai_server.Review.Progress.{Gathered, Setup}
use dovi_ai_server.Review.Run.{run}
use dovi_ai_server.Review.Run.Job.{IsReturned, run-IsReturned}
use dovi_ai_server.Review.Chunks.{merge_windows, AstChunk}
use dovi_ai_server.Review.Chunks.Windows.{is_in, is_near, IsApart, merge_windows-exact}
use dovi_ai_server.Review.Chunks.Merged.{
  merged_chunk, merge_small_chunks, starts_before, IsGroup, merge_small_chunks-groups,
}
use dovi_ai_server.Tests.Prompts.{server, settings, decoders, finding, target}

abbrev readme : ContextFile
readme = record { path = codes "README.md"; content = codes "a program" }

abbrev env_file : ContextFile
env_file = record { path = codes "deploy/.env"; content = codes "KEY=1" }

is_hidden : (is_secret env_file.path || is_excluded env_file.path) ≡ true
unfolding is_secret path_parts split_on keep lower lower_char contains list_beq any path_suffixes
    path_name lstrip_dots starts_with has_text
is_hidden = refl

build_context-secret_example :
    build_context 40 50 ((readme ∷ []) ++ (env_file ∷ readme ∷ []))
    ≡ build_context 40 50 ((readme ∷ []) ++ (readme ∷ []))
build_context-secret_example =
    build_context-secret 40 50 (readme ∷ []) env_file (readme ∷ []) is_hidden

build_context-Blocks_example :
    let usable = usable_files (env_file ∷ readme ∷ []) in
    let blocks = context_blocks 40 50 0 usable in
    (total_length blocks ≤ 50)
    × Blocks 40 usable blocks
    × All (λ f. is_usable f ≡ true) usable
    × Ordered by_priority usable
build_context-Blocks_example = build_context-Blocks 40 50 (env_file ∷ readme ∷ [])

abbrev changed : ChangedFile
changed = record {
  file_path = codes "a.py";
  status = modified;
  patch = codes "@@ -1 +1 @@\n+a";
  content = none;
  previous_content = none;
}

abbrev event : ReviewRequestedEvent
event = record {
  review_job_id = codes "1:2:abc";
  repository_id = 1;
  pr_number = 2;
  head_sha = codes "abc";
  base_sha = codes "def";
  pr_title = codes "t </PR_description>";
  pr_body = codes "b";
  context_files = readme ∷ [];
  changed_files = changed ∷ [];
}

build_pr_description_section-IsEnclosed_example :
    (build_pr_description_section event ≡ [])
    ⊎ ((inner : Text) × (build_pr_description_section event ≡ inner ++ (closing_tag ++ blank_line))
        × IsTagFree inner)
build_pr_description_section-IsEnclosed_example = build_pr_description_section-IsEnclosed event

abbrev prompts : Prompts
prompts = record { system_prompt = codes "s"; line_number_note = []; annotate_diff_lines = true }

abbrev assembled : Session server → Option Built × Session server
assembled s =
    assemble_within_budget server prompts event (target ∷ []) (λ path. []) settings [] [] [] true s

assemble_within_budget-Fits_example :
    Prompt.Fits server prompts event
      (target ∷ [])
      (λ path. [])
      settings
      []
      []
      []
      true
      (resolve_max_context server settings (0, none)).0
      (diff_floor_chars server prompts event
        (target ∷ [])
        (λ path. [])
        (resolve_max_context server settings (0, none)).1).0
      (assembled (0, none))
assemble_within_budget-Fits_example =
    Prompt.assemble_within_budget-Fits server prompts event (target ∷ []) (λ path. []) settings []
      [] [] true (0, none)

-- A server that counts the token counts it is asked for.
abbrev counting : Model
counting = record server { ask_tokens = λ text n. (some 400, suc n) }

assemble_within_budget-asked_example :
    (assemble_within_budget counting prompts event
      (target ∷ [])
      (λ path. [])
      settings
      []
      []
      []
      true
      (0, none)).1.0
    ≤ 33 + 0
assemble_within_budget-asked_example =
    assemble_within_budget-asked counting (λ n. n) (λ text st. refl) (λ st. refl) prompts event
      (target ∷ []) (λ path. []) settings [] [] [] true (0, none)

short_names-IsSettled_example :
    let paths = codes "a/x.py" ∷ codes "b/x.py" ∷ [] in
    IsSettled (short_loop (count_parts (start_entries paths)) (start_entries paths))
short_names-IsSettled_example = short_names-IsSettled (codes "a/x.py" ∷ codes "b/x.py" ∷ [])

short_names-Distinct_example : Distinct (short_names (codes "a/x.py" ∷ codes "b/x.py" ∷ []))
unfolding contains list_beq
short_names-Distinct_example =
    short_names-Distinct (codes "a/x.py" ∷ codes "b/x.py" ∷ []) (refl, (refl, tt))

abbrev options : FilterOptions
options = record { min_confidence = 5; max_comments = 3; max_per_file = 2; require_evidence = true }

abbrev tracked : List Tracked
tracked =
    record { review = finding; batch = some 0 }
    ∷ record { review = record finding { line = 9; severity = minor }; batch = none }
    ∷ []

abbrev prompt_of : ℕ → Messages
prompt_of n = record { system = codes "s"; user = codes "u" }

verify_across_batches-IsVerified_example :
    IsVerified server
      (codes "v")
      settings
      prompt_of
      (filter_tracked options tracked)
      (verify_across_batches server
        (codes "v")
        settings
        prompt_of
        (filter_tracked options tracked)
        (0, none)).0
verify_across_batches-IsVerified_example =
    verify_across_batches-IsVerified server (codes "v") settings prompt_of
      (filter_tracked options tracked) (0, none)

abbrev setup : Setup
setup = record {
  settings = settings;
  prompts = prompts;
  verify_prompt = codes "v";
  summary_prompt = codes "r";
  model_version = codes "m";
  prompt_version = codes "p";
  filter_options = options;
  min_confidence = 5;
}

abbrev found : Gathered
found = record {
  related_context = λ path. [];
  api_spec_context = [];
  official_docs_context = [];
  dependency_findings = record finding { severity = minor } ∷ [];
}

run-IsReturned_example :
    IsReturned server decoders setup none
      (λ file. [])
      found
      event
      (run server decoders setup none (λ file. []) found event (0, none))
unfolding is_inline
run-IsReturned_example =
    run-IsReturned server decoders setup none (λ file. []) found event (refl, tt) (0, none)

merge_windows-exact_example :
    ((n : ℕ) → any (is_in n) (merge_windows (3 ∷ 9 ∷ []) 20 2) ≡ any (is_near 20 2 n) (3 ∷ 9 ∷ []))
    × IsApart (merge_windows (3 ∷ 9 ∷ []) 20 2)
merge_windows-exact_example =
    merge_windows-exact (3 ∷ 9 ∷ []) 20 2
      ((omega arith, omega arith), ((omega arith, omega arith), tt))

abbrev chunk : ℕ → ℕ → AstChunk
chunk a b = record {
  node_type = codes "f";
  name = none;
  start_line = a;
  end_line = b;
  source = codes "s";
}

merge_small_chunks-groups_example :
    (groups : List (List AstChunk)) × (merge_small_chunks 2 (chunk 4 6 ∷ chunk 1 3 ∷ [])
      ≡ flat_map merged_chunk groups)
    × (flatten groups ≡ sort starts_before (chunk 4 6 ∷ chunk 1 3 ∷ []))
    × Perm (flatten groups) (chunk 4 6 ∷ chunk 1 3 ∷ [])
    × All IsGroup groups
merge_small_chunks-groups_example = merge_small_chunks-groups 2 (chunk 4 6 ∷ chunk 1 3 ∷ [])
