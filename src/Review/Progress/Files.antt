-- ===== src/Review/Progress/Files.antt =====
-- The files that the loop over the batches accounts for.
use dovi_ai_server.Base.{
  ◌≡◌, refl, Bool, true, false, not, ◌||◌, Option, none, some, List, [], ◌∷◌, arith, nat_eq,
  list_eq, triple_eq, keep, any, contains, contains-append, contains-keep, Text,
}
use dovi_ai_server.Review.Schema.{ReviewRequestedEvent, ReviewTarget, ReviewModelOutput}
use dovi_ai_server.Review.Model.{Messages, Model, Session}
use dovi_ai_server.Review.Prompt.{Built}
use dovi_ai_server.Review.Generate.{Generated, generated, gave_up, generate_batch}
use dovi_ai_server.Review.Progress.{
  Gathered, Setup, Progress, target_paths, omit, succeed, assemble, assemble_shortened,
  after_generate, after_assemble, run_batch, run_batches,
}
use dovi_ai_server.Llm.Partial.{Decoders}

-- The path was reviewed, or it is to be told as omitted.
abbrev pub is_covered : Progress → Text → Bool
is_covered g path = contains g.reviewed_files path || contains g.omitted_files path

omit-is_covered :
    (targets : List ReviewTarget) (g : Progress) (path : Text)
    → (is_covered g path || contains (target_paths targets) path) ≡ true
    → is_covered (omit targets g) path ≡ true
omit-is_covered targets g path h =
    ground (arith, contains-append g.omitted_files (target_paths targets) path)

succeed-is_covered :
    (targets : List ReviewTarget) (built : Built) (output : ReviewModelOutput) (used : Messages)
    (g : Progress) (path : Text)
    → (is_covered g path || contains (target_paths targets) path) ≡ true
    → is_covered (succeed targets built output used g) path ≡ true
succeed-is_covered targets built output used g path h = ground (
  arith,
  contains-append g.omitted_files built.dropped_files path,
  contains-append g.reviewed_files
      (keep (λ p. not (contains built.dropped_files p)) (target_paths targets)) path,
  contains-keep (λ p. not (contains built.dropped_files p)) (target_paths targets) path,
)

carry :
    (a c b a' : Bool) → ((a || c) ≡ true → a' ≡ true) → (a || (c || b)) ≡ true → (a' || b) ≡ true
carry true c b a' k h = rw (k refl) refl
carry false true b a' k h = rw (k refl) refl
carry false false true true k h = refl
carry false false true false k h = refl
carry false false false a' k h = ground arith

module _ (m : Model) (setup : Setup) (event : ReviewRequestedEvent) (found : Gathered)
    (d : Decoders) (path : Text) where
  after_generate-is_covered :
      (targets : List ReviewTarget) (built : Built) (g : Progress) (r : Generated × Session m)
      → (is_covered g path || contains (target_paths targets) path) ≡ true
      → is_covered (after_generate m setup event found d targets built g r).0 path ≡ true
  after_generate-is_covered targets built g (gave_up reason, s) h =
      omit-is_covered targets (record g { last_reason = reason }) path h
  after_generate-is_covered targets built g (generated output used, s) h =
      succeed-is_covered targets built output used g path h

  after_assemble-is_covered :
      (targets : List ReviewTarget) (include_shared : Bool) (g : Progress)
      (r : Option Built × Session m)
      → (is_covered g path || contains (target_paths targets) path) ≡ true
      → is_covered (after_assemble m setup event found d targets include_shared g r).0 path ≡ true
  after_assemble-is_covered targets include_shared g (none, s) h = omit-is_covered targets g path h
  after_assemble-is_covered targets include_shared g (some built, s) h =
      after_generate-is_covered targets built g
        (generate_batch m d setup.settings
          (assemble_shortened m setup event found targets include_shared) built.messages s)
        h

  run_batch-is_covered :
      (include_shared : Bool) (targets : List ReviewTarget) (g : Progress) (s : Session m)
      → (is_covered g path || contains (target_paths targets) path) ≡ true
      → is_covered (run_batch m setup event found d include_shared targets g s).0 path ≡ true
  unfolding run_batch
  run_batch-is_covered include_shared targets g s =
      after_assemble-is_covered targets include_shared g
        (assemble m setup event found targets [] include_shared s)

  -- Some batch has a target with the path.
  abbrev pub is_in_batches : List (List ReviewTarget) → Bool
  is_in_batches batches = any (λ targets. contains (target_paths targets) path) batches

  pub run_batches-is_covered :
      (include_shared : Bool) (batches : List (List ReviewTarget)) (g : Progress) (s : Session m)
      → (is_covered g path || is_in_batches batches) ≡ true
      → is_covered (run_batches m setup event found d include_shared batches g s).0 path ≡ true
  unfolding run_batches any
  run_batches-is_covered include_shared [] g s h = ground arith
  run_batches-is_covered include_shared (targets ∷ batches) g s h =
      let turn = run_batch m setup event found d include_shared targets g s in
      run_batches-is_covered false batches turn.0 turn.1 (
        carry (is_covered g path) (contains (target_paths targets) path) (is_in_batches batches)
          (is_covered turn.0 path) (run_batch-is_covered include_shared targets g s) h)
