-- ===== src/Review/Progress/Turns.antt =====
-- The turns of the loop over the batches, and the files that each of them adds to the progress.
use mathlib.Core.Path.{subst}
use dovi_ai_server.Base.{
  ◌≡◌, refl, ap, ◌∙◌, ◌&&◌, Bool, true, false, not, ◌||◌, Option, none, some, List, [], ◌∷◌, nat_eq,
  list_eq, triple_eq, keep, any, contains, contains-append, contains-keep, Text,
}
use dovi_ai_server.Review.Schema.{ReviewRequestedEvent, ReviewTarget, ReviewModelOutput}
use dovi_ai_server.Review.Model.{Messages, Model, Session}
use dovi_ai_server.Review.Prompt.{Built}
use dovi_ai_server.Review.Generate.{Generated, generated, gave_up, generate_batch}
use dovi_ai_server.Review.Progress.{
  Gathered, Setup, Progress, target_paths, omit, succeed, assemble, assemble_shortened,
  after_generate, after_assemble, run_batch, run_batches,
}
use dovi_ai_server.Llm.Partial.{Decoders}

-- What a turn of the loop does with its batch: it gives it up, without a prompt that fits or without
-- an answer, or it has an answer to the prompt that was built first.
pub data Turn : Type 0 where
  given_up : List ReviewTarget → Turn
  answered : List ReviewTarget → Built → Turn

-- The file is of the batch and stands in the prompt that was answered, whole or cut.
abbrev pub shows : Text → Turn → Bool
shows path (given_up targets) = false
shows path (answered targets built) =
    contains (target_paths targets) path && not (contains built.dropped_files path)

-- The file is of a batch that is given up, or was left out of the prompt.
abbrev pub loses : Text → Turn → Bool
loses path (given_up targets) = contains (target_paths targets) path
loses path (answered targets built) = contains built.dropped_files path

-- A part of the file was left out of the prompt.
abbrev pub cuts : Text → Turn → Bool
cuts path (given_up targets) = false
cuts path (answered targets built) = contains built.truncated_files path

-- What a turn adds to the files of the progress.
abbrev pub Adds : Text → Bool → Bool → Bool → Progress → Progress → Type 0
Adds path shown lost cut g g' =
    (contains g'.reviewed_files path ≡ (contains g.reviewed_files path || shown))
    × (contains g'.omitted_files path ≡ (contains g.omitted_files path || lost))
    × (contains g'.partial_files path ≡ (contains g.partial_files path || cut))

abbrev AddsTurn : Text → Turn → Progress → Progress → Type 0
AddsTurn path turn g g' = Adds path (shows path turn) (loses path turn) (cuts path turn) g g'

or_false : (b : Bool) → b ≡ (b || false)
or_false true = refl
or_false false = refl

or_assoc : (a b c : Bool) → ((a || b) || c) ≡ (a || (b || c))
or_assoc true b c = refl
or_assoc false b c = refl

omit-Adds :
    (targets : List ReviewTarget) (g : Progress) (path : Text)
    → AddsTurn path (given_up targets) g (omit targets g)
omit-Adds targets g path = (
  or_false (contains g.reviewed_files path),
  contains-append g.omitted_files (target_paths targets) path,
  or_false (contains g.partial_files path),
)

succeed-Adds :
    (targets : List ReviewTarget) (built : Built) (output : ReviewModelOutput) (used : Messages)
    (g : Progress) (path : Text)
    → AddsTurn path (answered targets built) g (succeed targets built output used g)
succeed-Adds targets built output used g path = (
  contains-append g.reviewed_files
        (keep (λ p. not (contains built.dropped_files p)) (target_paths targets)) path
      ∙ ap (λ b. contains g.reviewed_files path || b)
          (contains-keep (λ p. not (contains built.dropped_files p)) (target_paths targets) path),
  contains-append g.omitted_files built.dropped_files path,
  contains-append g.partial_files built.truncated_files path,
)

Adds-Adds :
    (path : Text) (shown lost cut shown' lost' cut' : Bool) (g g' g'' : Progress)
    → Adds path shown lost cut g g'
    → Adds path shown' lost' cut' g' g''
    → Adds path (shown || shown') (lost || lost') (cut || cut') g g''
Adds-Adds path shown lost cut shown' lost' cut' g g' g'' (a, b, c) (d, e, f) = (
  d ∙ ap (λ x. x || shown') a ∙ or_assoc (contains g.reviewed_files path) shown shown',
  e ∙ ap (λ x. x || lost') b ∙ or_assoc (contains g.omitted_files path) lost lost',
  f ∙ ap (λ x. x || cut') c ∙ or_assoc (contains g.partial_files path) cut cut',
)

module _ (m : Model) (setup : Setup) (event : ReviewRequestedEvent) (found : Gathered)
    (d : Decoders) where
  abbrev turn_generated : List ReviewTarget → Built → Generated × Session m → Turn × Session m
  turn_generated targets built (gave_up reason, s) = (given_up targets, s)
  turn_generated targets built (generated output used, s) = (answered targets built, s)

  abbrev turn_built : List ReviewTarget → Bool → Option Built × Session m → Turn × Session m
  turn_built targets include_shared (none, s) = (given_up targets, s)
  turn_built targets include_shared (some built, s) = turn_generated targets built (
      generate_batch m d setup.settings
        (assemble_shortened m setup event found targets include_shared) built.messages s)

  -- The turns for some batches, the first with the shared sections.
  abbrev pub turns : Bool → List (List ReviewTarget) → Session m → List Turn
  turns include_shared [] s = []
  turns include_shared (targets ∷ batches) s =
      let (turn, s1) =
        turn_built targets include_shared
          (assemble m setup event found targets [] include_shared s) in
      turn ∷ turns false batches s1

  generated-Adds :
      (path : Text) (targets : List ReviewTarget) (built : Built) (g : Progress)
      (r : Generated × Session m)
      → AddsTurn path
          (turn_generated targets built r).0
          g
          (after_generate m setup event found d targets built g r).0
        × ((after_generate m setup event found d targets built g r).1
            ≡ (turn_generated targets built r).1)
  generated-Adds path targets built g (gave_up reason, s) =
      (omit-Adds targets (record g { last_reason = reason }) path, refl)
  generated-Adds path targets built g (generated output used, s) =
      (succeed-Adds targets built output used g path, refl)

  built-Adds :
      (path : Text) (targets : List ReviewTarget) (include_shared : Bool) (g : Progress)
      (r : Option Built × Session m)
      → AddsTurn path
          (turn_built targets include_shared r).0
          g
          (after_assemble m setup event found d targets include_shared g r).0
        × ((after_assemble m setup event found d targets include_shared g r).1
            ≡ (turn_built targets include_shared r).1)
  built-Adds path targets include_shared g (none, s) = (omit-Adds targets g path, refl)
  built-Adds path targets include_shared g (some built, s) = generated-Adds path targets built g _

  pub run_batches-Adds :
      (path : Text) (include_shared : Bool) (batches : List (List ReviewTarget)) (g : Progress)
      (s : Session m)
      → let ts = turns include_shared batches s in
        Adds path
          (any (shows path) ts)
          (any (loses path) ts)
          (any (cuts path) ts)
          g
          (run_batches m setup event found d include_shared batches g s).0
  unfolding run_batches run_batch any
  run_batches-Adds path include_shared [] g s = (or_false _, or_false _, or_false _)
  run_batches-Adds path include_shared (targets ∷ batches) g s =
      let r = assemble m setup event found targets [] include_shared s in
      let turn = turn_built targets include_shared r in
      let after = after_assemble m setup event found d targets include_shared g r in
      let (adds, same) = built-Adds path targets include_shared g r in
      let end = (run_batches m setup event found d false batches after.0 after.1).0 in
      let later =
        subst
          (λ s'.
            let ts = turns false batches s' in
            Adds path (any (shows path) ts) (any (loses path) ts) (any (cuts path) ts) after.0 end)
          same (run_batches-Adds path false batches after.0 after.1) in
      Adds-Adds path (shows path turn.0) (loses path turn.0) (cuts path turn.0) _ _ _ g after.0 end
        adds later
