-- ===== src/Consumer/Review/Keeps.antt =====
-- What a consumer's calls keep of Redis and of the published results.
use mathlib.Core.List.{List, [], ◌∷◌}
use dovi_ai_server.Base.{Bool, Option, Text, list_eq, nat_eq, Bool-cases, inl, inr}
use dovi_ai_server.Review.Schema.{ReviewRequestedEvent, ReviewResult}
use dovi_ai_server.Consumer.{
  Status, Outcome, done, lost, lost_applied, stopped, stopped_applied, Ending, returned, raised,
  cancelled, World, Run, perform, perform_next, continue, reraise, on_cancel, ◌>>=◌,
}
use dovi_ai_server.Consumer.Review.{save_evaluation_record, caught}

module _ (decode : Text → Option ReviewRequestedEvent)
    (review : ReviewRequestedEvent → ReviewResult) (has_repository : Bool)
    (superseded : Option (ReviewRequestedEvent → Bool)) where
  -- What holds of a store, kept by a method.
  module _ (Q : (Text → Option Status) → List ReviewResult → Type 0) where
    unfoldable pub Holds : World ReviewResult → Type 0
    Holds w = Q w.redis w.published

    unfoldable pub Keeps : {A : Type 0} → Run ReviewResult A → Type 0
    Keeps m = (w : World ReviewResult) → Holds w → Holds (m w).1

    pub perform-Keeps :
        {A : Type 0} (effect : World ReviewResult → A × World ReviewResult)
        → ((w : World ReviewResult) → Holds w → Holds (effect w).1)
        → Keeps (perform effect)
    unfolding Holds Keeps perform
    perform-Keeps effect k w h = next w.outcomes w h
      where
        next :
            (xs : List Outcome) (v : World ReviewResult)
            → Holds v
            → Holds (perform_next xs effect v).1
        next [] v h = k v h
        next (done ∷ xs) v h = k _ h
        next (lost ∷ xs) v h = h
        next (lost_applied ∷ xs) v h = k _ h
        next (stopped ∷ xs) v h = h
        next (stopped_applied ∷ xs) v h = k _ h

    pub bind-Keeps :
        {A B : Type 0} (m : Run ReviewResult A) (f : A → Run ReviewResult B)
        → Keeps m
        → ((a : A) → Keeps (f a))
        → Keeps (m >>= f)
    unfolding Keeps
    bind-Keeps {A = A} m f hm hf w h = next (m w).0 (m w).1 (hm w h)
      where
        next : (r : Ending A) (v : World ReviewResult) → Holds v → Holds (continue r f v).1
        next (returned a) v h = hf a v h
        next raised v h = h
        next cancelled v h = h

    pub on_cancel-Keeps :
        (cleanup m : Run ReviewResult Unit)
        → Keeps cleanup
        → Keeps m
        → Keeps (λ w. on_cancel cleanup (m w))
    unfolding Keeps
    on_cancel-Keeps cleanup m hc hm w h = next (m w).0 (m w).1 (hm w h)
      where
        again : (r : Ending Unit) (v : World ReviewResult) → Holds v → Holds (reraise r v).1
        again (returned a) v h = h
        again raised v h = h
        again cancelled v h = h

        next :
            (r : Ending Unit) (v : World ReviewResult)
            → Holds v
            → Holds (on_cancel cleanup (r, v)).1
        next (returned a) v h = h
        next raised v h = h
        next cancelled v h = again _ _ (hc v h)

    pub save-Keeps :
        (result : ReviewResult)
        → Keeps (save_evaluation_record decode review has_repository superseded result)
    unfolding Keeps save_evaluation_record Holds
    save-Keeps result w h = elim (Bool-cases has_repository) [
      | inl yes_ ↦ rw yes_ (
          next _ _
            (perform-Keeps (λ v. (tt, record v { saved = result ∷ v.saved })) (λ v k. k) w h))
      | inr no_ ↦ rw no_ h
    ]
      where
        next :
            (r : Ending Unit) (v : World ReviewResult)
            → Holds v
            → Holds (caught decode review has_repository superseded (r, v)).1
        next (returned a) v h = h
        next raised v h = h
        next cancelled v h = h
