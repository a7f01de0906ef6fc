-- ===== src/Review/Told/Notes.antt =====
-- The files that the user is told about.
use dovi_ai_server.Base.{
  ◌≡◌, refl, sym, ap, ◌∙◌, Bool, false, not, ◌&&◌, ◌||◌, List, [], ◌∷◌, ◌++◌, map, arith, nat_eq,
  list_eq, triple_eq, keep, contains, contains-append, contains-keep, contains-keep, first_of_each,
  contains-first_of_each, Text,
}
use dovi_ai_server.Review.Progress.{Progress}
use dovi_ai_server.Review.Told.{told_files}

contains-first :
    (xs : List Text) (a : Text) → contains (first_of_each (λ p. p) [] xs) a ≡ contains xs a
unfolding contains
contains-first xs a =
    sym (ap (λ l. contains l a) (map_same (first_of_each (λ p. p) [] xs)))
    ∙ contains-first_of_each (λ p. p) a [] xs
    ∙ ap (λ l. contains l a) (map_same xs)
  where
    map_same : (ys : List Text) → map (λ p. p) ys ≡ ys
    map_same [] = refl
    map_same (y ∷ ys) = ap (λ l. y ∷ l) (map_same ys)

omitted-contains :
    (g : Progress) (path : Text)
    → contains (told_files g).omitted path
      ≡ (contains g.omitted_files path && not (contains g.reviewed_files path))
unfolding told_files
omitted-contains g path =
    contains-keep (λ p. not (contains g.reviewed_files p))
      (first_of_each (λ p. p) [] g.omitted_files) path
    ∙ ap (λ b. b && not (contains g.reviewed_files path)) (contains-first g.omitted_files path)

partial-contains :
    (g : Progress) (path : Text)
    → contains (told_files g).partial path ≡ (
        (contains g.partial_files path
          || (contains g.omitted_files path && contains g.reviewed_files path))
        && not (contains (told_files g).omitted path))
unfolding told_files
partial-contains g path =
    let partial_files = g.partial_files ++ keep (contains g.reviewed_files) g.omitted_files in
    let omitted = (told_files g).omitted in
    contains-keep (λ p. not (contains omitted p)) (first_of_each (λ p. p) [] partial_files) path
    ∙ ap (λ b. b && not (contains omitted path))
        (contains-first partial_files path
          ∙ contains-append g.partial_files (keep (contains g.reviewed_files) g.omitted_files) path
          ∙ ap (λ b. contains g.partial_files path || b)
              (contains-keep (contains g.reviewed_files) g.omitted_files path))

apart :
    (o r p om pa : Bool)
    → om ≡ (o && not r)
    → pa ≡ ((p || (o && r)) && not om)
    → ((om && pa) ≡ false) × ((o || p) ≡ (om || pa))
apart o r p om pa h k = (ground arith, ground arith)

-- What is told about a path: it stands in the first note when it was omitted and nothing of it was
-- reviewed; it stands in at most one of the two notes; and it stands in one of them exactly when
-- something of it was omitted or cut.
pub told_files-exact :
    (g : Progress) (path : Text)
    → let omitted = contains (told_files g).omitted path in
      let partial = contains (told_files g).partial path in
      (omitted ≡ (contains g.omitted_files path && not (contains g.reviewed_files path)))
      × ((omitted && partial) ≡ false)
      × ((contains g.omitted_files path || contains g.partial_files path) ≡ (omitted || partial))
told_files-exact g path =
    let told =
      apart (contains g.omitted_files path) (contains g.reviewed_files path)
        (contains g.partial_files path) (contains (told_files g).omitted path)
        (contains (told_files g).partial path) (omitted-contains g path)
        (partial-contains g path) in
    (omitted-contains g path, told.0, told.1)
