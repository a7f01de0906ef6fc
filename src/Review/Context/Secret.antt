-- ===== src/Review/Context/Secret.antt =====
-- Files that `build_context` leaves out.
use dovi_ai_server.Base.{
  ℕ, ◌≡◌, refl, ap, Bool, true, false, not, ◌&&◌, ◌||◌, List, [], ◌∷◌, ◌++◌, arith, if◌then◌else◌,
  nat_eq, list_eq, triple_eq, keep,
}
use dovi_ai_server.Review.Schema.{ContextFile}
use dovi_ai_server.Review.Context.{is_secret, is_excluded, is_usable, usable_files, build_context}

keep-without {ℓ} :
    {A : Type ℓ} (p : A → Bool) (xs : List A) (x : A) (ys : List A)
    → p x ≡ false
    → keep p (xs ++ (x ∷ ys)) ≡ keep p (xs ++ ys)
unfolding keep
keep-without p [] x ys h = rw h refl
keep-without p (z ∷ xs) x ys h = ap (λ l. if p z then z ∷ l else l) (keep-without p xs x ys h)

hides : (a b : Bool) → (a || b) ≡ true → (not a && not b) ≡ false
hides true b h = refl
hides false true h = refl
hides false false h = ground arith

-- A context file whose path is secret or excluded has no influence on the project context: with it
-- at any place among the context files, at any limits, the context is the one without it.
pub build_context-secret :
    (max_file max_total : ℕ) (before : List ContextFile) (file : ContextFile)
    (behind : List ContextFile)
    → (is_secret file.path || is_excluded file.path) ≡ true
    → build_context max_file max_total (before ++ (file ∷ behind))
      ≡ build_context max_file max_total (before ++ behind)
unfolding build_context usable_files
build_context-secret max_file max_total before file behind h =
    let hidden : is_usable file ≡ false = hides (is_secret file.path) (is_excluded file.path) h in
    rw (keep-without is_usable before file behind hidden) refl
