-- ===== src/Sandbox/Env/Private.antt =====
-- What of the example environment reaches the program that is started.
use mathlib.Core.List.{flat_map}
use dovi_ai_server.Base.{
  ℕ, ◌≡◌, refl, ap, ap₂, inl, inr, Bool, true, false, ◌||◌, List, [], ◌∷◌, ◌++◌, arith, Bool-cases,
  nat_eq, list_eq, triple_eq, keep, first_of_each, Text,
}
use dovi_ai_server.Sandbox.Env.{
  database, general, kind_of, is_kind, classify_env, UrlParts, EnvVars, database_var, general_var,
  build_probe_env,
}

-- Two environments agree on the names of the database and the general kind.
abbrev pub Agree : (Text → Text) → (Text → Text) → Type 0
Agree example other =
    (name : Text)
    → (is_kind (kind_of name) database || is_kind (kind_of name) general) ≡ true
    → example name ≡ other name

flat_map-agree :
    (f : Text → Text → EnvVars) (example other : Text → Text) (p : Text → Bool) (names : List Text)
    → ((name : Text) → p name ≡ true → example name ≡ other name)
    → flat_map (λ name. f name (example name)) (keep p names)
      ≡ flat_map (λ name. f name (other name)) (keep p names)
unfolding keep flat_map
flat_map-agree f example other p [] h = refl
flat_map-agree f example other p (name ∷ names) h = elim (Bool-cases (p name)) [
  | inl yes_ ↦
      rw yes_ (ap₂ ◌++◌ (ap (f name) (h name yes_)) (flat_map-agree f example other p names h))
  | inr no_ ↦ rw no_ (flat_map-agree f example other p names h)
]

-- The environment of the probe for some names is the same for any two example environments that
-- agree on the names of databases and on the general names: no example value of a URL or of a
-- secret reaches the program, whatever the sidecars, the mock URL and the secrets made for it.
pub build_probe_env-private :
    (urlsplit : Text → UrlParts) (resolve : Text → Text × ℕ) (mock_url : Text)
    (make_secret : ℕ → Text) (names : List Text) (example other : Text → Text)
    → Agree example other
    → build_probe_env urlsplit resolve mock_url make_secret (classify_env names) example
      ≡ build_probe_env urlsplit resolve mock_url make_secret (classify_env names) other
unfolding build_probe_env classify_env
build_probe_env-private urlsplit resolve mock_url make_secret names example other h =
    ap₂ ◌++◌
      (flat_map-agree (database_var urlsplit resolve mock_url make_secret) example other
        (λ name. is_kind (kind_of name) database) (first_of_each (λ (t : Text). t) [] names)
        (λ name k. h name (left _ _ k)))
      (ap₂ ◌++◌ refl (
        ap₂ ◌++◌
          (flat_map-agree (general_var urlsplit resolve mock_url make_secret) example other
            (λ name. is_kind (kind_of name) general) (first_of_each (λ (t : Text). t) [] names)
            (λ name k. h name (right _ _ k)))
          refl))
  where
    left : (a b : Bool) → a ≡ true → (a || b) ≡ true
    left true b k = refl
    left false b k = ground arith

    right : (a b : Bool) → b ≡ true → (a || b) ≡ true
    right true b k = refl
    right false b k = k
