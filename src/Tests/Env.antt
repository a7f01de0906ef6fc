-- ===== src/Tests/Env.antt =====
-- Runs of app/sandbox_probe/repo_inspect.py and sidecars.py on small environments.
use dovi_ai_server.Base.{
  ℕ, ◌≡◌, refl, true, ◌||◌, none, List, [], ◌∷◌, ◌++◌, arith, nat_eq, list_eq, triple_eq, Text,
  codes, show,
}
use dovi_ai_server.Sandbox.Env.{
  EnvKind, database, url, general, secret, kind_of, is_kind, classify_env, resolve_sidecar,
  UrlParts, build_probe_env,
}
use dovi_ai_server.Sandbox.Env.Private.{build_probe_env-private}

abbrev sample_split : Text → UrlParts
sample_split address = record {
  scheme = codes "postgres";
  hostname = codes "pg";
  netloc = codes "me:pw@pg:1";
  unsplit = λ netloc. codes "postgres://" ++ (netloc ++ codes "/app");
}

abbrev sample_resolve : Text → Text × ℕ
sample_resolve = resolve_sidecar (
    record {
      alias = codes "cache";
      family = codes "redis";
      image = codes "redis:7";
      port = 6379;
      data_dir = codes "/data";
      env = [];
      command = [];
      ready_argv = none;
    }
    ∷ record {
      alias = codes "main";
      family = codes "postgres";
      image = codes "postgres:17";
      port = 5432;
      data_dir = codes "/data";
      env = [];
      command = [];
      ready_argv = none;
    }
    ∷ [])

abbrev sample_secret : ℕ → Text
sample_secret n = codes "made" ++ show n

abbrev sample_names : List Text
sample_names =
    codes "JWT_KEY"
    ∷ codes "DATABASE_URL"
    ∷ codes "REDIS_HOST"
    ∷ codes "PORT"
    ∷ codes "SLACK_WEBHOOK"
    ∷ codes "JWT_KEY"
    ∷ []

abbrev value_of : Text → EnvKind → Text
value_of hidden database = codes "postgres://me:pw@pg:1/app"
value_of hidden general = codes "80a"
value_of hidden url = hidden
value_of hidden secret = hidden

abbrev sample_env : Text → Text → Text
sample_env hidden name = value_of hidden (kind_of name)

sidecar_of_redis : sample_resolve (codes "REDIS_HOST") ≡ (codes "cache", 6379)
unfolding resolve_sidecar
sidecar_of_redis = refl

sample_probe_env :
    build_probe_env sample_split sample_resolve
      (codes "http://mock")
      sample_secret
      (classify_env sample_names)
      (sample_env (codes "x"))
    ≡ (codes "DATABASE_URL", codes "postgres://me:pw@main:5432/app")
      ∷ (codes "REDIS_HOST", codes "cache")
      ∷ (codes "SLACK_WEBHOOK", codes "http://mock")
      ∷ (codes "PORT", codes "3000")
      ∷ (codes "JWT_KEY", codes "made0")
      ∷ []
unfolding build_probe_env classify_env resolve_sidecar kind_of show
sample_probe_env = refl

value_of-same :
    (s t : Text) (k : EnvKind)
    → (is_kind k database || is_kind k general) ≡ true
    → value_of s k ≡ value_of t k
value_of-same s t database h = refl
value_of-same s t general h = refl
value_of-same s t url h = ground arith
value_of-same s t secret h = ground arith

build_probe_env-private_example :
    build_probe_env sample_split sample_resolve
      (codes "http://mock")
      sample_secret
      (classify_env sample_names)
      (sample_env (codes "token"))
    ≡ build_probe_env sample_split sample_resolve
        (codes "http://mock")
        sample_secret
        (classify_env sample_names)
        (sample_env (codes "other"))
build_probe_env-private_example =
    build_probe_env-private sample_split sample_resolve (codes "http://mock") sample_secret
      sample_names (sample_env (codes "token")) (sample_env (codes "other"))
      (λ name h. value_of-same (codes "token") (codes "other") (kind_of name) h)
