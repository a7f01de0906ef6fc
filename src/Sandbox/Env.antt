-- ===== src/Sandbox/Env.antt =====
-- app/sandbox_probe/repo_inspect.py, `classify_env` and `build_probe_env`, and `sidecar_resolver` in
-- app/sandbox_probe/sidecars.py: the environment in which the changed program is started. The
-- splitting of URLs is a parameter, which gives parts for every text: the ValueError of `urlsplit` is
-- left out. The digits of `isdigit` are those of ASCII.
pub mod Private
use mathlib.Core.List.{flat_map}
use dovi_ai_server.Base.{
  ℕ, zero, suc, ◌+◌, ◌-◌, ◌*◌, ◌/◌, ◌%◌, ◌^◌, ◌≤◌, ◌<◌, min, max, ◌≡◌, refl, sym, ap, ap₂, ◌∙◌, ◌≢◌,
  ◌↔◌, ◌⊎◌, inl, inr, Bool, true, false, not, ◌&&◌, ◌||◌, Option, none, some, List, [], ◌∷◌, ◌++◌,
  map, arith, ltb, leb, nat_beq, if◌then◌else◌, ltb→lt, ltb→ge, leb→le, leb→gt, nat_beq_iff,
  Bool-cases, Option-cases, ◌>>=◌, Eq, ◌==◌, list_beq, list_beq_iff, nat_eq, list_eq, triple_beq,
  triple_beq_iff, triple_eq, ==_refl, ==_sound, ==_complete, Free, split_on-join, split_on-Free,
  show-Free, length, get_elem?, take, drop, is_nil, length-append, take-append-drop, length-take,
  length-drop, keep, any, All, All-append, All-take, All-keep, All-map_of, keep-All, contains,
  contains-append, contains-keep, count, count-append, Distinct, sort, sort-perm, All-sort, Ordered,
  sort-Ordered, Sub, Sub-refl, Sub-All, Sub-keep, Sub-Distinct, Sub-Ordered, first_of_each,
  Sub-first_of_each, first_of_each-Distinct, contains-first_of_each, contains-sort, none_left,
  keeps, skips, Text, codes, is_space, is_line_break, lower_char, lower, starts_with, ends_with,
  has_text, after_prefix, lstrip, strip, cons_head, split_on, lines_after, splitlines, join,
  newline, show_digits, show, is_digit, take_digits, head_is_digit, read_number, read_number-show,
  path_parts, last_or_nil, path_name, suffix_of_parts, path_suffix, lstrip_dots, drop_first,
  path_suffixes,
}

-- `w$`, which also takes a newline behind.
unfoldable pub has_end : Text → Text → Bool
unfolding ends_with
has_end word name = ends_with word name || ends_with (word ++ newline) name

unfoldable pub is_exactly : Text → Text → Bool
unfolding list_beq
is_exactly word name = name == word || name == word ++ newline

abbrev pub pg_words : List Text
pg_words =
    codes "PGHOST" ∷ codes "PGPORT" ∷ codes "PGUSER" ∷ codes "PGPASSWORD" ∷ codes "PGDATABASE" ∷ []

abbrev pub database_prefixes : List Text
database_prefixes =
    codes "DATABASE_"
    ∷ codes "DB_"
    ∷ codes "POSTGRES"
    ∷ codes "MYSQL"
    ∷ codes "REDIS"
    ∷ codes "MONGO"
    ∷ []

unfoldable pub is_database : Text → Bool
unfolding any starts_with is_exactly
is_database name =
    any (λ p. starts_with p name) database_prefixes || any (λ w. is_exactly w name) pg_words

abbrev pub general_words : List Text
general_words = codes "PORT" ∷ codes "NODE_ENV" ∷ codes "TZ" ∷ codes "LOG_LEVEL" ∷ codes "HOST" ∷ []

unfoldable pub is_general : Text → Bool
unfolding any is_exactly has_end has_text
is_general name =
    any (λ w. is_exactly w name) general_words
    || has_end (codes "_PORT") name
    || has_text (codes "_TIMEOUT") name
    || has_end (codes "_ENABLED") name
    || has_text (codes "_REJECT_") name

unfoldable pub is_url : Text → Bool
unfolding has_end has_text starts_with
is_url name =
    has_end (codes "_URL") name
    || has_text (codes "_WEBHOOK") name
    || starts_with (codes "WEBHOOK") name

pub data EnvKind : Type 0 where
  database url general secret : EnvKind

-- The kind of a name; a general name is seen before a URL.
unfoldable pub kind_of : Text → EnvKind
unfolding is_database is_general is_url
kind_of name =
    if is_database name
    then database
    else if is_general name
    then general
    else if is_url name
    then url
    else secret

abbrev pub is_kind : EnvKind → EnvKind → Bool
is_kind database database = true
is_kind url url = true
is_kind general general = true
is_kind secret secret = true
is_kind _ _ = false

pub record EnvClassification : Type 0 where
  pub database_names : List Text
  pub url_names : List Text
  pub general_names : List Text
  pub secret_names : List Text

-- The sets as lists, in the order in which they are read.
unfoldable pub classify_env : List Text → EnvClassification
unfolding keep kind_of first_of_each
classify_env names =
    let of_kind : EnvKind → List Text =
      λ k. keep (λ name. is_kind (kind_of name) k) (first_of_each (λ (t : Text). t) [] names) in
    record {
      database_names = of_kind database;
      url_names = of_kind url;
      general_names = of_kind general;
      secret_names = of_kind secret;
    }

pub record Sidecar : Type 0 where
  pub alias : Text
  pub family : Text
  pub image : Text
  pub port : ℕ
  pub data_dir : Text
  pub env : List (Text × Text)
  pub command : List Text
  pub ready_argv : Option (List Text)

abbrev pub family_prefixes : List (Text × Text)
family_prefixes =
    (codes "REDIS", codes "redis")
    ∷ (codes "MYSQL", codes "mysql")
    ∷ (codes "MONGO", codes "mongo")
    ∷ []

unfoldable pub wanted_family : List (Text × Text) → Text → Option Text
unfolding starts_with
wanted_family [] name = none
wanted_family ((prefix, family) ∷ rest) name =
    let later = wanted_family rest name in if starts_with prefix name then some family else later

abbrev pub serves : Option Text → Sidecar → Bool
serves none sidecar = not (sidecar.family == codes "redis")
serves (some family) sidecar = sidecar.family == family

unfoldable pub first_serving : Option Text → List Sidecar → Text × ℕ
unfolding list_beq
first_serving wanted [] = (codes "db", 5432)
first_serving wanted (s ∷ sidecars) =
    let later = first_serving wanted sidecars in
    if serves wanted s then (s.alias, s.port) else later

unfoldable pub resolve_sidecar : List Sidecar → Text → Text × ℕ
unfolding wanted_family first_serving
resolve_sidecar sidecars name = first_serving (wanted_family family_prefixes name) sidecars

-- The parts of a URL that `urlsplit` gives; `unsplit` puts another location in.
pub record UrlParts : Type 0 where
  pub scheme : Text
  pub hostname : Text
  pub netloc : Text
  pub unsplit : Text → Text

-- `netloc.rpartition("@")[0]`.
unfoldable pub before_last_at : Text → Option Text
before_last_at [] = none
before_last_at (c ∷ t) = elim (before_last_at t) [
  | some rest ↦ some (c ∷ rest)
  | none ↦ if c == b'@' then some [] else none
]

abbrev pub userinfo_of : Option Text → Text
userinfo_of none = []
userinfo_of (some userinfo) = userinfo

abbrev pub EnvVars : Type 0
EnvVars = List (Text × Text)

abbrev pub general_defaults : EnvVars
general_defaults =
    (codes "PORT", codes "3000")
    ∷ (codes "NODE_ENV", codes "test")
    ∷ (codes "TZ", codes "UTC")
    ∷ (codes "LOG_LEVEL", codes "info")
    ∷ (codes "HOST", codes "0.0.0.0")
    ∷ []

-- The variable with its default, if it has one.
unfoldable pub default_of : Text → EnvVars → EnvVars
unfolding list_beq
default_of name [] = []
default_of name ((key, value) ∷ rest) =
    let later = default_of name rest in if key == name then (key, value) ∷ [] else later

-- `str.isdigit`.
unfoldable pub all_digits : Text → Bool
unfolding is_digit any
all_digits t = not (is_nil t) && not (any (λ c. not (is_digit c)) t)

module _ (urlsplit : Text → UrlParts) (resolve : Text → Text × ℕ) (mock_url : Text)
    (make_secret : ℕ → Text) where
  unfoldable pub rewrite_db_url : Text → Text → ℕ → Text
  unfolding before_last_at show
  rewrite_db_url address host port =
      let parts = urlsplit address in
      let userinfo = userinfo_of (before_last_at parts.netloc) in
      let location = host ++ (codes ":" ++ show port) in
      if is_nil parts.scheme || is_nil parts.hostname
      then address
      else parts.unsplit (if is_nil userinfo then location else userinfo ++ (codes "@" ++ location))

  unfoldable pub database_var : Text → Text → EnvVars
  unfolding ends_with has_text rewrite_db_url show
  database_var name value =
      let (host, port) = resolve name in
      if (ends_with (codes "_URL") name || ends_with (codes "_URI") name)
        && has_text (codes "://") value
      then (name, rewrite_db_url value host port) ∷ []
      else if ends_with (codes "_HOST") name
      then (name, host) ∷ []
      else if ends_with (codes "_PORT") name
      then (name, show port) ∷ []
      else if is_nil value
      then []
      else (name, value) ∷ []

  unfoldable pub general_var : Text → Text → EnvVars
  unfolding all_digits default_of list_beq
  general_var name value =
      if name == codes "NODE_ENV"
      then (name, codes "test") ∷ []
      else if name == codes "PORT"
      then (name, if all_digits value then value else codes "3000") ∷ []
      else if is_nil value
      then default_of name general_defaults
      else (name, value) ∷ []

  -- `make_secret` is called once for each name; its number is the count of the calls before.
  unfoldable pub secret_vars : ℕ → List Text → EnvVars
  secret_vars n [] = []
  secret_vars n (name ∷ names) = (name, make_secret n) ∷ secret_vars (suc n) names

  -- `example name` is `example.get(name, "")`.
  unfoldable pub build_probe_env : EnvClassification → (Text → Text) → EnvVars
  unfolding database_var general_var secret_vars flat_map
  build_probe_env c example =
      flat_map (λ name. database_var name (example name)) c.database_names
      ++ (map (λ name. (name, mock_url)) c.url_names
          ++ (flat_map (λ name. general_var name (example name)) c.general_names
              ++ secret_vars 0 c.secret_names))
