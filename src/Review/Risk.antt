-- ===== src/Review/Risk.antt =====
-- app/review/risk_hints.py: the risk areas that the paths of the changed files point to. A regular
-- expression that is an alternative of plain words is the list of the words.
use Prim.Native.String.{String}
use dovi_ai_server.Base.{
  ℕ, Bool, true, false, not, ◌||◌, none, some, List, [], ◌∷◌, ◌++◌, map, if◌then◌else◌, nat_eq,
  list_eq, triple_eq, take, is_nil, any, Text, codes, lower, starts_with, ends_with, has_text,
  after_prefix, split_on, join, newline,
}
use dovi_ai_server.Review.Budget.{blank_line}
use dovi_ai_server.Review.Schema.{ReviewTarget, FileStatus, added, modified, removed, renamed}

abbrev pub max_areas : ℕ
max_areas = 4

-- One of the words stands in the path.
unfoldable pub has_word : List String → Text → Bool
unfolding any has_text
has_word words path = any (λ w. has_text (codes w) path) words

-- `w(?!or)`.
unfoldable pub has_unless_or : Text → Text → Bool
unfolding after_prefix starts_with
has_unless_or word [] = false
has_unless_or word (c ∷ t) =
    let later = has_unless_or word t in
    elim (after_prefix word (c ∷ t)) [
      | some rest ↦ not (starts_with (codes "or") rest) || later
      | none ↦ later
    ]

-- `\.w$`, which also takes a newline behind.
unfoldable pub has_extension : Text → Text → Bool
unfolding ends_with
has_extension extension path = ends_with extension path || ends_with (extension ++ newline) path

-- `requirements.*\.txt`: both on one line, in this order.
abbrev pub requirements_behind : Text → Bool
requirements_behind t = any (has_text (codes ".txt")) (take 1 (split_on 10 t))

unfoldable pub has_requirements : Text → Bool
unfolding after_prefix any has_text split_on
has_requirements [] = false
has_requirements (c ∷ t) =
    let later = has_requirements t in
    elim (after_prefix (codes "requirements") (c ∷ t)) [
      | some rest ↦ requirements_behind rest || later
      | none ↦ later
    ]

abbrev pub touches_security : Text → Bool
touches_security path =
    has_unless_or (codes "auth") path
    || has_word
        ("secur" ∷ "crypt" ∷ "secret" ∷ "permission" ∷ "token" ∷ "password" ∷ "oauth" ∷ "jwt"
          ∷ "acl" ∷ [])
        path

abbrev pub touches_data : Text → Bool
touches_data path =
    has_word ("migrat" ∷ "schema" ∷ "repositor" ∷ "entity" ∷ "dao" ∷ []) path
    || has_extension (codes ".sql") path

abbrev pub touches_concurrency : Text → Bool
touches_concurrency path =
    has_word
      ("queue" ∷ "worker" ∷ "job" ∷ "cache" ∷ "lock" ∷ "consumer" ∷ "scheduler" ∷ "async" ∷ []) path

abbrev pub touches_contracts : Text → Bool
touches_contracts path =
    has_word ("controller" ∷ "handler" ∷ "router" ∷ "openapi" ∷ "swagger" ∷ "endpoint" ∷ []) path
    || has_extension (codes ".proto") path

abbrev pub touches_deployment : Text → Bool
touches_deployment path =
    has_word
      (".github/workflows/" ∷ "dockerfile" ∷ "docker-compose" ∷ "package.json" ∷ "lock."
        ∷ "lockfile." ∷ "build.gradle" ∷ "pom.xml" ∷ "pyproject.toml" ∷ [])
      path
    || has_extension (codes ".lock") path
    || has_requirements path

pub record PathArea : Type 0 where
  pub name : Text
  pub touches : Text → Bool

abbrev pub path_areas : List PathArea
path_areas =
    record { name = codes "security and permission boundaries"; touches = touches_security }
    ∷ record { name = codes "data integrity and migrations"; touches = touches_data }
    ∷ record { name = codes "concurrency and background processing"; touches = touches_concurrency }
    ∷ record { name = codes "API contracts"; touches = touches_contracts }
    ∷ record { name = codes "deployment and supply chain"; touches = touches_deployment }
    ∷ []

abbrev pub deletion_area : Text
deletion_area = codes "impact of deleted or renamed files"

abbrev pub is_deletion : FileStatus → Bool
is_deletion added = false
is_deletion modified = false
is_deletion removed = true
is_deletion renamed = true

unfoldable pub areas_of : List PathArea → List Text → List Text
unfolding any
areas_of [] paths = []
areas_of (area ∷ areas) paths =
    let rest = areas_of areas paths in if any area.touches paths then area.name ∷ rest else rest

unfoldable pub detect_risk_areas : List ReviewTarget → List Text
unfolding areas_of lower any has_word has_unless_or has_extension has_requirements
detect_risk_areas targets =
    let paths = map (λ t. lower t.file_path) targets in
    let deletion = if any (λ t. is_deletion t.status) targets then deletion_area ∷ [] else [] in
    take max_areas (areas_of path_areas paths ++ deletion)

unfoldable pub build_risk_hint : List ReviewTarget → Text
unfolding detect_risk_areas join
build_risk_hint targets =
    let areas = detect_risk_areas targets in
    if is_nil areas
    then []
    else codes "Risk areas detected from the changed file paths: "
      ++ (join (codes "; ") areas
          ++ (codes ". In this review, also check the failure conditions specific to these areas, "
              ++ (codes
                    "but report a finding only if the diff itself shows it — a matching path alone "
                  ++ (codes "is not evidence." ++ blank_line))))
