-- ===== src/Releases/Choice.antt =====
-- The choice of the latest release, and its compatibility with what is installed.
use mqtt_trust_gateway.Base.{
  ℕ, Bool, true, false, ◌&&◌, ◌||◌, not, Option, none, some, List, [], ◌∷◌, ◌++◌, ltb, ◌==◌,
  if◌then◌else◌, filter, String, Result, ok, err,
}
use mqtt_trust_gateway.Releases.{
  SemVer, parse_sem_ver, compare_sem_ver, is_greater, is_less, is_empty,
}

-- A release whose tag was parsed, with its place in the answer of the release service.
pub record Release : Type 0 where
  pub tag : List ℕ
  pub version : SemVer
  pub signed : Bool

pub data Channel : Type 0 where
  stable beta : Channel

abbrev pub channel_of : SemVer → Channel
channel_of v = if is_empty v.prerelease then stable else beta

abbrev pub is_beta : Channel → Bool
is_beta beta = true
is_beta stable = false

-- the view of a release in the list, or nothing where its tag is no version
unfoldable pub release_views : List (List ℕ × Bool) → List Release
release_views [] = []
release_views ((tag, signed) ∷ rs) =
    let rest = release_views rs in
    elim (parse_sem_ver tag) [
      | none ↦ rest
      | some v ↦ record { tag = tag; version = v; signed = signed } ∷ rest
    ]

abbrev pub is_candidate : SemVer → Channel → Release → Bool
is_candidate installed channel r =
    (is_beta channel || not (is_beta (channel_of r.version)))
    && is_greater (compare_sem_ver r.version installed)

-- `.sort((a, b) => compareSemVer(b.version, a.version))`, which keeps the order of equals
unfoldable pub insert_release : Release → List Release → List Release
insert_release r [] = r ∷ []
insert_release r (s ∷ ss) =
    let rest = insert_release r ss in
    if is_greater (compare_sem_ver s.version r.version) then s ∷ rest else r ∷ s ∷ ss

unfoldable pub sort_releases : List Release → List Release
sort_releases [] = []
sort_releases (r ∷ rs) = insert_release r (sort_releases rs)

abbrev pub first {ℓ} : {A : Type ℓ} → List A → Option A
first [] = none
first (x ∷ xs) = some x

-- `selectLatestRelease`
unfoldable pub select_latest_release :
    List (List ℕ × Bool) → (installed : List ℕ) → Channel → Result (Option Release)
select_latest_release releases installed channel = elim (parse_sem_ver installed) [
  | none ↦ err 500 "Installed version is not valid SemVer"
  | some v ↦ ok (first (sort_releases (filter (is_candidate v channel) (release_views releases))))
]

-- The fields of a verified manifest and of what is installed that compatibility reads.
pub record Manifest : Type 0 where
  pub schema_version : ℕ
  pub min_gateway_version : SemVer
  pub min_podman_version : Option SemVer
  pub migrations : Option (ℕ × ℕ × Bool)

pub record Installed : Type 0 where
  pub version : SemVer
  pub podman_version : Option SemVer
  pub schema_version : Option ℕ

abbrev pub below : Option SemVer → SemVer → Bool
below none least = true
below (some v) least = is_less (compare_sem_ver v least)

abbrev pub podman_reasons : Option SemVer → Option SemVer → List String
podman_reasons none podman = []
podman_reasons (some least) podman =
    if below podman least then "Host Podman version is not verified as compatible." ∷ [] else []

abbrev pub migration_reasons : (to schema : ℕ) → Option (ℕ × ℕ × Bool) → List String
migration_reasons to schema none =
    "Release does not provide a migration from the installed schema." ∷ []
migration_reasons to schema (some (start, end, snapshot)) =
    if not (start == schema) || not (end == to)
    then "Release does not provide a migration from the installed schema." ∷ []
    else if not snapshot
    then "Migration requires a verified snapshot." ∷ []
    else []

abbrev pub schema_reasons : Manifest → Option ℕ → List String
schema_reasons m none = "Installed database schema version is unknown." ∷ []
schema_reasons m (some schema) =
    if ltb schema 1
    then "Installed database schema version is unknown." ∷ []
    else if ltb m.schema_version schema
    then "Release database schema is older than the installed schema." ∷ []
    else if m.schema_version == schema
    then []
    else migration_reasons m.schema_version schema m.migrations

-- `evaluateReleaseCompatibility`: the reasons against it
unfoldable pub evaluate_release_compatibility : Manifest → Installed → List String
evaluate_release_compatibility m i =
    (if is_less (compare_sem_ver i.version m.min_gateway_version)
      then "Requires a newer Gateway." ∷ []
      else [])
    ++ podman_reasons m.min_podman_version i.podman_version
    ++ schema_reasons m i.schema_version
