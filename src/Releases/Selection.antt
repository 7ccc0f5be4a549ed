-- ===== src/Releases/Selection.antt =====
-- What a chosen release is, and what a compatible one offers.
use mqtt_trust_gateway.Base.{
  ℕ, ◌≤◌, ◌<◌, ◌≡◌, ◌≢◌, ◌⊎◌, inl, inr, refl, Bool, true, false, Option, none, some, List, [], ◌∷◌,
  ◌++◌, ◌==◌, if◌then◌else◌, filter, String, ok, All, Bool-cases, Option-cases, any, arith,
}
use mqtt_trust_gateway.Releases.{
  SemVer, parse_sem_ver, compare_sem_ver, compare_prerelease, is_less, is_greater, greater,
  is_empty, same_codes,
}
use mqtt_trust_gateway.Releases.Choice.{
  Release, Channel, stable, beta, is_candidate, release_views, insert_release, sort_releases, first,
  select_latest_release, Manifest, Installed, evaluate_release_compatibility, podman_reasons,
  schema_reasons, migration_reasons,
}

module _ (P : Release → Type 0) where
  insert_release-All :
      (r : Release) (rs : List Release) → P r → All P rs → All P (insert_release r rs)
  unfolding insert_release
  insert_release-All r [] p h = (p, tt)
  insert_release-All r (s ∷ ss) p h = ground (arith, p, h, insert_release-All r ss p h.1)

  sort_releases-All : (rs : List Release) → All P rs → All P (sort_releases rs)
  unfolding sort_releases
  sort_releases-All [] h = tt
  sort_releases-All (r ∷ rs) h =
      insert_release-All r (sort_releases rs) h.0 (sort_releases-All rs h.1)

-- The release is one of the list, with the version of its tag.
abbrev pub IsPublished : List (List ℕ × Bool) → Release → Type 0
IsPublished releases r =
    (any (λ (o : List ℕ × Bool). same_codes o.0 r.tag) releases ≡ true)
    × (parse_sem_ver r.tag ≡ some r.version)

same_codes_refl : (cs : List ℕ) → same_codes cs cs ≡ true
same_codes_refl [] = refl
same_codes_refl (c ∷ cs) = ground (arith, same_codes_refl cs)

module _ (o : List ℕ × Bool) (releases : List (List ℕ × Bool)) where
  later-IsPublished :
      (rs : List Release) → All (IsPublished releases) rs → All (IsPublished (o ∷ releases)) rs
  later-IsPublished [] h = tt
  later-IsPublished (r ∷ rs) (h, hs) = ((ground (arith, h.0), h.1), later-IsPublished rs hs)

release_views-IsPublished :
    (releases : List (List ℕ × Bool)) → All (IsPublished releases) (release_views releases)
unfolding release_views
release_views-IsPublished [] = tt
release_views-IsPublished ((tag, signed) ∷ rs) =
    let rest =
      later-IsPublished (tag, signed) rs (release_views rs) (release_views-IsPublished rs) in
    elim (Option-cases (parse_sem_ver tag)) [
      | inl bad ↦ rw (bad, release_views) rest
      | inr (v, good) ↦ rw (good, release_views) ((ground (arith, same_codes_refl tag), good), rest)
    ]

-- `r` is above `v`: by the first of the three numbers that differs, or by the identifiers.
abbrev pub IsNewer : (r v : SemVer) → Type 0
IsNewer r v =
    (v.major < r.major)
    ⊎ ((v.major ≡ r.major)
        × ((v.minor < r.minor)
            ⊎ ((v.minor ≡ r.minor)
                × ((v.patch < r.patch)
                    ⊎ ((v.patch ≡ r.patch)
                        × (compare_prerelease r.prerelease v.prerelease ≡ greater))))))

is_greater-IsNewer : (r v : SemVer) → is_greater (compare_sem_ver r v) ≡ true → IsNewer r v
unfolding compare_sem_ver
is_greater-IsNewer r v h = ground (arith, h)

-- A stable channel takes only versions without identifiers.
abbrev pub Suits : Channel → Release → Type 0
Suits beta r = Unit
Suits stable r = r.version.prerelease ≡ []

abbrev IsChoice : List (List ℕ × Bool) → SemVer → Channel → Release → Type 0
IsChoice releases v channel r = IsPublished releases r × IsNewer r.version v × Suits channel r

pub is_empty-eq {ℓ} : {A : Type ℓ} (xs : List A) → is_empty xs ≡ true → xs ≡ []
is_empty-eq [] h = refl
is_empty-eq (x ∷ xs) h = absurd (cc h)

is_candidate-Suits :
    (v : SemVer) (channel : Channel) (r : Release)
    → is_candidate v channel r ≡ true
    → Suits channel r
is_candidate-Suits v beta r h = tt
is_candidate-Suits v stable r h = is_empty-eq r.version.prerelease (ground (arith, h))

filter-IsChoice :
    (releases : List (List ℕ × Bool)) (v : SemVer) (channel : Channel) (rs : List Release)
    → All (IsPublished releases) rs
    → All (IsChoice releases v channel) (filter (is_candidate v channel) rs)
filter-IsChoice releases v channel [] h = tt
filter-IsChoice releases v channel (r ∷ rs) (here, hs) =
    let rest = filter-IsChoice releases v channel rs hs in
    elim (Bool-cases (is_candidate v channel r)) [
      | inr other ↦ rw other rest
      | inl passes ↦
          let newer = is_greater-IsNewer r.version v (ground (arith, passes)) in
          rw passes ((here, newer, is_candidate-Suits v channel r passes), rest)
    ]

first-All :
    (P : Release → Type 0) (rs : List Release) (r : Release) → All P rs → first rs ≡ some r → P r
first-All P [] r h e = absurd (ground (arith, e))
first-All P (s ∷ ss) r h e = ground (arith, h, e)

-- A release that is chosen is one of the list with the version of its tag, which is above the installed
-- one by the first number that differs or by the identifiers, and has no identifiers unless the channel
-- is the one of the beta releases.
pub select_latest_release_ok :
    (releases : List (List ℕ × Bool)) (installed : List ℕ) (v : SemVer) (channel : Channel)
    (r : Release)
    → parse_sem_ver installed ≡ some v
    → select_latest_release releases installed channel ≡ ok (some r)
    → IsPublished releases r × IsNewer r.version v × Suits channel r
unfolding select_latest_release
select_latest_release_ok releases installed v channel r e h =
    let candidates = filter (is_candidate v channel) (release_views releases) in
    first-All (IsChoice releases v channel) (sort_releases candidates) r
      (sort_releases-All (IsChoice releases v channel) candidates (
        filter-IsChoice releases v channel (release_views releases)
          (release_views-IsPublished releases)))
      (ground (arith, e, h))

insert_release-first : (r : Release) (rs : List Release) → first (insert_release r rs) ≢ none
unfolding insert_release
insert_release-first r [] h = ground (arith, h)
insert_release-first r (s ∷ ss) h = ground (arith, h)

sort_releases-none : (rs : List Release) → first (sort_releases rs) ≡ none → rs ≡ []
unfolding sort_releases
sort_releases-none [] h = refl
sort_releases-none (r ∷ rs) h = absurd (insert_release-first r (sort_releases rs) h)

filter-none :
    (p : Release → Bool) (rs : List Release)
    → filter p rs ≡ []
    → All (λ (r : Release). p r ≡ false) rs
filter-none p [] h = tt
filter-none p (r ∷ rs) h = ground (arith, h, filter-none p rs)

-- Where no release is chosen, none of those with a version for a tag is newer and in the channel.
pub select_latest_release-none :
    (releases : List (List ℕ × Bool)) (installed : List ℕ) (v : SemVer) (channel : Channel)
    → parse_sem_ver installed ≡ some v
    → select_latest_release releases installed channel ≡ ok none
    → All (λ (r : Release). is_candidate v channel r ≡ false) (release_views releases)
unfolding select_latest_release
select_latest_release-none releases installed v channel e h =
    filter-none (is_candidate v channel) (release_views releases) (
      sort_releases-none (filter (is_candidate v channel) (release_views releases))
        (ground (arith, e, h)))

append-eq-nil : (xs ys : List String) → xs ++ ys ≡ [] → (xs ≡ []) × (ys ≡ [])
append-eq-nil [] ys h = (refl, h)
append-eq-nil (x ∷ xs) ys h = absurd (ground (arith, h))

migration_reasons-none :
    (end schema : ℕ) (o : Option (ℕ × ℕ × Bool))
    → migration_reasons end schema o ≡ []
    → o ≡ some (schema, end, true)
migration_reasons-none end schema none h = absurd (ground (arith, h))
migration_reasons-none end schema (some (a, b, true)) h = ground (arith, h)
migration_reasons-none end schema (some (a, b, false)) h = absurd (ground (arith, h))

schema_reasons-none :
    (m : Manifest) (o : Option ℕ)
    → schema_reasons m o ≡ []
    → (schema : ℕ) × (o ≡ some schema)
      × (1 ≤ schema)
      × (schema ≤ m.schema_version)
      × ((m.schema_version ≡ schema) ⊎ (m.migrations ≡ some (schema, m.schema_version, true)))
schema_reasons-none m none h = absurd (ground (arith, h))
schema_reasons-none m (some schema) h = (
  schema,
  refl,
  ground (arith, h),
  ground (arith, h),
  (elim (Bool-cases (m.schema_version == schema)) [
    | inl same ↦ inl (ground (arith, same))
    | inr other ↦
        inr (migration_reasons-none m.schema_version schema m.migrations (ground (arith, h, other)))
  ]),
)

-- A release without a reason against it accepts the installed version, and it has the schema that is
-- installed, or a newer one with a migration just from the one to the other that asks for a snapshot.
pub evaluate_release_compatibility_ok :
    (m : Manifest) (i : Installed)
    → evaluate_release_compatibility m i ≡ []
    → (is_less (compare_sem_ver i.version m.min_gateway_version) ≡ false)
      × (schema : ℕ) × (i.schema_version ≡ some schema)
      × (1 ≤ schema)
      × (schema ≤ m.schema_version)
      × ((m.schema_version ≡ schema) ⊎ (m.migrations ≡ some (schema, m.schema_version, true)))
unfolding evaluate_release_compatibility
evaluate_release_compatibility_ok m i h =
    let versions : List String =
      if is_less (compare_sem_ver i.version m.min_gateway_version)
      then "Requires a newer Gateway." ∷ []
      else [] in
    let podman = podman_reasons m.min_podman_version i.podman_version in
    let schema = schema_reasons m i.schema_version in
    let outer = append-eq-nil (versions ++ podman) schema h in
    let inner = append-eq-nil versions podman outer.0 in
    let (schema', e, low, high, way) = schema_reasons-none m i.schema_version outer.1 in
    (ground (arith, inner.0), schema', e, low, high, way)
