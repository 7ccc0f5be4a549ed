-- ===== src/Releases/Trusted.antt =====
-- What stands behind a release that is offered for installation.
use mqtt_trust_gateway.Base.{
  ℕ, ◌≤◌, ◌≡◌, ◌∙◌, inl, inr, refl, ap, true, ◌&&◌, Option, none, some, List, [], ◌∷◌, ◌++◌, String,
  leb, codes, length, all, map, ok, require, Yields, Yields->>=, Yields-ok, Yields-intro,
  require_ok, Result-cases, ◌==◌, ◌===◌, Option-cases, Bool-cases, arith,
}
use mqtt_trust_gateway.Releases.{SemVer, parse_sem_ver, same_codes}
use mqtt_trust_gateway.Releases.Choice.{
  Channel, Manifest, Installed, channel_of, evaluate_release_compatibility,
}
use mqtt_trust_gateway.Releases.Selection.{is_empty-eq}
use mqtt_trust_gateway.Releases.Signing.{
  Parsed, Signing, AcceptedManifest, Controller, ghcr, lower, after_prefix, is_pinned_image,
  image_ok, is_base64, pinned_update_key, parse_field, podman_ok, range_ok, same_channel, or_error,
  check_manifest, verify_release_manifest, is_ready, apply_verified_manifest, verify_fresh,
}

-- A reference names an image of the gateway by its digest.
abbrev pub Pinned : (name : List ℕ) → Option (List ℕ) → Type 0
Pinned name reference =
    (r : List ℕ) × (reference ≡ some r)
    × (digest : List ℕ) × (map lower r ≡ (ghcr ++ name ++ codes "@sha256:") ++ digest)
    × (length digest ≡ 64)

-- A parsed manifest is that of the expected release.
pub record Describes (expected : List ℕ) (p : Parsed) : Type 0 where
  pub version : p.version ≡ some expected
  pub schema : (n : ℕ) × (p.schema_version ≡ some n) × (1 ≤ n) × (range_ok n p.migrations ≡ true)
  pub channel :
      (tag : SemVer) × (parse_sem_ver expected ≡ some tag)
      × (c : Channel) × (p.channel ≡ some c)
      × (same_channel c (channel_of tag) ≡ true)
  pub admin : Pinned (codes "admin") p.admin_image
  pub broker : Pinned (codes "broker") p.broker_image

-- Bytes that a key signed, and that parse.
pub record Signed (k : Signing) (pinned : Option (List ℕ)) (manifest signature : List ℕ)
    (p : Parsed) : Type 0 where
  pub key : List ℕ
  pub is_key : pinned ≡ some key
  pub size : length manifest ≤ 256_000
  pub signature_size : length (k.decode signature) ≡ 64
  pub verified : k.verify key manifest (k.decode signature) ≡ true
  pub parsed : k.parse manifest ≡ some p

-- A manifest that was downloaded, signed and found to be that of the release.
abbrev pub Vetted :
    Signing → Option (List ℕ) → Option (List ℕ × List ℕ) → List ℕ → Manifest → Type 0
Vetted k pinned assets expected m =
    (manifest : List ℕ) × (signature : List ℕ) × (assets ≡ some (manifest, signature))
    × (v : AcceptedManifest) × (v.manifest ≡ m)
    × Signed k pinned manifest signature v.parsed
    × Describes expected v.parsed

-- Nothing speaks against the host that a manifest meets.
abbrev pub Fits : Manifest → Installed → Controller → Type 0
Fits m i c = (evaluate_release_compatibility m i ≡ []) × (is_ready c ≡ true)

or_error_ok {ℓ} :
    {A : Type ℓ} (message : String) (o : Option A) (a : A) → or_error message o ≡ ok a → o ≡ some a
or_error_ok message none a h = absurd (cc h)
or_error_ok message (some b) a h = cc h

pub same_codes_ok : (xs ys : List ℕ) → same_codes xs ys ≡ true → xs ≡ ys
same_codes_ok [] [] h = refl
same_codes_ok [] (y ∷ ys) h = absurd (cc h)
same_codes_ok (x ∷ xs) [] h = absurd (cc h)
same_codes_ok (x ∷ xs) (y ∷ ys) h =
    let tails : xs ≡ ys = same_codes_ok xs ys (ground (arith, h)) in
    let heads : x ≡ y = ground (arith, h) in cc (heads, tails)

after_prefix_ok :
    (prefix text rest : List ℕ) → after_prefix prefix text ≡ some rest → text ≡ prefix ++ rest
unfolding after_prefix
after_prefix_ok [] text rest h = cc h
after_prefix_ok (p ∷ ps) [] rest h = absurd (cc h)
after_prefix_ok (p ∷ ps) (c ∷ cs) rest h =
    let tails : cs ≡ ps ++ rest = after_prefix_ok ps cs rest (ground (arith, h)) in
    let heads : c ≡ p = ground (arith, h) in cc (heads, tails)

is_pinned_image-Pinned : (name r : List ℕ) → is_pinned_image name r ≡ true → Pinned name (some r)
unfolding is_pinned_image
is_pinned_image-Pinned name r h =
    elim (Option-cases (after_prefix (ghcr ++ name ++ codes "@sha256:") (map lower r))) [
      | inl e ↦ absurd (ground (arith, e, h))
      | inr (digest, e) ↦
          (r, refl, digest, after_prefix_ok _ (map lower r) digest e, ground (arith, e, h))
    ]

image_ok-Pinned :
    (name : List ℕ) (reference : Option (List ℕ))
    → image_ok name reference ≡ true
    → Pinned name reference
image_ok-Pinned name none h = absurd (cc h)
image_ok-Pinned name (some r) h = is_pinned_image-Pinned name r h

module _ (expected : List ℕ) (p : Parsed) where
  -- The contents that the checks let pass, by the equations that they leave.
  Describes-intro :
      (tag : SemVer) (version : List ℕ) (c : Channel) (schema : ℕ)
      → parse_sem_ver expected ≡ some tag
      → p.version ≡ some version
      → same_codes version expected ≡ true
      → p.channel ≡ some c
      → same_channel c (channel_of tag) ≡ true
      → p.schema_version ≡ some schema
      → leb 1 schema ≡ true
      → image_ok (codes "admin") p.admin_image ≡ true
      → image_ok (codes "broker") p.broker_image ≡ true
      → range_ok schema p.migrations ≡ true
      → Describes expected p
  Describes-intro tag version c schema is_tag is_version named is_channel of_tag is_schema positive
        admin broker range =
      record {
        version = is_version ∙ ap some (same_codes_ok version expected named);
        schema = (schema, is_schema, ground arith, range);
        channel = (tag, is_tag, c, is_channel, of_tag);
        admin = image_ok-Pinned _ p.admin_image admin;
        broker = image_ok-Pinned _ p.broker_image broker;
      }

  abbrev Matches : AcceptedManifest → Type 0
  Matches v = (v.parsed ≡ p) × Describes expected p

  check_manifest-Matches : Yields Matches (check_manifest expected p)
  unfolding check_manifest
  check_manifest-Matches = Yields->>= Matches (or_error _ (parse_sem_ver expected)) _ λ tag is_tag.
      Yields->>= Matches (or_error _ p.version) _ λ version is_version.
        Yields->>= Matches (require (same_codes version expected) 500 _) _ λ _ named.
          Yields->>= Matches (or_error _ p.channel) _ λ channel is_channel.
            Yields->>= Matches (require (same_channel channel (channel_of tag)) 500 _) _ λ _ of_tag.
              Yields->>= Matches (or_error _ p.schema_version) _ λ schema is_schema.
                Yields->>= Matches (require (leb 1 schema) 500 _) _ λ _ positive.
                  Yields->>= Matches (require (image_ok (codes "admin") p.admin_image) 500 _) _
                    λ _ admin.
                      Yields->>= Matches (require (image_ok (codes "broker") p.broker_image) 500 _)
                        _
                        λ _ broker.
                          Yields->>= Matches (or_error _ (parse_field p.min_gateway_version)) _
                            λ least _.
                              Yields->>= Matches (require (podman_ok p.min_podman_version) 500 _) _
                                λ _ _.
                                  Yields->>= Matches (require (range_ok schema p.migrations) 500 _)
                                    _
                                    λ _ range.
                                      Yields->>= Matches
                                        (require
                                          ((length p.health_checks == 4)
                                            && all (λ b. b) p.health_checks)
                                          500 _)
                                        _
                                        λ _ _. (
                                          refl,
                                          Describes-intro tag version channel schema
                                              (or_error_ok _ (parse_sem_ver expected) tag is_tag)
                                              (or_error_ok _ p.version version is_version)
                                              (require_ok _ 500 _ _ named)
                                              (or_error_ok _ p.channel channel is_channel)
                                              (require_ok _ 500 _ _ of_tag)
                                              (or_error_ok _ p.schema_version schema is_schema)
                                              (require_ok _ 500 _ _ positive)
                                              (require_ok _ 500 _ _ admin)
                                              (require_ok _ 500 _ _ broker)
                                              (require_ok _ 500 _ _ range),
                                        )

module _ (k : Signing) (pinned : Option (List ℕ)) (manifest signature expected : List ℕ) where
  abbrev Proven : AcceptedManifest → Type 0
  Proven v = Signed k pinned manifest signature v.parsed × Describes expected v.parsed

  verify_release_manifest-Proven :
      Yields Proven (verify_release_manifest k pinned manifest signature expected)
  unfolding verify_release_manifest
  verify_release_manifest-Proven =
      Yields->>= Proven (require (leb (length manifest) 256_000) 500 _) _ λ _ small.
        Yields->>= Proven (require (length (k.decode signature) == 64) 500 _) _ λ _ whole.
          Yields->>= Proven (or_error _ pinned) _ λ key is_key.
            Yields->>= Proven (require (k.verify key manifest (k.decode signature)) 500 _) _
              λ _ verified. Yields->>= Proven (or_error _ (k.parse manifest)) _ λ p parsed.
                Yields-intro Proven (check_manifest expected p) λ v passed.
                  let (same, described) =
                    Yields-ok (Matches expected p) _ v (check_manifest-Matches expected p) passed in
                  let is_small : leb (length manifest) 256_000 ≡ true =
                    require_ok _ 500 _ _ small in
                  let is_whole : (length (k.decode signature) == 64) ≡ true =
                    require_ok _ 500 _ _ whole in
                  let signed : Signed k pinned manifest signature p = record {
                    key = key;
                    is_key = or_error_ok _ pinned key is_key;
                    size = ground arith;
                    signature_size = ground arith;
                    verified = require_ok _ 500 _ _ verified;
                    parsed = or_error_ok _ (k.parse manifest) p parsed;
                  } in
                  rw same (signed, described)

pub apply_verified_manifest-Fits :
    (m : Manifest) (i : Installed) (c : Controller)
    → (apply_verified_manifest m i c).installable ≡ true
    → Fits m i c
unfolding apply_verified_manifest
apply_verified_manifest-Fits m i c h =
    (is_empty-eq (evaluate_release_compatibility m i) (ground (arith, h)), ground (arith, h))

module _ (k : Signing) (pinned : Option (List ℕ)) (assets : Option (List ℕ × List ℕ))
    (expected : List ℕ) (i : Installed) (c : Controller) where
  pub verify_fresh-Vetted :
      (m : Manifest)
      → (verify_fresh k pinned assets expected i c).1 ≡ some m
      → Vetted k pinned assets expected m
  unfolding verify_fresh
  verify_fresh-Vetted m h = elim (Option-cases assets) [
    | inl none_got ↦ absurd (ground (arith, none_got, h))
    | inr ((manifest, signature), got) ↦
        elim (Result-cases (verify_release_manifest k pinned manifest signature expected)) [
          | inr (status, message, e) ↦ absurd (ground (arith, got, e, h))
          | inl (v, e) ↦
              let (signed, described) =
                Yields-ok (Proven k pinned manifest signature expected) _ v
                  (verify_release_manifest-Proven k pinned manifest signature expected) e in
              (manifest, signature, got, v, ground (arith, got, e, h), signed, described)
        ]
  ]

  pub verify_fresh-installable :
      (verify_fresh k pinned assets expected i c).0.installable ≡ true
      → (m : Manifest) × ((verify_fresh k pinned assets expected i c).1 ≡ some m) × Fits m i c
  unfolding verify_fresh
  verify_fresh-installable h = elim (Option-cases assets) [
    | inl none_got ↦ absurd (ground (arith, none_got, h))
    | inr ((manifest, signature), got) ↦
        elim (Result-cases (verify_release_manifest k pinned manifest signature expected)) [
          | inr (status, message, e) ↦ absurd (ground (arith, got, e, h))
          | inl (v, e) ↦
              let offered : (apply_verified_manifest v.manifest i c).installable ≡ true =
                ground (arith, got, e, h) in
              (
                v.manifest,
                ground (arith, got, e),
                apply_verified_manifest-Fits v.manifest i c offered,
              )
        ]
  ]

pub pinned_update_key-eq-some :
    (k : Signing) (encoded key : List ℕ)
    → pinned_update_key k encoded ≡ some key
    → (key ≡ encoded) × (k.create_key encoded ≡ some "ed25519")
unfolding pinned_update_key
pinned_update_key-eq-some k encoded key h = elim (Bool-cases (is_base64 encoded)) [
  | inr bad ↦ absurd (ground (arith, bad, h))
  | inl good ↦ elim (Option-cases (k.create_key encoded)) [
    | inl e ↦ absurd (ground (arith, good, e, h))
    | inr (type, e) ↦ elim (Bool-cases (type === "ed25519")) [
      | inr other ↦ absurd (ground (arith, good, e, other, h))
      | inl same ↦ (ground (arith, good, e, same, h), ground (arith, e, same))
    ]
  ]
]
