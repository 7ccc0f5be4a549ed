-- ===== src/Releases/Signing.antt =====
-- The signed manifest of a release: `pinnedUpdateKey`, `verifyReleaseManifest` and
-- `applyVerifiedManifest` of admin-web/src/services/system-updates.js. `Buffer`, `JSON.parse` and the
-- check of a signature are the fields of `Signing`; bytes are lists of numbers.
use mqtt_trust_gateway.Base.{
  ℕ, String, Bool, true, false, ◌&&◌, ◌||◌, not, Option, none, some, List, [], ◌∷◌, ◌++◌, leb, ◌+◌,
  ◌==◌, ◌===◌, if◌then◌else◌, codes, length, all, map, Result, ok, err, ◌>>=◌, ◌>>◌, require,
}
use mqtt_trust_gateway.Releases.{SemVer, parse_sem_ver, is_digit, is_empty, same_codes}
use mqtt_trust_gateway.Releases.Choice.{
  Channel, Manifest, Installed, channel_of, is_beta, evaluate_release_compatibility,
}

-- `migrations`: a bound that is no safe integer, or a negative one, is `none`.
pub record Migrations : Type 0 where
  pub start : Option ℕ
  pub end : Option ℕ
  pub requires_snapshot : Bool

-- A value that may be absent, or of another type than a text.
pub data Field : Type 0 where
  absent other : Field
  text : List ℕ → Field

-- What `JSON.parse` gives, as far as it is read: a text that is missing or of another type is `none`, a
-- test for `true` is its outcome.
pub record Parsed : Type 0 where
  pub version : Option (List ℕ)
  pub channel : Option Channel
  pub schema_version : Option ℕ
  pub admin_image : Option (List ℕ)
  pub broker_image : Option (List ℕ)
  pub min_gateway_version : Field
  pub min_podman_version : Field
  pub migrations : Option Migrations
  pub health_checks : List Bool

pub record Signing : Type 0 where
  -- the type of the key that is pinned, where one is read
  pub create_key : List ℕ → Option String
  pub decode : List ℕ → List ℕ
  pub verify : (key manifest signature : List ℕ) → Bool
  pub parse : List ℕ → Option Parsed

-- /[A-Za-z0-9+/]/
abbrev is_base64_char : ℕ → Bool
is_base64_char c =
    (leb b'A' c && leb c b'Z') || (leb b'a' c && leb c b'z') || is_digit c || c == b'+' || c == b'/'

abbrev is_padding : List ℕ → Bool
is_padding [] = true
is_padding (c ∷ []) = c == b'='
is_padding (c ∷ d ∷ []) = (c == b'=') && (d == b'=')
is_padding (c ∷ d ∷ e ∷ cs) = false

-- `[A-Za-z0-9+/]*={0,2}$`
abbrev base64_tail : List ℕ → Bool
base64_tail [] = true
base64_tail (c ∷ cs) =
    let rest = base64_tail cs in if is_base64_char c then rest else is_padding (c ∷ cs)

-- /^[A-Za-z0-9+/]+={0,2}$/
unfoldable pub is_base64 : List ℕ → Bool
is_base64 [] = false
is_base64 (c ∷ cs) = is_base64_char c && base64_tail cs

-- `pinnedUpdateKey`
unfoldable pub pinned_update_key : Signing → (encoded : List ℕ) → Option (List ℕ)
pinned_update_key k encoded =
    if not (is_base64 encoded) then none else elim (k.create_key encoded) [
      | none ↦ none
      | some type ↦ if type === "ed25519" then some encoded else none
    ]

abbrev pub ghcr : List ℕ
ghcr = codes "ghcr.io/marciobulla/mqtt-trust-"

abbrev pub lower : ℕ → ℕ
lower c = if leb b'A' c && leb c b'Z' then c + 32 else c

abbrev is_hex : ℕ → Bool
is_hex c = is_digit c || (leb b'a' c && leb c b'f')

unfoldable pub after_prefix : List ℕ → List ℕ → Option (List ℕ)
after_prefix [] cs = some cs
after_prefix (p ∷ ps) [] = none
after_prefix (p ∷ ps) (c ∷ cs) = let rest = after_prefix ps cs in if p == c then rest else none

-- /^ghcr.io/marciobulla/mqtt-trust-…@sha256:[a-f0-9]{64}$/i
unfoldable pub is_pinned_image : (name reference : List ℕ) → Bool
is_pinned_image name reference =
    elim (after_prefix (ghcr ++ name ++ codes "@sha256:") (map lower reference)) [
      | none ↦ false
      | some digest ↦ (length digest == 64) && all is_hex digest
    ]

abbrev pub image_ok : (name : List ℕ) → Option (List ℕ) → Bool
image_ok name none = false
image_ok name (some reference) = is_pinned_image name reference

abbrev pub parse_field : Field → Option SemVer
parse_field (text t) = parse_sem_ver t
parse_field _ = none

-- `undefined` asks for nothing.
abbrev pub podman_ok : Field → Bool
podman_ok absent = true
podman_ok f = elim (parse_field f) [ none ↦ false | some v ↦ true ]

abbrev pub range_ok : (schema : ℕ) → Option Migrations → Bool
range_ok schema none = true
range_ok schema (some m) = elim m.start [
  | none ↦ false
  | some start ↦ elim m.end [
    | none ↦ false
    | some end ↦ leb start end && (end == schema) && ((start == end) || m.requires_snapshot)
  ]
]

abbrev pub migration_of : Option Migrations → Option (ℕ × ℕ × Bool)
migration_of none = none
migration_of (some m) = elim m.start [
  | none ↦ none
  | some start ↦ elim m.end [ none ↦ none | some end ↦ some (start, end, m.requires_snapshot) ]
]

abbrev pub same_channel : Channel → Channel → Bool
same_channel a b = if is_beta a then is_beta b else not (is_beta b)

abbrev pub or_error {ℓ} : {A : Type ℓ} → String → Option A → Result A
or_error message none = err 500 message
or_error message (some a) = ok a

-- What is read of a manifest that passes.
pub record AcceptedManifest : Type 0 where
  pub parsed : Parsed
  pub tag : SemVer
  pub manifest : Manifest

-- The checks of the manifest's identity and contents, in their order.
unfoldable pub check_manifest : (expected : List ℕ) → Parsed → Result AcceptedManifest
check_manifest expected p = do
  tag ← or_error "Manifest identity does not match the published release." (parse_sem_ver expected)
  version ← or_error "Manifest identity does not match the published release." p.version
  require (same_codes version expected) 500
      "Manifest identity does not match the published release."
  channel ← or_error "Manifest identity does not match the published release." p.channel
  require (same_channel channel (channel_of tag)) 500
      "Manifest channel does not match the release tag."
  schema ← or_error "Manifest schema version is invalid." p.schema_version
  require (leb 1 schema) 500 "Manifest schema version is invalid."
  require (image_ok (codes "admin") p.admin_image) 500
      "Manifest admin image is not the official digest-pinned image."
  require (image_ok (codes "broker") p.broker_image) 500
      "Manifest broker image is not the official digest-pinned image."
  least ←
      or_error "Manifest gateway compatibility version is invalid."
        (parse_field p.min_gateway_version)
  require (podman_ok p.min_podman_version) 500 "Manifest Podman compatibility version is invalid."
  require (range_ok schema p.migrations) 500 "Manifest migration range is invalid."
  require ((length p.health_checks == 4) && all (λ b. b) p.health_checks) 500
      "Manifest does not require all Gateway functional health checks."
  ok record {
    parsed = p;
    tag = tag;
    manifest = record {
      schema_version = schema;
      min_gateway_version = least;
      min_podman_version = parse_field p.min_podman_version;
      migrations = migration_of p.migrations;
    };
  }

-- `verifyReleaseManifest`
unfoldable pub verify_release_manifest :
    Signing
    → (pinned : Option (List ℕ)) → (manifest signature expected : List ℕ) → Result AcceptedManifest
verify_release_manifest k pinned manifest signature expected = do
  require (leb (length manifest) 256_000) 500 "Release manifest size is invalid."
  require (length (k.decode signature) == 64) 500 "Release signature format is invalid."
  key ← or_error "Pinned Ed25519 release key is not configured." pinned
  require (k.verify key manifest (k.decode signature)) 500 "Release manifest signature is invalid."
  p ← or_error "Release manifest is not valid JSON." (k.parse manifest)
  check_manifest expected p

-- The updater, as `installedGatewayVersion` reports it.
pub record Controller : Type 0 where
  pub available : Bool
  pub busy : Bool
  pub maintenance : Bool

-- The part of a release's view that verification changes.
pub record Shown : Type 0 where
  pub manifest_verified : Bool
  pub installable : Bool

abbrev pub is_ready : Controller → Bool
is_ready c = c.available && not c.busy && not c.maintenance

-- `applyVerifiedManifest`
unfoldable pub apply_verified_manifest : Manifest → Installed → Controller → Shown
apply_verified_manifest m i c = record {
  manifest_verified = true;
  installable = is_empty (evaluate_release_compatibility m i) && is_ready c;
}

-- The verification of a candidate that is not in the cache, with what was downloaded; a download that
-- fails is `none`.
unfoldable pub verify_fresh :
    Signing
    → (pinned : Option (List ℕ)) → (assets : Option (List ℕ × List ℕ)) → (expected : List ℕ)
    → Installed
    → Controller
    → Shown × Option Manifest
verify_fresh k pinned none expected i c =
    (record { manifest_verified = false; installable = false }, none)
verify_fresh k pinned (some (manifest, signature)) expected i c =
    elim (verify_release_manifest k pinned manifest signature expected) [
      | err status message ↦ (record { manifest_verified = false; installable = false }, none)
      | ok v ↦ (apply_verified_manifest v.manifest i c, some v.manifest)
    ]
