-- ===== src/Releases/Cache.antt =====
-- The verified releases that are kept for ten minutes: `verifyCandidate` and the map `manifestCache` of
-- admin-web/src/services/system-updates.js.
use mqtt_trust_gateway.Base.{
  ℕ, String, Bool, false, ◌&&◌, not, Option, none, some, List, [], ◌∷◌, ltb, ◌+◌, ◌===◌,
  if◌then◌else◌,
}
use mqtt_trust_gateway.Releases.{same_codes}
use mqtt_trust_gateway.Releases.Choice.{Manifest, Installed}
use mqtt_trust_gateway.Releases.Signing.{
  Signing, Controller, Shown, apply_verified_manifest, verify_fresh,
}

-- What `installedGatewayVersion` reports is held as the text that `JSON.stringify` gives of it; these
-- are the fields that such a text has.
pub record Reported : Type 0 where
  pub installed : String → Installed
  pub controller : String → Controller

pub record Entry : Type 0 where
  pub version : List ℕ
  pub value : Shown
  pub verified_manifest : Option Manifest
  pub installed_key : String
  pub expires_at : ℕ

-- A call of `verifyCandidate` for a release, with what the network would give.
pub record Call : Type 0 where
  pub now : ℕ
  pub allow_network : Bool
  pub signed_manifest_published : Bool
  pub version : List ℕ
  pub assets : Option (List ℕ × List ℕ)
  pub installed_key : String

-- The view of a release before its verification.
abbrev pub unverified : Shown
unverified = record { manifest_verified = false; installable = false }

-- `cacheTtlMs`
abbrev pub cache_ttl_ms : ℕ
cache_ttl_ms = 600_000

unfoldable pub get_entry : List ℕ → List Entry → Option Entry
get_entry version [] = none
get_entry version (e ∷ es) =
    let rest = get_entry version es in if same_codes e.version version then some e else rest

unfoldable pub set_entry : Entry → List Entry → List Entry
set_entry e [] = e ∷ []
set_entry e (f ∷ fs) =
    let rest = set_entry e fs in if same_codes f.version e.version then e ∷ fs else f ∷ rest

-- What is shown without asking the network; `none` where it is asked.
unfoldable pub shown_offline : Reported → Call → Option Entry → Option Shown
shown_offline h x none = if x.allow_network then none else some unverified
shown_offline h x (some e) =
    if ltb x.now e.expires_at && (e.installed_key === x.installed_key)
    then some e.value
    else if x.allow_network
    then none
    else elim e.verified_manifest [
      | none ↦ some unverified
      | some m ↦
          some
            (apply_verified_manifest m (h.installed x.installed_key) (h.controller x.installed_key))
    ]

-- `verifyCandidate`
unfoldable pub verify_candidate :
    Signing → Reported → (pinned : Option (List ℕ)) → Call → List Entry → Shown × List Entry
verify_candidate k h pinned x cache =
    if not x.signed_manifest_published
    then (unverified, cache)
    else elim (shown_offline h x (get_entry x.version cache)) [
      | some shown ↦ (shown, cache)
      | none ↦
          let fresh =
            verify_fresh k pinned x.assets x.version (h.installed x.installed_key)
              (h.controller x.installed_key) in
          (
            fresh.0,
            set_entry
                (record {
                  version = x.version;
                  value = fresh.0;
                  verified_manifest = fresh.1;
                  installed_key = x.installed_key;
                  expires_at = x.now + cache_ttl_ms;
                })
                cache,
          )
    ]

-- The map after calls, oldest first.
unfoldable pub cache_after :
    Signing → Reported → (pinned : Option (List ℕ)) → List Call → List Entry → List Entry
cache_after k h pinned [] cache = cache
cache_after k h pinned (x ∷ xs) cache =
    cache_after k h pinned xs (verify_candidate k h pinned x cache).1
