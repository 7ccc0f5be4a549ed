-- ===== src/Releases/Tests.antt =====
-- The theorems on releases at two tags.
use mqtt_trust_gateway.Base.{
  ℕ, ◌≤◌, ◌≡◌, ◌⊎◌, refl, Bool, true, false, none, some, List, [], ◌∷◌, ◌++◌, ◌==◌, ◌===◌,
  if◌then◌else◌, ◌&&◌, codes, length, ok, dec_text,
}
use mqtt_trust_gateway.Releases.{
  SemVer, span, number, prerelease_of, parse_sem_ver, compare_parts, compare_sem_ver, is_less,
}
use mqtt_trust_gateway.Releases.Choice.{
  Release, stable, release_views, insert_release, sort_releases, select_latest_release, Manifest,
  Installed, evaluate_release_compatibility,
}
use mqtt_trust_gateway.Releases.Signing.{
  absent, text, Parsed, Signing, Controller, pinned_update_key, verify_fresh, is_base64,
  verify_release_manifest, check_manifest, is_pinned_image, after_prefix, apply_verified_manifest,
}
use mqtt_trust_gateway.Releases.Cache.{
  Reported, Call, get_entry, set_entry, shown_offline, verify_candidate, cache_after,
}
use mqtt_trust_gateway.Releases.Offers.{verify_candidate_ok, IsOffered}
use mqtt_trust_gateway.Releases.Selection.{
  IsPublished, IsNewer, Suits, select_latest_release_ok, evaluate_release_compatibility_ok,
}

abbrev version : ℕ → SemVer
version n = record { major = 1; minor = n; patch = 0; prerelease = [] }

abbrev published : List (List ℕ × Bool)
published = (codes "v1.1.0", true) ∷ (codes "v1.2.0", true) ∷ (codes "v1.3.0-rc.1", true) ∷ []

abbrev latest : Release
latest = record { tag = codes "v1.2.0"; version = version 2; signed = true }

installed_parsed : parse_sem_ver (codes "1.0.0") ≡ some (version 0)
unfolding parse_sem_ver number span prerelease_of
installed_parsed = refl

newest_parsed : parse_sem_ver (codes "1.9.0") ≡ some (version 9)
unfolding parse_sem_ver number span prerelease_of
newest_parsed = refl

latest_chosen : select_latest_release published (codes "1.0.0") stable ≡ ok (some latest)
unfolding select_latest_release release_views sort_releases insert_release parse_sem_ver number span
    prerelease_of compare_sem_ver compare_parts
latest_chosen = refl

none_chosen : select_latest_release published (codes "1.9.0") stable ≡ ok none
unfolding select_latest_release release_views sort_releases insert_release parse_sem_ver number span
    prerelease_of compare_sem_ver compare_parts
none_chosen = refl

select_latest_release_ok_example :
    IsPublished published latest × IsNewer (version 2) (version 0) × Suits stable latest
select_latest_release_ok_example =
    select_latest_release_ok published (codes "1.0.0") (version 0) stable latest installed_parsed
      latest_chosen

abbrev manifest : Manifest
manifest = record {
  schema_version = 2;
  min_gateway_version = version 0;
  min_podman_version = none;
  migrations = some (1, 2, true);
}

abbrev host : Installed
host = record { version = version 1; podman_version = none; schema_version = some 1 }

no_reasons : evaluate_release_compatibility manifest host ≡ []
unfolding evaluate_release_compatibility compare_sem_ver compare_parts
no_reasons = refl

evaluate_release_compatibility_ok_example :
    (is_less (compare_sem_ver host.version manifest.min_gateway_version) ≡ false)
    × (schema : ℕ) × (host.schema_version ≡ some schema)
    × (1 ≤ schema)
    × (schema ≤ 2)
    × ((manifest.schema_version ≡ schema) ⊎ (manifest.migrations ≡ some (schema, 2, true)))
evaluate_release_compatibility_ok_example =
    evaluate_release_compatibility_ok manifest host no_reasons

abbrev digest : List ℕ
digest = codes "0123456789abcdef0123456789abcdef0123456789abcdef0123456789abcdef"

abbrev image : List ℕ → List ℕ
image name = codes "ghcr.io/MarcioBulla/mqtt-trust-" ++ name ++ codes "@sha256:" ++ digest

abbrev contents : Parsed
contents = record {
  version = some (codes "1.3.0");
  channel = some stable;
  schema_version = some 2;
  admin_image = some (image (codes "admin"));
  broker_image = some (image (codes "broker"));
  min_gateway_version = text (codes "1.0.0");
  min_podman_version = absent;
  migrations = some (record { start = some 1; end = some 2; requires_snapshot = true });
  health_checks = true ∷ true ∷ true ∷ true ∷ [];
}

abbrev signing : Signing
signing = record {
  create_key = λ _. some "ed25519";
  decode = λ s. s;
  verify = λ key m s. (length m == 2) && (length s == 64);
  parse = λ m. some contents;
}

abbrev ready : Controller
ready = record { available = true; busy = false; maintenance = false }

offered :
    (verify_fresh signing
      (pinned_update_key signing (codes "MCow="))
      (some (codes "{}", digest))
      (codes "1.3.0")
      host
      ready).0.installable
    ≡ true
unfolding verify_fresh pinned_update_key is_base64 verify_release_manifest check_manifest
    is_pinned_image after_prefix apply_verified_manifest evaluate_release_compatibility
    parse_sem_ver number span prerelease_of compare_sem_ver compare_parts dec_text
offered = refl

other_version :
    (verify_fresh signing
      (pinned_update_key signing (codes "MCow="))
      (some (codes "{}", digest))
      (codes "1.4.0")
      host
      ready).1
    ≡ none
unfolding verify_fresh pinned_update_key is_base64 verify_release_manifest check_manifest
    is_pinned_image after_prefix apply_verified_manifest evaluate_release_compatibility
    parse_sem_ver number span prerelease_of compare_sem_ver compare_parts dec_text
other_version = refl

-- A gateway whose updater is ready with one of its reports.
abbrev reported : Reported
reported = record {
  installed = λ text. host;
  controller = λ text. if text === "1.1.0" then ready else record ready { busy = true };
}

abbrev asked : Call
asked = record {
  now = 1_000;
  allow_network = true;
  signed_manifest_published = true;
  version = codes "1.3.0";
  assets = some (codes "{}", digest);
  installed_key = "1.1.0";
}

-- The same release a minute later, without the network.
abbrev asked_again : Call
asked_again = record asked { now = 61_000; allow_network = false; assets = none }

abbrev is_offered : List Call → Call → Bool
is_offered past x =
    let pinned = pinned_update_key signing (codes "MCow=") in
    (verify_candidate signing reported pinned x
      (cache_after signing reported pinned past [])).0.installable

unknown_offline : is_offered [] asked_again ≡ false
unfolding verify_candidate cache_after get_entry shown_offline
unknown_offline = refl

kept_offered : is_offered (asked ∷ []) asked_again ≡ true
unfolding verify_fresh pinned_update_key is_base64 verify_release_manifest check_manifest
    is_pinned_image after_prefix apply_verified_manifest evaluate_release_compatibility
    parse_sem_ver number span prerelease_of compare_sem_ver compare_parts dec_text verify_candidate
    cache_after get_entry set_entry shown_offline
kept_offered = refl

-- The one that is kept belongs to another version.
other_offline : is_offered (asked ∷ []) (record asked_again { version = codes "1.4.0" }) ≡ false
unfolding verify_fresh pinned_update_key is_base64 verify_release_manifest check_manifest
    is_pinned_image after_prefix apply_verified_manifest evaluate_release_compatibility
    parse_sem_ver number span prerelease_of compare_sem_ver compare_parts dec_text verify_candidate
    cache_after get_entry set_entry shown_offline
other_offline = refl

-- The one that is kept does not serve another report.
other_report : is_offered (asked ∷ []) (record asked_again { installed_key = "1.1.0 busy" }) ≡ false
unfolding verify_fresh pinned_update_key is_base64 verify_release_manifest check_manifest
    is_pinned_image after_prefix apply_verified_manifest evaluate_release_compatibility
    parse_sem_ver number span prerelease_of compare_sem_ver compare_parts dec_text verify_candidate
    cache_after get_entry set_entry shown_offline
other_report = refl

verify_candidate_ok_example :
    (pinned_update_key signing (codes "MCow=") ≡ some (codes "MCow="))
    × (signing.create_key (codes "MCow=") ≡ some "ed25519")
    × IsOffered signing reported
        (pinned_update_key signing (codes "MCow="))
        (asked_again ∷ asked ∷ [])
        (codes "1.3.0")
        "1.1.0"
verify_candidate_ok_example =
    verify_candidate_ok signing reported (codes "MCow=") (asked ∷ []) asked_again kept_offered
