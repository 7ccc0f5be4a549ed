-- ===== src/Preferences.antt =====
-- The update preferences: admin-web/src/services/update-preferences.js. A value of a wrong type is
-- `wrong`, and a number that is not whole is one.
pub mod Ranges
mod Tests
use mqtt_trust_gateway.Base.{
  ℕ, String, Bool, true, false, ◌&&◌, ◌||◌, not, Option, none, some, List, [], ◌∷◌, leb, ◌==◌,
  ◌===◌, if◌then◌else◌, any, Result, ok, err,
}

pub data Value {ℓ} (A : Type ℓ) : Type ℓ where
  missing wrong : Value A
  given : A → Value A

-- the fields of the saved settings
pub record Settings : Type 0 where
  pub update_channel : Value String
  pub automatic_checks : Value Bool
  pub check_interval_hours : Value ℕ
  pub snapshot_retention : Value ℕ
  pub notifications : Value Bool

pub record Preferences : Type 0 where
  pub channel : String
  pub automatic_checks : Bool
  pub check_interval_hours : ℕ
  pub snapshot_retention : ℕ
  pub notifications : Bool
  pub automatic_installation : Bool

abbrev pub is_interval : ℕ → Bool
is_interval n = any (λ k. k == n) (1 ∷ 6 ∷ 12 ∷ 24 ∷ [])

abbrev pub is_retention : ℕ → Bool
is_retention n = leb 2 n && leb n 100

-- `x !== false`
abbrev pub unless_false : Value Bool → Bool
unless_false (given b) = b
unless_false missing = true
unless_false wrong = true

abbrev pub number_or : (ℕ → Bool) → ℕ → Value ℕ → ℕ
number_or p default (given n) = if p n then n else default
number_or p default missing = default
number_or p default wrong = default

abbrev pub channel_or_stable : Value String → String
channel_or_stable (given c) = if c === "beta" then "beta" else "stable"
channel_or_stable missing = "stable"
channel_or_stable wrong = "stable"

-- `updatePreferences`
unfoldable pub update_preferences : Settings → Preferences
update_preferences s = record {
  channel = channel_or_stable s.update_channel;
  automatic_checks = unless_false s.automatic_checks;
  check_interval_hours = number_or is_interval 6 s.check_interval_hours;
  snapshot_retention = number_or is_retention 5 s.snapshot_retention;
  notifications = unless_false s.notifications;
  automatic_installation = false;
}

abbrev pub valid_channel : Value String → Bool
valid_channel (given c) = (c === "stable") || (c === "beta")
valid_channel missing = false
valid_channel wrong = false

abbrev pub valid_flag : Value Bool → Bool
valid_flag wrong = false
valid_flag missing = true
valid_flag (given b) = true

abbrev pub valid_number : (ℕ → Bool) → Value ℕ → Bool
valid_number p wrong = false
valid_number p missing = true
valid_number p (given n) = p n

abbrev pub replaced {ℓ} : {A : Type ℓ} → Value A → Value A → Value A
replaced missing old = old
replaced wrong old = wrong
replaced (given a) old = given a

-- `applyUpdatePreferences`, with the settings that it leaves
unfoldable pub apply_update_preferences : Settings → Settings → Result Preferences × Settings
apply_update_preferences input s =
    if not (valid_channel input.update_channel)
    then (err 400 "Channel must be stable or beta", s)
    else if not (valid_flag input.automatic_checks && valid_flag input.notifications)
    then (err 400 "Invalid update preferences", s)
    else if not (valid_number is_interval input.check_interval_hours)
    then (err 400 "Invalid update check interval", s)
    else if not (valid_number is_retention input.snapshot_retention)
    then (err 400 "Snapshot retention must be between 2 and 100", s)
    else let saved : Settings = record {
      update_channel = input.update_channel;
      automatic_checks = replaced input.automatic_checks s.automatic_checks;
      check_interval_hours = replaced input.check_interval_hours s.check_interval_hours;
      snapshot_retention = replaced input.snapshot_retention s.snapshot_retention;
      notifications = replaced input.notifications s.notifications;
    } in
      (ok (update_preferences saved), saved)
