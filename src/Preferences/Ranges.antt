-- ===== src/Preferences/Ranges.antt =====
-- What the update preferences can be.
use mqtt_trust_gateway.Base.{ℕ, ◌≤◌, ◌≡◌, refl, true, false, ok, arith}
use mqtt_trust_gateway.Preferences.{
  Settings, Preferences, Value, given, missing, wrong, is_interval, number_or, is_retention,
  update_preferences, apply_update_preferences,
}

-- Whatever the settings hold, the preferences have an interval of 1, 6, 12 or 24 hours and keep from 2 to
-- 100 snapshots, and nothing is ever installed by itself.
pub update_preferences-ranges :
    (s : Settings)
    → (is_interval (update_preferences s).check_interval_hours ≡ true)
      × (2 ≤ (update_preferences s).snapshot_retention)
      × ((update_preferences s).snapshot_retention ≤ 100)
      × ((update_preferences s).automatic_installation ≡ false)
unfolding update_preferences
update_preferences-ranges s =
    (interval s.check_interval_hours, low s.snapshot_retention, high s.snapshot_retention, refl)
  where
    interval : (v : Value ℕ) → is_interval (number_or is_interval 6 v) ≡ true
    interval missing = refl
    interval wrong = refl
    interval (given n) = ground arith

    low : (v : Value ℕ) → 2 ≤ number_or is_retention 5 v
    low missing = omega arith
    low wrong = omega arith
    low (given n) = ground arith

    high : (v : Value ℕ) → number_or is_retention 5 v ≤ 100
    high missing = omega arith
    high wrong = omega arith
    high (given n) = ground arith

-- Preferences that are accepted are those of the settings that are left, and the number of hours and of
-- snapshots that the request gives are taken over as they are.
pub apply_update_preferences_ok :
    (input s : Settings) (p : Preferences) (hours snapshots : ℕ)
    → (apply_update_preferences input s).0 ≡ ok p
    → input.check_interval_hours ≡ given hours
    → input.snapshot_retention ≡ given snapshots
    → (p ≡ update_preferences (apply_update_preferences input s).1)
      × (p.check_interval_hours ≡ hours)
      × (p.snapshot_retention ≡ snapshots)
unfolding apply_update_preferences update_preferences
apply_update_preferences_ok input s p hours snapshots h e f = ground (arith, h, e, f)
