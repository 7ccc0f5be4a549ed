-- ===== src/Preferences/Tests.antt =====
-- The theorems on the update preferences at one request.
use mqtt_trust_gateway.Base.{◌≡◌, refl, true, false, dec_text, ok}
use mqtt_trust_gateway.Preferences.{
  Settings, Preferences, missing, wrong, given, update_preferences, apply_update_preferences,
}

abbrev saved : Settings
saved = record {
  update_channel = missing;
  automatic_checks = missing;
  check_interval_hours = given 7;
  snapshot_retention = wrong;
  notifications = given false;
}

abbrev asked : Settings
asked = record {
  update_channel = given "beta";
  automatic_checks = missing;
  check_interval_hours = given 12;
  snapshot_retention = given 9;
  notifications = missing;
}

abbrev answered : Preferences
answered = record {
  channel = "beta";
  automatic_checks = true;
  check_interval_hours = 12;
  snapshot_retention = 9;
  notifications = false;
  automatic_installation = false;
}

accepted : (apply_update_preferences asked saved).0 ≡ ok answered
unfolding apply_update_preferences update_preferences dec_text
accepted = refl
