-- ===== src/Reveal/Tests.antt =====
-- The theorem on a reveal at one user who gives a password and a code.
use mqtt_trust_gateway.Base.{
  String, ◌≡◌, refl, none, some, [], ◌===◌, if◌then◌else◌, dec_text, insert, keep,
}
use mqtt_trust_gateway.Db.{User}
use mqtt_trust_gateway.Grants.{prune, allows, issue, revoke}
use mqtt_trust_gateway.Guard.{Visitor}
use mqtt_trust_gateway.Reauth.{Checks, same, password, verify_totp, verify_reauthentication}
use mqtt_trust_gateway.Reveal.{Reading, State, revealed, open_scope, grant_authentication, reveal}

abbrev plain : String → String
plain s = s

abbrev checks : Checks
checks = record {
  validate = λ sealed code now. if code === "123456" then some same else none;
  argon2 = λ hash given. given === "secret";
  passkey = λ challenge c response. none;
  decode = λ s. s;
}

abbrev ana : User
ana = record {
  id = "ana";
  username = "ana";
  password_hash = some "H";
  credentials = [];
  legacy_credential = none;
  totp = some (record { encrypted = "E"; last_step = none });
  pending_totp = none;
  sensitive_preferences = none;
  created_at = 0;
}

abbrev reading : Reading
reading = record {
  now = 60_000;
  verified_token = "t1";
  scope_token = "t2";
  reveal_seconds = 60;
  session_expires_at = 900_000;
  challenge_key = "K";
}

abbrev visitor : Visitor
visitor = record { session_key = "s1"; reveal_token = λ scope. none }

abbrev before : State
before = record { user = ana; challenges = []; grants = [] }

mqtt_revealed :
    (reveal plain reading visitor checks (password "secret" "123456") "mqtt" before).0
    ≡ revealed "t2" 120_000
unfolding reveal open_scope grant_authentication allows issue revoke prune keep insert
    verify_reauthentication verify_totp dec_text
mqtt_revealed = refl
