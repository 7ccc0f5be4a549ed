-- ===== src/Reauth/Tests.antt =====
-- The theorems on fresh authentication at one account, with checks that accept one answer.
use mqtt_trust_gateway.Base.{
  ℕ, ◌≤◌, ◌<◌, String, true, false, ◌≡◌, refl, none, some, List, [], ◌∷◌, ◌===◌, if◌then◌else◌,
  lookup, dec_text,
}
use mqtt_trust_gateway.Db.{User, Totp, Challenge, Credential}
use mqtt_trust_gateway.Reauth.{
  Checks, same, password, passkey, verify_totp, find_user_credential, passkey_answer, Delta,
  step_of, password_ok, user_credentials, credential_id_candidates, looks_like_credential_id,
  verify_reauthentication,
}
use mqtt_trust_gateway.Reauth.Proofs.{
  accepted, Rising, accepted-Rising, password_passed-totp, passkey_passed, passkey_once,
}

abbrev checks : Checks
checks = record {
  validate = λ sealed code now. if code === "123456" then some same else none;
  argon2 = λ hash given. given === "secret";
  passkey = λ challenge c response. if response === challenge then some 5 else none;
  decode = λ s. s;
}

abbrev codes_record : Totp
codes_record = record { encrypted = "E"; last_step = some 3 }

abbrev key_id : String
key_id = "abcdefghijklmnop"

abbrev credential : Credential
credential = record { id = key_id; public_key = "PK"; counter = 4; name = "Key"; created_at = 0 }

abbrev account : User
account = record {
  id = "ana";
  username = "ana";
  password_hash = some "H";
  credentials = credential ∷ [];
  legacy_credential = none;
  totp = some codes_record;
  pending_totp = none;
  sensitive_preferences = none;
  created_at = 0;
}

abbrev waiting : Challenge
waiting = record { challenge = "C"; expires_at = 200_000 }

abbrev challenges : List (String × Challenge)
challenges = ("K", waiting) ∷ []

abbrev tries : List (ℕ × String)
tries = (150_000, "123456") ∷ (155_000, "123456") ∷ (180_000, "123456") ∷ []

accepted-Rising_example : Rising 4 (accepted checks tries codes_record)
accepted-Rising_example = accepted-Rising checks tries codes_record

password_passes :
    (verify_reauthentication checks 150_000 true "K"
      (password "secret" "123456")
      account
      challenges).passed
    ≡ true
unfolding verify_reauthentication verify_totp dec_text
password_passes = refl

password_passed-totp_example :
    (password_ok checks account "secret" ≡ true)
    × (delta : Delta) × (checks.validate "E" "123456" 150_000 ≡ some delta)
    × (4 ≤ step_of 150_000 delta)
    × ((verify_reauthentication checks 150_000 true "K"
          (password "secret" "123456")
          account
          challenges).user.totp
        ≡ some (record codes_record { last_step = some (step_of 150_000 delta) }))
password_passed-totp_example =
    password_passed-totp checks 150_000 true "K" account challenges "secret" "123456" codes_record
      password_passes refl

passkey_passes :
    (verify_reauthentication checks 150_000 true "K" (passkey key_id "C") account challenges).passed
    ≡ true
unfolding verify_reauthentication passkey_answer find_user_credential user_credentials
    credential_id_candidates looks_like_credential_id lookup dec_text
passkey_passes = refl

passkey_passed_example :
    (challenge : Challenge) × (c : Credential) × (counter : ℕ) × (lookup "K" challenges
      ≡ some challenge)
    × (150_000 < challenge.expires_at)
    × (find_user_credential checks.decode account key_id ≡ some c)
    × (checks.passkey challenge.challenge c "C" ≡ some counter)
passkey_passed_example =
    passkey_passed checks 150_000 true "K" account challenges key_id "C" passkey_passes

passkey_once_example :
    (lookup "K"
        (verify_reauthentication checks 150_000 true "K"
          (passkey key_id "C")
          account
          challenges).challenges
      ≡ none)
    × ((verify_reauthentication checks 160_000 true "K"
          (passkey key_id "C")
          account
          (verify_reauthentication checks 150_000 true "K"
            (passkey key_id "C")
            account
            challenges).challenges).passed
        ≡ false)
passkey_once_example =
    passkey_once checks 150_000 true "K" account challenges 160_000 account key_id "C" key_id "C"
