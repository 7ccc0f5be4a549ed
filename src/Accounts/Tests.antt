-- ===== src/Accounts/Tests.antt =====
-- The theorems on accounts at one server, with packages that accept one answer.
use mqtt_trust_gateway.Base.{
  String, true, ◌≡◌, refl, none, some, List, [], ◌∷◌, ◌===◌, if◌then◌else◌, lookup, insert, keep,
  Distinct, ◌⊎◌, dec_text, arith,
}
use mqtt_trust_gateway.Db.{User, Credential, empty}
use mqtt_trust_gateway.Reauth.{same, user_credentials}
use mqtt_trust_gateway.Accounts.{Server, Packages, Visit, signed_in}
use mqtt_trust_gateway.Sessions.{create_session}
use mqtt_trust_gateway.Accounts.SignIn.{login_password}
use mqtt_trust_gateway.Accounts.Opening.{session_of}
use mqtt_trust_gateway.Accounts.Grounds.{Grounds}
use mqtt_trust_gateway.Accounts.Fresh.{handle-Grounds}
use mqtt_trust_gateway.Accounts.Requests.{
  Request, handle, run, set_up, sign_in, add_passkey, sign_out,
}
use mqtt_trust_gateway.Accounts.Machine.{Step, SafeAccounts, names}
use mqtt_trust_gateway.Accounts.Views.{view, views}
use mqtt_trust_gateway.Accounts.Transitions.{Hashes}
use mqtt_trust_gateway.Accounts.Steps.{handle-Step}
use mqtt_trust_gateway.Accounts.Invariant.{run-SafeAccounts, names-run}

abbrev packages : Packages
packages = record {
  checks = record {
    validate = λ sealed code now. if code === "123456" then some same else none;
    argon2 = λ hash given. given === "correct horse";
    passkey = λ challenge c response. if response === challenge then some 5 else none;
    decode = λ s. s;
  };
  argon2_hash = λ given. "H";
  sha256 = λ s. s;
  register = λ challenge response. if response === challenge then some ("PK", 0) else none;
  sealed = λ s. s;
}

packages-Hashes : Hashes packages
unfolding dec_text
packages-Hashes given = refl

abbrev visit : Visit
visit = record {
  now = 1000;
  session_hours = 12;
  audit_days = 30;
  ip = "10.0.0.1";
  is_secure = true;
  session_key = "k1";
  new_key = "k2";
  new_id = "id2";
  drawn = "D";
}

abbrev credential : String → Credential
credential id = record { id = id; public_key = "PK"; counter = 4; name = "Key"; created_at = 0 }

abbrev ana : User
ana = record {
  id = "ana";
  username = "ana";
  password_hash = some "H";
  credentials = credential "passkey-number-one" ∷ [];
  legacy_credential = none;
  totp = none;
  pending_totp = none;
  sensitive_preferences = none;
  created_at = 0;
}

abbrev server : Server
server = record {
  db = record empty {
    users = ana ∷ [];
    sessions = ("k1", record { user_id = "ana"; expires_at = 9000 }) ∷ [];
    challenges = ("add:ana:k1", record { challenge = "C"; expires_at = 9000 }) ∷ [];
  };
  audit_log = [];
  grants = [];
  bootstrap_token = none;
}

abbrev history : List (Visit × Request)
history =
    (visit, add_passkey "passkey-number-two" "C" "Second")
    ∷ (visit, sign_out)
    ∷ (visit, sign_in "ana" "correct horse" "")
    ∷ (visit, set_up "T" "eve" "a long password")
    ∷ []

server-SafeAccounts : SafeAccounts (views server.db.users)
unfolding view user_credentials dec_text
server-SafeAccounts = record { entered = (refl, tt); unique = λ id. ground arith }

handle-Step_example :
    Step (views server.db.users) (
      views (handle packages visit (add_passkey "passkey-number-two" "C" "Second") server).db.users)
handle-Step_example =
    handle-Step packages visit (add_passkey "passkey-number-two" "C" "Second") server
      packages-Hashes

run-SafeAccounts_example : SafeAccounts (views (run packages history server).db.users)
run-SafeAccounts_example =
    run-SafeAccounts packages history server packages-Hashes server-SafeAccounts

names-run_example :
    names (views (run packages history server).db.users) ≡ names (views server.db.users)
names-run_example = names-run packages history server packages-Hashes refl

abbrev signed : Server
signed = handle packages visit (sign_in "ana" "correct horse" "") server

sessions-Distinct : Distinct server.db.sessions
unfolding lookup
sessions-Distinct = (refl, tt)

signed-found : lookup "k2" signed.db.sessions ≡ some (session_of visit "ana")
unfolding handle login_password signed_in create_session lookup insert keep dec_text
signed-found = refl

handle-Grounds_example :
    (lookup "k2" server.db.sessions ≡ some (session_of visit "ana"))
    ⊎ ((id : String) × (("k2" === "k2") ≡ true)
        × (session_of visit "ana" ≡ session_of visit id)
        × Grounds packages visit (sign_in "ana" "correct horse" "") server id)
handle-Grounds_example =
    handle-Grounds packages visit (sign_in "ana" "correct horse" "") server "k2"
      (session_of visit "ana") sessions-Distinct signed-found
