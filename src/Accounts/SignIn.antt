-- ===== src/Accounts/SignIn.antt =====
-- How a session is come by: the first account, a password, or a passkey.
use Prim.Native.String.{◌++◌ as ◌<>◌}
use mqtt_trust_gateway.Base.{
  ℕ, String, Bool, false, ◌&&◌, not, none, some, [], ◌∷◌, ◌++◌, ◌===◌, if◌then◌else◌, find?, modify,
  take_text, trim, Result, ok, err,
}
use mqtt_trust_gateway.Db.{Db, User, Credential}
use mqtt_trust_gateway.Reauth.{
  is_empty, user_credentials, find_user_credential, set_counter, totp_step,
}
use mqtt_trust_gateway.Accounts.{
  Server, Packages, Visit, password, matches_bootstrap_token, is_username, passkey_context, log,
  use_challenge, store_challenge, signed_in,
}

abbrev pub new_user : Visit → (username hash : String) → User
new_user x username hash = record {
  id = x.new_id;
  username = username;
  password_hash = some hash;
  credentials = [];
  legacy_credential = none;
  totp = none;
  pending_totp = none;
  sensitive_preferences = none;
  created_at = x.now;
}

-- POST /api/bootstrap
unfoldable pub bootstrap :
    Packages → Visit → (setup_token username given : String) → Server → Result User × Server
bootstrap k x setup_token username given s =
    if not (is_empty s.db.users)
    then (err 409 "Administrator already exists", s)
    else elim s.bootstrap_token [
      | none ↦ (err 500 "ENOENT", s)
      | some expected ↦
          if not (matches_bootstrap_token setup_token expected)
          then (err 403 "Invalid bootstrap token", s)
          else if not (is_username (trim username))
          then (err 400 "Invalid username", s)
          else elim (password given) [
            | err status message ↦ (err status message, s)
            | ok chosen ↦
                let user = new_user x (trim username) (k.argon2_hash chosen) in
                let db : Db = record (s.db) { users = s.db.users ++ user ∷ [] } in
                let made = signed_in x user (record s { db = db; bootstrap_token = none }) in
                (ok user, log x user.username "admin.bootstrap" "" made)
          ]
    ]

abbrev pub by_name : String → User → Bool
by_name username u = u.username === username

-- `argon2.verify(user.passwordHash, given.slice(0, 256))`
abbrev pub password_matches : Packages → String → User → Bool
password_matches k given u = elim u.password_hash [
  | none ↦ false
  | some hash ↦ not (hash === "") && k.checks.argon2 hash (take_text 256 given)
]

-- POST /api/login/password
unfoldable pub login_password :
    Packages → Visit → (username given code : String) → Server → Result User × Server
login_password k x username given code s =
    let failed = log x (take_text 64 username) "login.failed" x.ip s in
    elim (find? (by_name username) s.db.users) [
      | none ↦ (err 401 "Invalid username or password", failed)
      | some u ↦
          if not (password_matches k given u)
          then (err 401 "Invalid username or password", failed)
          else elim (totp_step k.checks x.now code u) [
            | none ↦ (
              err 401 "A valid unused authenticator code is required",
              log x u.username "login.totp.failed" x.ip s,
            )
            | some u' ↦
                let db : Db = record (s.db) {
                  users = modify (by_name username) (λ v. u') s.db.users;
                } in
                (
                  ok u',
                  log x u'.username "login.password" "" (signed_in x u' (record s { db = db })),
                )
          ]
    ]

-- POST /api/login/options
unfoldable pub login_options : Visit → (username : String) → Server → Result String × Server
login_options x username s =
    passkey_context x
      (λ s. elim (find? (by_name username) s.db.users) [
        | none ↦ (err 401 "No matching passkey", s)
        | some u ↦ if is_empty (user_credentials u) then (err 401 "No matching passkey", s) else (
          ok x.drawn,
          record s { db = store_challenge x.now ("login:" <> u.id) x.drawn s.db },
        )
      ])
      s

-- The credential whose answer to the challenge is right, with its new counter.
unfoldable pub login_answer :
    Packages → User → (challenge credential_id response : String) → Result (Credential × ℕ)
login_answer k u challenge id response = elim (find_user_credential k.checks.decode u id) [
  | none ↦ err 401 "Invalid credential"
  | some c ↦ elim (k.checks.passkey challenge c response) [
    | none ↦ err 401 "Passkey verification failed"
    | some n ↦ ok (c, n)
  ]
]

-- POST /api/login/verify
unfoldable pub login_verify :
    Packages → Visit → (username credential_id response : String) → Server → Result User × Server
login_verify k x username id response s =
    passkey_context x
      (λ s. elim (find? (by_name username) s.db.users) [
        | none ↦ (err 401 "Invalid login", s)
        | some u ↦
            let used = use_challenge x.now ("login:" <> u.id) s.db in
            let s' : Server = record s { db = used.1 } in
            elim used.0 [
              | err status message ↦ (err status message, s')
              | ok challenge ↦ elim (login_answer k u challenge id response) [
                | err status message ↦ (err status message, s')
                | ok (c, n) ↦
                    let u' : User = record u {
                      credentials = set_counter c.id n (user_credentials u);
                    } in
                    let db : Db = record (used.1) {
                      users = modify (by_name username) (λ v. u') used.1.users;
                    } in
                    (
                      ok u',
                      log x u'.username "login.passkey" "" (signed_in x u' (record s { db = db })),
                    )
              ]
            ]
      ])
      s
