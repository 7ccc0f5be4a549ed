-- ===== src/Accounts/Grounds.antt =====
-- What a session stands on: the routes by which a user signs in.
use Prim.Native.String.{◌++◌ as ◌<>◌}
use mqtt_trust_gateway.Base.{
  ℕ, ◌≤◌, String, ◌≡◌, inl, inr, refl, sym, ap, true, some, find?, trim, lookup, Distinct,
  Bool-cases, Option-cases, Result-cases, ok, arith,
}
use mqtt_trust_gateway.Db.{Db, User, Session, Challenge, Credential}
use mqtt_trust_gateway.Reauth.{is_empty, user_credentials, totp_step, find_user_credential}
use mqtt_trust_gateway.Accounts.{
  Server, Packages, Visit, password, matches_bootstrap_token, is_username, use_challenge,
  store_challenge,
}
use mqtt_trust_gateway.Accounts.SignIn.{
  new_user, bootstrap, by_name, password_matches, login_password, login_options, login_answer,
  login_verify,
}
use mqtt_trust_gateway.Accounts.Requests.{
  Request, set_up, sign_in, ask_sign_in, sign_in_passkey, sign_out, new_password, ask_codes,
  confirm_codes, drop_codes, ask_proof, ask_passkey, add_passkey, drop_passkey,
}
use mqtt_trust_gateway.Accounts.Machine.{Account}
use mqtt_trust_gateway.Accounts.Views.{view, view-totp_step}
use mqtt_trust_gateway.Accounts.Opening.{IsFresh, Traced, Traced-signed_in, Traced-passkey_context}

-- No account yet, and the token of the file.
abbrev pub IsFirst : Visit → (token : String) → Server → String → Type 0
IsFirst x token s id =
    (is_empty s.db.users ≡ true)
    × (expected : String) × (s.bootstrap_token ≡ some expected)
    × (matches_bootstrap_token token expected ≡ true)
    × (id ≡ x.new_id)

-- The password of the user of that name, and a code if one is set up.
abbrev pub ByPassword : Packages → Visit → (username given code : String) → Server → String → Type 0
ByPassword k x username given code s id =
    (u u' : User) × (find? (by_name username) s.db.users ≡ some u)
    × (password_matches k given u ≡ true)
    × (totp_step k.checks x.now code u ≡ some u')
    × (u.id ≡ id)

-- A passkey of the user of that name, with the right answer to a challenge that waits and is not over.
abbrev pub ByPasskey :
    Packages → Visit → (username credential_id response : String) → Server → String → Type 0
ByPasskey k x username cid response s id =
    (u : User) × (c : Challenge) × (credential : Credential) × (counter : ℕ) × (find?
        (by_name username) s.db.users
      ≡ some u)
    × (lookup ("login:" <> u.id) s.db.challenges ≡ some c)
    × (x.now ≤ c.expires_at)
    × (find_user_credential k.checks.decode u cid ≡ some credential)
    × (k.checks.passkey c.challenge credential response ≡ some counter)
    × (u.id ≡ id)

-- What a request has to show, so that it opens a session for the user of the identifier.
abbrev pub Grounds : Packages → Visit → Request → Server → String → Type 0
Grounds k x (set_up token username given) s id = IsFirst x token s id
Grounds k x (sign_in username given code) s id = ByPassword k x username given code s id
Grounds k x (ask_sign_in username) s id = ⊥
Grounds k x (sign_in_passkey username cid response) s id = ByPasskey k x username cid response s id
Grounds k x sign_out s id = ⊥
Grounds k x (new_password given p) s id = IsFresh k x "change-password" p s id
Grounds k x (ask_codes p) s id = ⊥
Grounds k x (confirm_codes code) s id = ⊥
Grounds k x (drop_codes p) s id = IsFresh k x "disable-totp" p s id
Grounds k x (ask_proof action target) s id = ⊥
Grounds k x (ask_passkey p) s id = ⊥
Grounds k x (add_passkey cid response name) s id = ⊥
Grounds k x (drop_passkey cid p) s id = IsFresh k x ("remove-passkey:" <> cid) p s id

pub sessions-use_challenge :
    (now : ℕ) (key : String) (db : Db) → (use_challenge now key db).1.sessions ≡ db.sessions
unfolding use_challenge
sessions-use_challenge now key db = ground arith

pub sessions-store_challenge :
    (now : ℕ) (key drawn : String) (db : Db)
    → (store_challenge now key drawn db).sessions ≡ db.sessions
unfolding store_challenge
sessions-store_challenge now key drawn db = refl

use_challenge_ok :
    (now : ℕ) (key challenge : String) (db : Db)
    → (use_challenge now key db).0 ≡ ok challenge
    → (c : Challenge) × (lookup key db.challenges ≡ some c)
      × (now ≤ c.expires_at)
      × (c.challenge ≡ challenge)
unfolding use_challenge
use_challenge_ok now key challenge db h = elim (Option-cases (lookup key db.challenges)) [
  | inl e ↦ absurd (ground (arith, e, h))
  | inr (c, e) ↦ (c, e, ground (arith, e, h), ground (arith, e, h))
]

login_answer_ok :
    (k : Packages) (u : User) (challenge cid response : String) (a : Credential × ℕ)
    → login_answer k u challenge cid response ≡ ok a
    → (find_user_credential k.checks.decode u cid ≡ some a.0)
      × (k.checks.passkey challenge a.0 response ≡ some a.1)
unfolding login_answer
login_answer_ok k u challenge cid response a h =
    elim (Option-cases (find_user_credential k.checks.decode u cid)) [
      | inl e ↦ absurd (ground (arith, e, h))
      | inr (c, e) ↦ elim (Option-cases (k.checks.passkey challenge c response)) [
        | inl r ↦ absurd (ground (arith, e, r, h))
        | inr (n, r) ↦ let same : a ≡ (c, n) = ground (arith, e, r, h) in (rw same e, rw same r)
      ]
    ]

totp_step-id :
    (k : Packages) (now : ℕ) (code : String) (u u' : User)
    → totp_step k.checks now code u ≡ some u'
    → u'.id ≡ u.id
unfolding view
totp_step-id k now code u u' h =
    ap (λ (a : Account). a.id) (view-totp_step k.checks now code u u' h)

module _ (k : Packages) (x : Visit) (s : Server) (key : String) (v : Session)
    (d : Distinct s.db.sessions) (grounds : String → Type 0) where
  pub Traced-bootstrap :
      (token username given : String)
      → ((id : String) → IsFirst x token s id → grounds id)
      → Traced x grounds key v s (bootstrap k x token username given s).1
  unfolding bootstrap
  Traced-bootstrap token username given g = elim (Bool-cases (is_empty s.db.users)) [
    | inr e ↦ rw (bootstrap, e) inl
    | inl e ↦ elim (Option-cases s.bootstrap_token) [
      | inl missing ↦ rw (bootstrap, e, missing) inl
      | inr (expected, found) ↦ elim (Bool-cases (matches_bootstrap_token token expected)) [
        | inr b ↦ rw (bootstrap, e, found, b) inl
        | inl b ↦ elim (Bool-cases (is_username (trim username))) [
          | inr n ↦ rw (bootstrap, e, found, b, n) inl
          | inl n ↦ elim (Result-cases (password given)) [
            | inr (status, message, p) ↦ rw (bootstrap, e, found, b, n, p) inl
            | inl (chosen, p) ↦
                rw (bootstrap, e, found, b, n, p)
                  (Traced-signed_in x grounds key v s
                    (new_user x (trim username) (k.argon2_hash chosen)) _ d
                    (g x.new_id (e, expected, found, b, refl)) refl)
          ]
        ]
      ]
    ]
  ]

  pub Traced-login_password :
      (username given code : String)
      → ((id : String) → ByPassword k x username given code s id → grounds id)
      → Traced x grounds key v s (login_password k x username given code s).1
  unfolding login_password
  Traced-login_password username given code g =
      elim (Option-cases (find? (by_name username) s.db.users)) [
        | inl e ↦ rw (login_password, e) inl
        | inr (u, e) ↦ elim (Bool-cases (password_matches k given u)) [
          | inr b ↦ rw (login_password, e, b) inl
          | inl b ↦ elim (Option-cases (totp_step k.checks x.now code u)) [
            | inl t ↦ rw (login_password, e, b, t) inl
            | inr (u', t) ↦
                rw (login_password, e, b, t)
                  (Traced-signed_in x grounds key v s u' _ d
                    (g u'.id (u, u', e, b, t, sym (totp_step-id k x.now code u u' t))) refl)
          ]
        ]
      ]

  pub Traced-login_options :
      (username : String) → Traced x grounds key v s (login_options x username s).1
  unfolding login_options store_challenge
  Traced-login_options username =
      Traced-passkey_context x grounds key v s _ _
        (elim (Option-cases (find? (by_name username) s.db.users)) [
          | inl e ↦ rw e inl
          | inr (u, e) ↦ elim (Bool-cases (is_empty (user_credentials u))) [
            | inl b ↦ rw (e, b) inl
            | inr b ↦ rw (e, b) inl
          ]
        ])

  pub Traced-login_verify :
      (username cid response : String)
      → ((id : String) → ByPasskey k x username cid response s id → grounds id)
      → Traced x grounds key v s (login_verify k x username cid response s).1
  unfolding login_verify
  Traced-login_verify username cid response g =
      Traced-passkey_context x grounds key v s _ _
        (elim (Option-cases (find? (by_name username) s.db.users)) [
          | inl e ↦ rw e inl
          | inr (u, e) ↦
              let used = use_challenge x.now ("login:" <> u.id) s.db in
              let sessions = sessions-use_challenge x.now ("login:" <> u.id) s.db in
              elim (Result-cases used.0) [
                | inr (status, message, c) ↦ rw (e, c, sessions) inl
                | inl (challenge, c) ↦
                    elim (Result-cases (login_answer k u challenge cid response)) [
                      | inr (status, message, a) ↦ rw (e, c, a, sessions) inl
                      | inl ((credential, n), a) ↦
                          let (w, waits, due, same) = use_challenge_ok x.now _ challenge s.db c in
                          let (known, right) =
                            login_answer_ok k u challenge cid response (credential, n) a in
                          rw (e, c, a)
                            (Traced-signed_in x grounds key v s _ _ d
                              (g u.id
                                (u, w, credential, n, e, waits, due, known, rw same right, refl))
                              sessions)
                    ]
              ]
        ])
