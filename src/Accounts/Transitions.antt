-- ===== src/Accounts/Transitions.antt =====
-- Each account route, and so each request, as a step of the abstract machine.
use Prim.Native.String.{◌++◌ as ◌<>◌}
use mqtt_trust_gateway.Base.{
  String, ◌≡◌, refl, sym, subst, true, false, List, [], ◌∷◌, ◌++◌, ◌===◌, find?, Bool-cases,
  Option-cases, Result-cases, inl, inr, trim, arith,
}
use mqtt_trust_gateway.Db.{User}
use mqtt_trust_gateway.Reauth.{is_empty, user_credentials, totp_step}
use mqtt_trust_gateway.Accounts.{
  Server, Packages, Visit, password, matches_bootstrap_token, is_username, use_challenge,
}
use mqtt_trust_gateway.Accounts.SignIn.{
  new_user, bootstrap, by_name, password_matches, login_password, login_options, login_answer,
  login_verify,
}
use mqtt_trust_gateway.Accounts.Machine.{Change, same, Step, stays, created, changed}
use mqtt_trust_gateway.Accounts.Views.{
  view, views, Changed-modify, view-set_counter, view-totp_step,
}
use mqtt_trust_gateway.Accounts.Refinement.{
  Steps, users-signed_in, users-use_challenge, users-store_challenge,
}

-- The hash of a password is a text that is not empty.
abbrev pub Hashes : Packages → Type 0
Hashes k = (given : String) → (k.argon2_hash given === "") ≡ false

users_empty : (us : List User) → is_empty us ≡ true → us ≡ []
users_empty [] h = refl
users_empty (u ∷ us) h = absurd (ground (arith, h))

first_account-Step :
    (k : Packages) (x : Visit) (username chosen : String) (us : List User)
    → Hashes k
    → is_empty us ≡ true
    → Step (views us) (views (us ++ new_user x username (k.argon2_hash chosen) ∷ []))
unfolding view user_credentials
first_account-Step k x username chosen us h e =
    rw (users_empty us e) (created (ground (arith, h chosen)) refl)

pub bootstrap-Step :
    (k : Packages) (x : Visit) (token username given : String) (s : Server)
    → Hashes k
    → Steps s (bootstrap k x token username given s).1
unfolding bootstrap
bootstrap-Step k x token username given s h = elim (Bool-cases (is_empty s.db.users)) [
  | inr e ↦ rw (bootstrap, e) stays
  | inl e ↦ elim (Option-cases s.bootstrap_token) [
    | inl missing ↦ rw (bootstrap, e, missing) stays
    | inr (expected, found) ↦ elim (Bool-cases (matches_bootstrap_token token expected)) [
      | inr b ↦ rw (bootstrap, e, found, b) stays
      | inl b ↦ elim (Bool-cases (is_username (trim username))) [
        | inr n ↦ rw (bootstrap, e, found, b, n) stays
        | inl n ↦ elim (Result-cases (password given)) [
          | inr (status, message, p) ↦ rw (bootstrap, e, found, b, n, p) stays
          | inl (chosen, p) ↦
              rw (bootstrap, e, found, b, n, p, users-signed_in)
                (first_account-Step k x (trim username) chosen s.db.users h e)
        ]
      ]
    ]
  ]
]

pub login_password-Step :
    (k : Packages) (x : Visit) (username given code : String) (s : Server)
    → Steps s (login_password k x username given code s).1
unfolding login_password
login_password-Step k x username given code s =
    elim (Option-cases (find? (by_name username) s.db.users)) [
      | inl e ↦ rw (login_password, e) stays
      | inr (u, e) ↦ elim (Bool-cases (password_matches k given u)) [
        | inr b ↦ rw (login_password, e, b) stays
        | inl b ↦ elim (Option-cases (totp_step k.checks x.now code u)) [
          | inl t ↦ rw (login_password, e, b, t) stays
          | inr (u', t) ↦
              rw (login_password, e, b, t, users-signed_in)
                (changed (
                  Changed-modify (views s.db.users) (by_name username) s.db.users u u' e (
                    subst (Change (views s.db.users) (view u))
                      (sym (view-totp_step k.checks x.now code u u' t)) same)))
        ]
      ]
    ]

pub login_options-Step :
    (x : Visit) (username : String) (s : Server) → Steps s (login_options x username s).1
unfolding login_options
login_options-Step x username s = elim (Bool-cases x.is_secure) [
  | inr plain ↦ rw (login_options, plain) stays
  | inl secure ↦ elim (Option-cases (find? (by_name username) s.db.users)) [
    | inl e ↦ rw (login_options, secure, e) stays
    | inr (u, e) ↦ elim (Bool-cases (is_empty (user_credentials u))) [
      | inl b ↦ rw (login_options, secure, e, b) stays
      | inr b ↦ rw (login_options, secure, e, b, users-store_challenge) stays
    ]
  ]
]

pub login_verify-Step :
    (k : Packages) (x : Visit) (username id response : String) (s : Server)
    → Steps s (login_verify k x username id response s).1
unfolding login_verify
login_verify-Step k x username id response s = elim (Bool-cases x.is_secure) [
  | inr plain ↦ rw (login_verify, plain) stays
  | inl secure ↦ elim (Option-cases (find? (by_name username) s.db.users)) [
    | inl e ↦ rw (login_verify, secure, e) stays
    | inr (u, e) ↦
        let used = use_challenge x.now ("login:" <> u.id) s.db in
        let users = users-use_challenge x.now ("login:" <> u.id) s.db in
        elim (Result-cases used.0) [
          | inr (status, message, c) ↦ rw (login_verify, secure, e, c, users) stays
          | inl (challenge, c) ↦ elim (Result-cases (login_answer k u challenge id response)) [
            | inr (status, message, a) ↦ rw (login_verify, secure, e, c, a, users) stays
            | inl ((credential, n), a) ↦
                rw (login_verify, secure, e, c, a, users-signed_in, users)
                  (changed (
                    Changed-modify (views s.db.users) (by_name username) s.db.users u _ e (
                      subst (Change (views s.db.users) (view u))
                        (sym (view-set_counter u credential.id n)) same)))
          ]
        ]
  ]
]
