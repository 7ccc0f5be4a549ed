-- ===== src/Accounts/Fresh.antt =====
-- Every request opens a session only on its grounds.
use Prim.Native.String.{◌++◌ as ◌<>◌}
use mqtt_trust_gateway.Base.{
  String, ◌≡◌, ◌⊎◌, inl, inr, refl, sym, subst, ◌∙◌, true, ◌&&◌, not, some, leb, ◌===◌, any, length,
  find?, lookup, Distinct, lookup-erase, Bool-cases, Option-cases, Result-cases, ok, dec_text,
  arith,
}
use mqtt_trust_gateway.Db.{User, Session}
use mqtt_trust_gateway.Reauth.{
  Proof, has_totp, requires_totp, user_credentials, verify_reauthentication,
}
use mqtt_trust_gateway.Reauth.Operations.{authentication_operation}
use mqtt_trust_gateway.Sessions.{current_user, logout}
use mqtt_trust_gateway.Accounts.{
  Server, Packages, Visit, challenge_key, rotated, password, use_challenge,
}
use mqtt_trust_gateway.Accounts.Codes.{
  change_password, totp_options, pending_answer, totp_verify, totp_delete,
}
use mqtt_trust_gateway.Accounts.Passkeys.{
  has_id, has_password, reauth_options, add_key, passkeys_options, is_registered, passkeys_verify,
  passkeys_delete,
}
use mqtt_trust_gateway.Accounts.Requests.{
  Request, set_up, sign_in, ask_sign_in, sign_in_passkey, sign_out, new_password, ask_codes,
  confirm_codes, drop_codes, ask_proof, ask_passkey, add_passkey, drop_passkey, sign_out_route,
  handle,
}
use mqtt_trust_gateway.Accounts.Grounds.{
  Grounds, sessions-use_challenge, sessions-store_challenge, Traced-bootstrap,
  Traced-login_password, Traced-login_options, Traced-login_verify,
}
use mqtt_trust_gateway.Accounts.Opening.{
  session_of, IsFresh, Traced, Traced-rotated, Traced-require_auth, Traced-fresh,
  Traced-passkey_context,
}

removal_named :
    (cid operation : String)
    → authentication_operation "remove-passkey" cid ≡ ok operation
    → operation ≡ "remove-passkey:" <> cid
unfolding authentication_operation dec_text
removal_named cid operation h = ground (arith, h)

module _ (k : Packages) (x : Visit) (s : Server) (key : String) (v : Session)
    (d : Distinct s.db.sessions) (grounds : String → Type 0) where
  -- The end of a route that changes how a user signs in.
  Traced-changed :
      (operation : String) (p : Proof) (u own u' u'' : User) (t : Server)
      → ((id : String) → IsFresh k x operation p s id → grounds id)
      → current_user x.now x.session_key s.db ≡ some u
      → find? (λ (w : User). w.id === u.id) s.db.users ≡ some own
      → (verify_reauthentication k.checks x.now
          (requires_totp own)
          (challenge_key k x own operation)
          p
          own
          s.db.challenges).passed
        ≡ true
      → u'.id ≡ own.id
      → u''.id ≡ u'.id
      → t.db.sessions ≡ s.db.sessions
      → Traced x grounds key v s (rotated x u'' t)
  Traced-changed operation p u own u' u'' t g e found passed left id same =
      Traced-rotated x grounds key v s u'' t d
        (g u''.id (u, own, e, found, sym (id ∙ left), passed)) same

  Traced-change_password :
      (given : String) (p : Proof)
      → ((id : String) → IsFresh k x "change-password" p s id → grounds id)
      → Traced x grounds key v s (change_password k x given p s).1
  unfolding change_password
  Traced-change_password given p g = Traced-require_auth x grounds key v s _ λ u own e found.
      elim (Result-cases (password given)) [
        | inr (status, message, a) ↦ rw a inl
        | inl (chosen, a) ↦ rw a (
            Traced-fresh x grounds key v s k _ _ p _ own λ u' t passed left same.
              Traced-changed _ p u own u' _ t g e found passed left refl same)
      ]

  Traced-totp_options : (p : Proof) → Traced x grounds key v s (totp_options k x p s).1
  unfolding totp_options
  Traced-totp_options p = Traced-require_auth x grounds key v s _ λ u own e found.
      elim (Bool-cases (has_totp own)) [
        | inl a ↦ rw a inl
        | inr a ↦ rw a (
            Traced-fresh x grounds key v s k _ _ p _ own
              λ u' t passed left same h. inl (subst (λ ss. lookup key ss ≡ some v) same h))
      ]

  Traced-totp_verify : (code : String) → Traced x grounds key v s (totp_verify k x code s).1
  unfolding totp_verify
  Traced-totp_verify code = Traced-require_auth x grounds key v s _ λ u own e found.
      elim (Option-cases (pending_answer k x code own)) [ inl a ↦ rw a inl | inr (t, a) ↦ rw a inl ]

  Traced-totp_delete :
      (p : Proof)
      → ((id : String) → IsFresh k x "disable-totp" p s id → grounds id)
      → Traced x grounds key v s (totp_delete k x p s).1
  unfolding totp_delete
  Traced-totp_delete p g = Traced-require_auth x grounds key v s _ λ u own e found.
      elim (Bool-cases (not (has_totp own))) [
        | inl a ↦ rw a inl
        | inr a ↦ rw a (
            Traced-fresh x grounds key v s k _ _ p _ own λ u' t passed left same.
              Traced-changed _ p u own u' _ t g e found passed left refl same)
      ]

  Traced-reauth_options :
      (action target : String) → Traced x grounds key v s (reauth_options k x action target s).1
  unfolding reauth_options
  Traced-reauth_options action target = Traced-passkey_context x grounds key v s _ _ (
      Traced-require_auth x grounds key v s _ λ u own e found.
        elim (Result-cases (authentication_operation action target)) [
          | inr (status, message, a) ↦ rw a inl
          | inl (operation, a) ↦
              elim (Bool-cases (
                (action === "remove-passkey")
                && not (any (has_id target) (user_credentials own)))) [
                  | inl b ↦ rw (a, b) inl
                  | inr b ↦ elim (Bool-cases ((action === "disable-totp") && not (has_totp own))) [
                    | inl c ↦ rw (a, b, c) inl
                    | inr c ↦ rw (a, b, c) inl
                  ]
                ]
        ])

  Traced-passkeys_options : (p : Proof) → Traced x grounds key v s (passkeys_options k x p s).1
  unfolding passkeys_options
  Traced-passkeys_options p = Traced-passkey_context x grounds key v s _ _ (
      Traced-require_auth x grounds key v s _ λ u own e found.
        Traced-fresh x grounds key v s k _ _ p _ own λ u' t passed left same.
          rw sessions-store_challenge (λ h. inl (subst (λ ss. lookup key ss ≡ some v) same h)))

  Traced-passkeys_verify :
      (cid response name : String)
      → Traced x grounds key v s (passkeys_verify k x cid response name s).1
  unfolding passkeys_verify
  Traced-passkeys_verify cid response name = Traced-passkey_context x grounds key v s _ _ (
      Traced-require_auth x grounds key v s _ λ u own e found.
        let used = use_challenge x.now (add_key x own) s.db in
        let same = sessions-use_challenge x.now (add_key x own) s.db in
        elim (Result-cases used.0) [
          | inr (status, message, a) ↦ rw (a, same) inl
          | inl (challenge, a) ↦ elim (Option-cases (k.register challenge response)) [
            | inl r ↦ rw (a, r, same) inl
            | inr ((public_key, counter), r) ↦ elim (Bool-cases (is_registered cid used.1.users)) [
              | inl b ↦ rw (a, r, b, same) inl
              | inr b ↦ rw (a, r, b, same) inl
            ]
          ]
        ])

  Traced-passkeys_delete :
      (cid : String) (p : Proof)
      → ((id : String) → IsFresh k x ("remove-passkey:" <> cid) p s id → grounds id)
      → Traced x grounds key v s (passkeys_delete k x cid p s).1
  unfolding passkeys_delete
  Traced-passkeys_delete cid p g = Traced-require_auth x grounds key v s _ λ u own e found.
      elim (Bool-cases (not (any (has_id cid) (user_credentials own)))) [
        | inl a ↦ rw a inl
        | inr a ↦
            elim (Bool-cases (not (has_password own) && leb (length (user_credentials own)) 1)) [
              | inl b ↦ rw (a, b) inl
              | inr b ↦ elim (Result-cases (authentication_operation "remove-passkey" cid)) [
                | inr (status, message, c) ↦ rw (a, b, c) inl
                | inl (operation, c) ↦
                    let named : operation ≡ "remove-passkey:" <> cid =
                      removal_named cid operation c in
                    rw (a, b, c)
                      (Traced-fresh x grounds key v s k _ _ p _ own λ u' t passed left same.
                        Traced-changed _ p u own u' _ t (rw named g) e found passed left refl same)
              ]
            ]
      ]

  Traced-sign_out : Traced x grounds key v s (sign_out_route x s).1
  unfolding sign_out_route logout
  Traced-sign_out =
      Traced-require_auth x grounds key v s _
        λ u own e found h. inl (ground (arith, h, lookup-erase x.session_key key s.db.sessions))

-- A session that the document holds after a request was there before, or it is the new one, for the
-- user and the time that the request gives it, and there were grounds for it: the setup token and no
-- account yet, the password and, where the account has codes set up, a fresh code, the answer of a
-- passkey, or a fresh proof of a user who is signed in. It is for a document with one session for a digest.
pub handle-Grounds :
    (k : Packages) (x : Visit) (r : Request) (s : Server) (key : String) (v : Session)
    → Distinct s.db.sessions
    → lookup key (handle k x r s).db.sessions ≡ some v
    → (lookup key s.db.sessions ≡ some v)
      ⊎ ((id : String) × ((x.new_key === key) ≡ true) × (v ≡ session_of x id) × Grounds k x r s id)
unfolding handle
handle-Grounds k x (set_up token username given) s key v d =
    Traced-bootstrap k x s key v d _ token username given (λ id g. g)
handle-Grounds k x (sign_in username given code) s key v d =
    Traced-login_password k x s key v d _ username given code (λ id g. g)
handle-Grounds k x (ask_sign_in username) s key v d = Traced-login_options k x s key v d _ username
handle-Grounds k x (sign_in_passkey username cid response) s key v d =
    Traced-login_verify k x s key v d _ username cid response (λ id g. g)
handle-Grounds k x sign_out s key v d = Traced-sign_out k x s key v d _
handle-Grounds k x (new_password given p) s key v d =
    Traced-change_password k x s key v d _ given p (λ id g. g)
handle-Grounds k x (ask_codes p) s key v d = Traced-totp_options k x s key v d _ p
handle-Grounds k x (confirm_codes code) s key v d = Traced-totp_verify k x s key v d _ code
handle-Grounds k x (drop_codes p) s key v d = Traced-totp_delete k x s key v d _ p (λ id g. g)
handle-Grounds k x (ask_proof action target) s key v d =
    Traced-reauth_options k x s key v d _ action target
handle-Grounds k x (ask_passkey p) s key v d = Traced-passkeys_options k x s key v d _ p
handle-Grounds k x (add_passkey cid response name) s key v d =
    Traced-passkeys_verify k x s key v d _ cid response name
handle-Grounds k x (drop_passkey cid p) s key v d =
    Traced-passkeys_delete k x s key v d _ cid p (λ id g. g)
