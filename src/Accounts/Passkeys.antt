-- ===== src/Accounts/Passkeys.antt =====
-- Asking for a challenge, adding a passkey and taking one away.
use Prim.Native.String.{◌++◌ as ◌<>◌}
use mqtt_trust_gateway.Base.{
  ℕ, String, Bool, false, ◌&&◌, not, none, some, List, [], ◌∷◌, ◌++◌, leb, ◌===◌, if◌then◌else◌,
  length, any, filter, take_text, Result, ok, err,
}
use mqtt_trust_gateway.Db.{User, Credential}
use mqtt_trust_gateway.Reauth.{Proof, has_totp, requires_totp, user_credentials}
use mqtt_trust_gateway.Reauth.Operations.{authentication_operation, reauthentication_options}
use mqtt_trust_gateway.Accounts.{
  Server, Packages, Visit, passkey_context, log, use_challenge, store_challenge, require_auth,
  fresh, put_user, rotated, challenge_key,
}

abbrev pub has_id : String → Credential → Bool
has_id id c = c.id === id

abbrev pub has_password : User → Bool
has_password u = elim u.password_hash [ none ↦ false | some hash ↦ not (hash === "") ]

-- POST /api/reauth/options
unfoldable pub reauth_options :
    Packages → Visit → (action target : String) → Server → Result (Unit {0}) × Server
reauth_options k x action target s =
    passkey_context x
      (require_auth x λ (u : User) s. elim (authentication_operation action target) [
        | err status message ↦ (err status message, s)
        | ok operation ↦
            if (action === "remove-passkey") && not (any (has_id target) (user_credentials u))
            then (err 404 "Passkey not found", s)
            else if (action === "disable-totp") && not (has_totp u)
            then (err 409 "Authenticator is not enabled", s)
            else let made =
                reauthentication_options x.now (challenge_key k x u operation) x.drawn u
                  s.db.challenges in
              (made.0, record s { db = record (s.db) { challenges = made.1 } })
      ])
      s

abbrev pub add_key : Visit → User → String
add_key x u = "add:" <> u.id <> ":" <> x.session_key

-- POST /api/passkeys/options
unfoldable pub passkeys_options : Packages → Visit → Proof → Server → Result String × Server
passkeys_options k x proof s =
    passkey_context x
      (require_auth x λ (u : User) s.
        fresh k x "add-passkey" (requires_totp u) proof
          (λ u s. (
            ok x.drawn,
            record s { db = store_challenge x.now (add_key x u) x.drawn (put_user u s.db) },
          ))
          u s)
      s

abbrev pub is_registered : String → List User → Bool
is_registered id users = any (λ (u : User). any (has_id id) (user_credentials u)) users

abbrev pub passkey_name : String → String
passkey_name name = take_text 64 (if name === "" then "Passkey" else name)

abbrev pub new_passkey : Visit → (id name public_key : String) → ℕ → Credential
new_passkey x id name public_key counter = record {
  id = id;
  public_key = public_key;
  counter = counter;
  name = passkey_name name;
  created_at = x.now;
}

-- POST /api/passkeys/verify
unfoldable pub passkeys_verify :
    Packages → Visit → (id response name : String) → Server → Result User × Server
passkeys_verify k x id response name s =
    passkey_context x
      (require_auth x λ (u : User) s.
        let used = use_challenge x.now (add_key x u) s.db in
        let s' : Server = record s { db = used.1 } in
        elim used.0 [
          | err status message ↦ (err status message, s')
          | ok challenge ↦ elim (k.register challenge response) [
            | none ↦ (err 400 "Passkey verification failed", s')
            | some (public_key, counter) ↦
                if is_registered id used.1.users
                then (err 409 "Passkey is already registered", s')
                else let u' : User = record u {
                  credentials = user_credentials u ++ new_passkey x id name public_key counter ∷ [];
                } in
                  (
                    ok u',
                    log x u'.username "passkey.added" id (record s { db = put_user u' used.1 }),
                  )
          ]
        ])
      s

abbrev pub without_passkey : String → User → User
without_passkey id u = record u {
  credentials = filter (λ (c : Credential). not (c.id === id)) (user_credentials u);
  legacy_credential = none;
}

-- DELETE /api/passkeys/:id
unfoldable pub passkeys_delete :
    Packages → Visit → (id : String) → Proof → Server → Result User × Server
passkeys_delete k x id proof s =
    require_auth x
      (λ (u : User) s.
        if not (any (has_id id) (user_credentials u))
        then (err 404 "Passkey not found", s)
        else if not (has_password u) && leb (length (user_credentials u)) 1
        then (err 409 "Set a password before removing the last passkey", s)
        else elim (authentication_operation "remove-passkey" id) [
          | err status message ↦ (err status message, s)
          | ok operation ↦
              fresh k x operation (requires_totp u) proof
                (λ u s.
                  let u' = without_passkey id u in
                  (ok u', log x u'.username "passkey.removed" id (rotated x u' s)))
                u s
        ])
      s
