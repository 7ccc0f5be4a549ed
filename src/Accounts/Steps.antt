-- ===== src/Accounts/Steps.antt =====
-- The routes of the passkeys, and so every request, as steps of the abstract machine.
use mqtt_trust_gateway.Base.{
  ℕ, String, ◌≡◌, refl, sym, subst, ◌∙◌, true, false, ◌&&◌, ◌||◌, not, List, [], ◌∷◌, ◌++◌, leb,
  length, ◌===◌, any, Bool-cases, Option-cases, Result-cases, inl, inr, arith,
}
use mqtt_trust_gateway.Db.{User, Credential}
use mqtt_trust_gateway.Reauth.{Proof, user_credentials, has_totp}
use mqtt_trust_gateway.Reauth.Operations.{authentication_operation}
use mqtt_trust_gateway.Sessions.{logout}
use mqtt_trust_gateway.Accounts.{Server, Packages, Visit, use_challenge}
use mqtt_trust_gateway.Accounts.Passkeys.{
  has_id, has_password, reauth_options, add_key, passkeys_options, is_registered, new_passkey,
  passkeys_verify, without_passkey, passkeys_delete,
}
use mqtt_trust_gateway.Accounts.Requests.{
  Request, set_up, sign_in, ask_sign_in, sign_in_passkey, sign_out, new_password, ask_codes,
  confirm_codes, drop_codes, ask_proof, ask_passkey, add_passkey, drop_passkey, sign_out_route,
  handle,
}
use mqtt_trust_gateway.Accounts.Machine.{Account, Change, same, added, dropped, Step, stays}
use mqtt_trust_gateway.Accounts.Views.{
  ids, view, views, view-add, view-without_passkey, is_registered-views,
}
use mqtt_trust_gateway.Accounts.Transitions.{
  Hashes, bootstrap-Step, login_password-Step, login_options-Step, login_verify-Step,
}
use mqtt_trust_gateway.Accounts.Changes.{
  Stored-Step, change_password-Step, totp_options-Step, totp_verify-Step, totp_delete-Step,
}
use mqtt_trust_gateway.Accounts.Refinement.{
  Steps, users-rotated, users-use_challenge, users-store_challenge, put_user-Step,
  require_auth-Step, fresh-Step, passkey_auth-Step,
}

reauth_options-Step :
    (k : Packages) (x : Visit) (action target : String) (s : Server)
    → Steps s (reauth_options k x action target s).1
unfolding reauth_options
reauth_options-Step k x action target s = passkey_auth-Step x _ s λ u found.
    elim (Result-cases (authentication_operation action target)) [
      | inr (status, message, e) ↦ rw e stays
      | inl (operation, e) ↦
          elim (Bool-cases
            ((action === "remove-passkey") && not (any (has_id target) (user_credentials u)))) [
              | inl b ↦ rw (e, b) stays
              | inr b ↦ elim (Bool-cases ((action === "disable-totp") && not (has_totp u))) [
                | inl c ↦ rw (e, b, c) stays
                | inr c ↦ rw (e, b, c) stays
              ]
            ]
    ]

passkeys_options-Step :
    (k : Packages) (x : Visit) (p : Proof) (s : Server) → Steps s (passkeys_options k x p s).1
unfolding passkeys_options
passkeys_options-Step k x p s = passkey_auth-Step x _ s λ u found.
    fresh-Step k x _ _ p _ u s λ u' s' left users.
      rw users-store_challenge (Stored-Step s s'.db.users u u' u' found left users refl same)

added_lem :
    (us : List User) (x : Visit) (u : User) (id name public_key : String) (counter : ℕ)
    → is_registered id us ≡ false
    → Change (views us) (view u) (
        view (record u {
          credentials = user_credentials u ++ new_passkey x id name public_key counter ∷ [];
        }))
added_lem us x u id name public_key counter free =
    subst (Change (views us) (view u)) (sym (view-add u (new_passkey x id name public_key counter)))
      (added id (sym (is_registered-views id us) ∙ free))

passkeys_verify-Step :
    (k : Packages) (x : Visit) (id response name : String) (s : Server)
    → Steps s (passkeys_verify k x id response name s).1
unfolding passkeys_verify
passkeys_verify-Step k x id response name s = passkey_auth-Step x _ s λ u found.
    let users = users-use_challenge x.now (add_key x u) s.db in
    elim (Result-cases (use_challenge x.now (add_key x u) s.db).0) [
      | inr (status, message, e) ↦ rw (e, users) stays
      | inl (challenge, e) ↦ elim (Option-cases (k.register challenge response)) [
        | inl r ↦ rw (e, r, users) stays
        | inr ((public_key, counter), r) ↦ elim (Bool-cases (is_registered id s.db.users)) [
          | inl b ↦ rw (e, r, users, b, users) stays
          | inr b ↦
              rw (e, r, users, b)
                (put_user-Step s.db.users u _ found refl
                  (added_lem s.db.users x u id name public_key counter b))
        ]
      ]
    ]

length-ids : (cs : List Credential) → length (ids cs) ≡ length cs
length-ids [] = refl
length-ids (c ∷ cs) = omega (arith, length-ids cs)

view-guard :
    (u : User)
    → (not (has_password u) && leb (length (user_credentials u)) 1) ≡ false
    → ((view u).has_password || leb 2 (length (view u).passkeys)) ≡ true
unfolding view
view-guard u h = ground (arith, h, length-ids (user_credentials u))

dropped_lem :
    (us : List Account) (u u' : User) (id : String)
    → view u' ≡ view u
    → (not (has_password u) && leb (length (user_credentials u)) 1) ≡ false
    → Change us (view u') (view (without_passkey id u'))
dropped_lem us u u' id left guard = subst (Change us (view u')) (sym (view-without_passkey id u')) (
    dropped id (
      subst (λ (a : Account). (a.has_password || leb 2 (length a.passkeys)) ≡ true) (sym left)
        (view-guard u guard)))

passkeys_delete-Step :
    (k : Packages) (x : Visit) (id : String) (p : Proof) (s : Server)
    → Steps s (passkeys_delete k x id p s).1
unfolding passkeys_delete
passkeys_delete-Step k x id p s = require_auth-Step x _ s λ u found.
    elim (Bool-cases (not (any (has_id id) (user_credentials u)))) [
      | inl a ↦ rw a stays
      | inr a ↦ elim (Bool-cases (not (has_password u) && leb (length (user_credentials u)) 1)) [
        | inl b ↦ rw (a, b) stays
        | inr b ↦ elim (Result-cases (authentication_operation "remove-passkey" id)) [
          | inr (status, message, e) ↦ rw (a, b, e) stays
          | inl (operation, e) ↦
              rw (a, b, e)
                (fresh-Step k x _ _ p _ u s λ u' s' left users. rw users-rotated (
                  Stored-Step s s'.db.users u u' _ found left users refl
                    (dropped_lem (views s.db.users) u u' id left b)))
        ]
      ]
    ]

sign_out-Step : (x : Visit) (s : Server) → Steps s (sign_out_route x s).1
unfolding sign_out_route logout
sign_out-Step x s = require_auth-Step x _ s (λ u found. stays)

-- Every request is a step of the abstract machine, whatever it brings, as long as the hash of a
-- password is never the empty text.
pub handle-Step :
    (k : Packages) (x : Visit) (r : Request) (s : Server)
    → Hashes k
    → Step (views s.db.users) (views (handle k x r s).db.users)
unfolding handle
handle-Step k x (set_up token username given) s h = bootstrap-Step k x token username given s h
handle-Step k x (sign_in username given code) s h = login_password-Step k x username given code s
handle-Step k x (ask_sign_in username) s h = login_options-Step x username s
handle-Step k x (sign_in_passkey username id response) s h =
    login_verify-Step k x username id response s
handle-Step k x sign_out s h = sign_out-Step x s
handle-Step k x (new_password given p) s h = change_password-Step k x given p s h
handle-Step k x (ask_codes p) s h = totp_options-Step k x p s
handle-Step k x (confirm_codes code) s h = totp_verify-Step k x code s
handle-Step k x (drop_codes p) s h = totp_delete-Step k x p s
handle-Step k x (ask_proof action target) s h = reauth_options-Step k x action target s
handle-Step k x (ask_passkey p) s h = passkeys_options-Step k x p s
handle-Step k x (add_passkey id response name) s h = passkeys_verify-Step k x id response name s
handle-Step k x (drop_passkey id p) s h = passkeys_delete-Step k x id p s
