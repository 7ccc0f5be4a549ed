-- ===== src/Accounts/Changes.antt =====
-- The routes that change a password or a set of codes, as steps of the abstract machine.
use mqtt_trust_gateway.Base.{
  String, ◌≡◌, refl, ap, subst, ◌∙◌, false, some, List, ◌===◌, modify, Bool-cases, Option-cases,
  Result-cases, inl, inr,
}
use mqtt_trust_gateway.Db.{User}
use mqtt_trust_gateway.Reauth.{Proof, user_credentials, has_totp}
use mqtt_trust_gateway.Accounts.{Server, Packages, Visit, password}
use mqtt_trust_gateway.Accounts.Codes.{
  change_password, totp_options, pending_answer, totp_verify, totp_delete,
}
use mqtt_trust_gateway.Accounts.Machine.{
  Account, Change, same, new_password as sets_password, codes_on, codes_off, Step, stays,
}
use mqtt_trust_gateway.Accounts.Views.{view, views}
use mqtt_trust_gateway.Accounts.Transitions.{Hashes}
use mqtt_trust_gateway.Accounts.Refinement.{
  Steps, Stored, users-rotated, put_user-Step, require_auth-Step, fresh-Step,
}

-- A fresh authentication leaves what a change of the account depends on.
pub view-id : (u u' : User) → view u' ≡ view u → u'.id ≡ u.id
unfolding view
view-id u u' h = ap (λ (a : Account). a.id) h

pub Change-view :
    (us : List Account) (u u' : User) (a : Account)
    → view u' ≡ view u
    → (Change us (view u') a)
    → Change us (view u) a
Change-view us u u' a h c = subst (λ b. Change us b a) h c

-- The end of a route: the user that is left is changed and stored, with whatever else.
pub Stored-Step :
    (s : Server) (users : List User) (u u' u'' : User)
    → Stored u s
    → view u' ≡ view u
    → users ≡ s.db.users
    → u''.id ≡ u'.id
    → Change (views s.db.users) (view u') (view u'')
    → Step (views s.db.users) (views (modify (λ (v : User). v.id === u''.id) (λ v. u'') users))
Stored-Step s users u u' u'' found h same_users id c = rw same_users (
    put_user-Step s.db.users u u'' found (id ∙ view-id u u' h)
      (Change-view (views s.db.users) u u' (view u'') h c))

password_set :
    (us : List Account) (u : User) (hash : String)
    → (hash === "") ≡ false
    → Change us (view u) (view (record u { password_hash = some hash }))
unfolding view user_credentials
password_set us u hash h = rw h sets_password

pub change_password-Step :
    (k : Packages) (x : Visit) (given : String) (p : Proof) (s : Server)
    → Hashes k
    → Steps s (change_password k x given p s).1
unfolding change_password
change_password-Step k x given p s h = require_auth-Step x _ s λ u found.
    elim (Result-cases (password given)) [
      | inr (status, message, e) ↦ rw e stays
      | inl (chosen, e) ↦ rw e (
          fresh-Step k x _ _ p _ u s λ u' s' left users. rw users-rotated (
            Stored-Step s s'.db.users u u' _ found left users refl
              (password_set (views s.db.users) u' (k.argon2_hash chosen) (h chosen))))
    ]

pub totp_options-Step :
    (k : Packages) (x : Visit) (p : Proof) (s : Server) → Steps s (totp_options k x p s).1
unfolding totp_options view user_credentials
totp_options-Step k x p s = require_auth-Step x _ s λ u found. elim (Bool-cases (has_totp u)) [
  | inl e ↦ rw e stays
  | inr e ↦ rw e (
      fresh-Step k x _ _ p _ u s
        λ u' s' left users. Stored-Step s s'.db.users u u' _ found left users refl same)
]

pub totp_verify-Step :
    (k : Packages) (x : Visit) (code : String) (s : Server) → Steps s (totp_verify k x code s).1
unfolding totp_verify view user_credentials
totp_verify-Step k x code s = require_auth-Step x _ s λ u found.
    elim (Option-cases (pending_answer k x code u)) [
      | inl e ↦ rw e stays
      | inr (t, e) ↦ rw e (put_user-Step s.db.users u _ found refl codes_on)
    ]

pub totp_delete-Step :
    (k : Packages) (x : Visit) (p : Proof) (s : Server) → Steps s (totp_delete k x p s).1
unfolding totp_delete view user_credentials
totp_delete-Step k x p s = require_auth-Step x _ s λ u found. elim (Bool-cases (has_totp u)) [
  | inr e ↦ rw e stays
  | inl e ↦ rw e (
      fresh-Step k x _ _ p _ u s λ u' s' left users.
        rw users-rotated (Stored-Step s s'.db.users u u' _ found left users refl codes_off))
]
