-- ===== src/Accounts/Refinement.antt =====
-- Every account route is a step of the abstract machine.
use mqtt_trust_gateway.Base.{
  ℕ, String, ◌≡◌, refl, sym, subst, Bool, true, false, some, List, ◌===◌, if◌then◌else◌, find?,
  find?-sound, modify, Bool-cases, Option-cases, inl, inr, Result, err, arith,
}
use mqtt_trust_gateway.Db.{Db, User}
use mqtt_trust_gateway.Reauth.{Proof, verify_reauthentication}
use mqtt_trust_gateway.Sessions.{current_user, create_session}
use mqtt_trust_gateway.Sessions.Rotation.{rotate}
use mqtt_trust_gateway.Accounts.{
  Server, Packages, Visit, passkey_context, require_auth, fresh, challenge_key, put_user, rotated,
  signed_in, use_challenge, store_challenge,
}
use mqtt_trust_gateway.Accounts.Machine.{Change, Step, stays, changed}
use mqtt_trust_gateway.Accounts.Views.{view, views, Changed-modify, view-verified}

-- What a handler may do to the accounts.
abbrev pub Steps : Server → Server → Type 0
Steps s t = Step (views s.db.users) (views t.db.users)

pub users-rotated :
    (x : Visit) (u : User) (s : Server) → (rotated x u s).db.users ≡ (put_user u s.db).users
unfolding rotated rotate create_session
users-rotated x u s = refl

pub users-signed_in : (x : Visit) (u : User) (s : Server) → (signed_in x u s).db.users ≡ s.db.users
unfolding signed_in create_session
users-signed_in x u s = refl

pub users-use_challenge :
    (now : ℕ) (key : String) (db : Db) → (use_challenge now key db).1.users ≡ db.users
unfolding use_challenge
users-use_challenge now key db = ground arith

pub users-store_challenge :
    (now : ℕ) (key drawn : String) (db : Db) → (store_challenge now key drawn db).users ≡ db.users
unfolding store_challenge
users-store_challenge now key drawn db = refl

-- The user stands in the document under the own identifier.
abbrev pub Stored : User → Server → Type 0
Stored u s = find? (λ (v : User). v.id === u.id) s.db.users ≡ some u

pub put_user-Step :
    (users : List User) (u u' : User)
    → find? (λ (v : User). v.id === u.id) users ≡ some u
    → u'.id ≡ u.id
    → Change (views users) (view u) (view u')
    → Step (views users) (views (modify (λ (v : User). v.id === u'.id) (λ v. u') users))
put_user-Step users u u' found id c =
    changed (Changed-modify (views users) (λ (v : User). v.id === u'.id) users u u' (rw id found) c)

pub require_auth-Step {ℓ} :
    {A : Type ℓ} (x : Visit) (handler : User → Server → Result A × Server) (s : Server)
    → ((u : User) → Stored u s → Steps s (handler u s).1)
    → Steps s (require_auth x handler s).1
unfolding require_auth
require_auth-Step x handler s h = elim (Option-cases (current_user x.now x.session_key s.db)) [
  | inl e ↦ rw (require_auth, e) stays
  | inr (u, e) ↦ elim (Option-cases (find? (λ (v : User). v.id === u.id) s.db.users)) [
    | inl missing ↦ rw (require_auth, e, missing) stays
    | inr (own, found) ↦
        let id : own.id ≡ u.id =
          ground (arith, find?-sound (λ (v : User). v.id === u.id) s.db.users own found) in
        rw (require_auth, e, found)
          (h own
            (subst (λ i. find? (λ (v : User). v.id === i) s.db.users ≡ some own) (sym id) found))
  ]
]

pub fresh-Step {ℓ} :
    {A : Type ℓ} (k : Packages) (x : Visit) (operation : String) (r : Bool) (p : Proof)
    (next : User → Server → Result A × Server) (u : User) (s : Server)
    → ((u' : User) (s' : Server)
        → view u' ≡ view u
        → s'.db.users ≡ s.db.users
        → Steps s (next u' s').1)
    → Steps s (fresh k x operation r p next u s).1
unfolding fresh
fresh-Step k x operation r p next u s h =
    let proved =
      verify_reauthentication k.checks x.now r (challenge_key k x u operation) p u
        s.db.challenges in
    elim (Bool-cases proved.passed) [
      | inr failed ↦ rw (fresh, failed) stays
      | inl passed ↦
          rw (fresh, passed)
            (h proved.user _
              (view-verified k.checks x.now r (challenge_key k x u operation) p u s.db.challenges)
              refl)
    ]

-- A route for passkeys, of a user who is signed in.
pub passkey_auth-Step {ℓ} :
    {A : Type ℓ} (x : Visit) (handler : User → Server → Result A × Server) (s : Server)
    → ((u : User) → Stored u s → Steps s (handler u s).1)
    → Steps s (passkey_context x (require_auth x handler) s).1
passkey_auth-Step x handler s h = go x.is_secure
  where
    go :
        (secure : Bool)
        → Steps s
            (if secure
              then require_auth x handler s
              else (err 403 "Passkeys require HTTPS or localhost", s)).1
    go true = require_auth-Step x handler s h
    go false = stays
