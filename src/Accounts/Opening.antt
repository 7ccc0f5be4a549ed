-- ===== src/Accounts/Opening.antt =====
-- Where a session of the document comes from.
use mqtt_trust_gateway.Base.{
  ◌+◌, ◌*◌, String, ◌≡◌, ◌⊎◌, inl, inr, refl, subst, Bool, true, false, not, some, leb, ◌===◌,
  if◌then◌else◌, find?, lookup, lookup-insert, lookup-keep, Distinct, keep, keep-Distinct,
  Bool-cases, Option-cases, Result, err, arith,
}
use mqtt_trust_gateway.Db.{Db, User, Session}
use mqtt_trust_gateway.Reauth.{Proof, requires_totp, verify_reauthentication}
use mqtt_trust_gateway.Sessions.{current_user, create_session}
use mqtt_trust_gateway.Sessions.Rotation.{rotate}
use mqtt_trust_gateway.Accounts.{
  Server, Packages, Visit, require_auth, fresh, challenge_key, rotated, signed_in,
}
use mqtt_trust_gateway.Accounts.Views.{view-verified}
use mqtt_trust_gateway.Accounts.Changes.{view-id}

-- The session that a request opens for a user.
abbrev pub session_of : Visit → String → Session
session_of x id = record { user_id = id; expires_at = x.now + x.session_hours * 3_600_000 }

-- A session was there before, or it is the one that the request opens, and there are grounds for it.
abbrev pub Origin : Visit → (String → Type 0) → String → Session → Server → Type 0
Origin x grounds key v s =
    (lookup key s.db.sessions ≡ some v)
    ⊎ ((id : String) × ((x.new_key === key) ≡ true) × (v ≡ session_of x id) × grounds id)

-- The user of the request's token, in the document, has just given a proof that passes.
abbrev pub IsFresh : Packages → Visit → (operation : String) → Proof → Server → String → Type 0
IsFresh k x operation p s id =
    (u own : User) × (current_user x.now x.session_key s.db ≡ some u)
    × (find? (λ (w : User). w.id === u.id) s.db.users ≡ some own)
    × (own.id ≡ id)
    × ((verify_reauthentication k.checks x.now (requires_totp own) (challenge_key k x own operation)
          p own s.db.challenges).passed
        ≡ true)

module _ (x : Visit) (grounds : String → Type 0) (key : String) (v : Session) (s : Server) where
  -- What a later state has under the key comes from `s`, or has grounds.
  abbrev pub Traced : Server → Type 0
  Traced t = lookup key t.db.sessions ≡ some v → Origin x grounds key v s

  pub Traced-create_session :
      (db : Db) (id : String)
      → Distinct db.sessions
      → grounds id
      → (lookup key db.sessions ≡ some v → lookup key s.db.sessions ≡ some v)
      → lookup key (create_session x.now x.session_hours id x.new_key db).sessions ≡ some v
      → Origin x grounds key v s
  unfolding create_session
  Traced-create_session db id d g old h =
      let live = keep (λ (w : Session). not (leb w.expires_at x.now)) db.sessions in
      elim (Bool-cases (x.new_key === key)) [
        | inl own ↦
            let made = lookup-insert x.new_key key (session_of x id) live in
            inr (id, own, ground (arith, own, made, h), g)
        | inr other ↦
            let made = lookup-insert x.new_key key (session_of x id) live in
            let kept =
              lookup-keep (λ (w : Session). not (leb w.expires_at x.now)) key db.sessions d in
            inl (old (ground (arith, other, made, kept, h)))
      ]

  pub Traced-rotated :
      (u : User) (t : Server)
      → Distinct s.db.sessions
      → grounds u.id
      → t.db.sessions ≡ s.db.sessions
      → Traced (rotated x u t)
  unfolding rotated rotate
  Traced-rotated u t d g same =
      let p = λ (w : Session). not (w.user_id === u.id) in
      let d' : Distinct t.db.sessions = rw same d in
      Traced-create_session _ u.id (keep-Distinct p t.db.sessions d') g (λ h.
        subst (λ ss. lookup key ss ≡ some v) same
          (ground (arith, h, lookup-keep p key t.db.sessions d')))

  pub Traced-signed_in :
      (u : User) (t : Server)
      → Distinct s.db.sessions
      → grounds u.id
      → t.db.sessions ≡ s.db.sessions
      → Traced (signed_in x u t)
  unfolding signed_in
  Traced-signed_in u t d g same =
      Traced-create_session t.db u.id (rw same d) g (subst (λ ss. lookup key ss ≡ some v) same)

  pub Traced-require_auth {ℓ} :
      {A : Type ℓ} (handler : User → Server → Result A × Server)
      → ((u own : User)
          → current_user x.now x.session_key s.db ≡ some u
          → find? (λ (w : User). w.id === u.id) s.db.users ≡ some own
          → Traced (handler own s).1)
      → Traced (require_auth x handler s).1
  unfolding require_auth
  Traced-require_auth handler h = elim (Option-cases (current_user x.now x.session_key s.db)) [
    | inl e ↦ rw (require_auth, e) inl
    | inr (u, e) ↦ elim (Option-cases (find? (λ (w : User). w.id === u.id) s.db.users)) [
      | inl missing ↦ rw (require_auth, e, missing) inl
      | inr (own, found) ↦ rw (require_auth, e, found) (h u own e found)
    ]
  ]

  pub Traced-fresh {ℓ} :
      {A : Type ℓ} (k : Packages) (operation : String) (r : Bool) (p : Proof)
      (next : User → Server → Result A × Server) (u : User)
      → ((u' : User) (t : Server)
          → (verify_reauthentication k.checks x.now r
              (challenge_key k x u operation)
              p
              u
              s.db.challenges).passed
            ≡ true
          → u'.id ≡ u.id
          → t.db.sessions ≡ s.db.sessions
          → Traced (next u' t).1)
      → Traced (fresh k x operation r p next u s).1
  unfolding fresh
  Traced-fresh k operation r p next u h =
      let proved =
        verify_reauthentication k.checks x.now r (challenge_key k x u operation) p u
          s.db.challenges in
      elim (Bool-cases proved.passed) [
        | inr failed ↦ rw (fresh, failed) inl
        | inl passed ↦
            rw (fresh, passed)
              (h proved.user _ passed
                (view-id u proved.user (
                  view-verified k.checks x.now r (challenge_key k x u operation) p u
                    s.db.challenges))
                refl)
      ]

  pub Traced-passkey_context {ℓ} :
      {A : Type ℓ} (message : String) (r : Result A × Server)
      → Traced r.1
      → Traced (if x.is_secure then r else (err 403 message, s)).1
  Traced-passkey_context message r h = go x.is_secure
    where
      go : (secure : Bool) → Traced (if secure then r else (err 403 message, s)).1
      go true = h
      go false = inl
