-- ===== src/Sessions/Rotation.antt =====
-- Who is signed in after a session is made, ended or rotated: `createSession`, `logout` of
-- admin-web/src/auth.js and `rotateAfterAuthenticationChange` of admin-web/src/reauth.js.
use Prim.Native.String.{◌++◌ as ◌<>◌}
use mqtt_trust_gateway.Base.{
  ℕ, ◌+◌, ◌*◌, ◌<◌, String, ◌≡◌, refl, sym, ap, ◌∙◌, Bool, ◌||◌, not, Option, none, some, List, [],
  ◌∷◌, leb, ◌===◌, if◌then◌else◌, codes, find?, find?-sound, lookup, keep, kept, Distinct,
  lookup-keep, lookup-insert, lookup-erase, keep-Distinct, Option-cases, Bool-cases, inl, inr,
  arith,
}
use mqtt_trust_gateway.Db.{Db, User, Session, Challenge}
use mqtt_trust_gateway.Grants.{Grants, revoke_user}
use mqtt_trust_gateway.Sessions.{current_user, create_session, logout, starts_with}

abbrev pub keep_keys : (String → Bool) → List (String × Challenge) → List (String × Challenge)
keep_keys p [] = []
keep_keys p ((k, c) ∷ cs) = let rest = keep_keys p cs in if p k then (k, c) ∷ rest else rest

abbrev pub is_own_challenge : (user_id key : String) → Bool
is_own_challenge user_id key =
    starts_with (codes ("reauth:" <> user_id <> ":")) (codes key)
    || (key === ("add:" <> user_id))
    || (key === ("login:" <> user_id))

-- `rotateAfterAuthenticationChange`, for the digest of the new token
unfoldable pub rotate :
    (now session_hours : ℕ) (user_id session_key : String) → Grants × Db → Grants × Db
rotate now session_hours user_id session_key (grants, db) =
    let db' : Db = record db {
      sessions = keep (λ (s : Session). not (s.user_id === user_id)) db.sessions;
      challenges = keep_keys (λ k. not (is_own_challenge user_id k)) db.challenges;
    } in
    (revoke_user user_id grants, create_session now session_hours user_id session_key db')

-- What `currentUser` makes of the session that is found.
abbrev signed_in : (now : ℕ) → List User → Option Session → Option User
signed_in now users none = none
signed_in now users (some s) =
    if leb s.expires_at now then none else find? (λ (u : User). u.id === s.user_id) users

current_user_lem :
    (now : ℕ) (k : String) (db : Db)
    → current_user now k db ≡ signed_in now db.users (lookup k db.sessions)
unfolding current_user
current_user_lem now k db = ground arith

abbrev is_live : ℕ → Session → Bool
is_live now s = not (leb s.expires_at now)

signed_in-kept :
    (now : ℕ) (users : List User) (o : Option Session)
    → signed_in now users (kept (is_live now) o) ≡ signed_in now users o
signed_in-kept now users none = refl
signed_in-kept now users (some s) = ground arith

-- Signing in: the new token signs its user in, and every other token stands for whom it stood for.
pub current_user-create_session :
    (now hours : ℕ) (user_id key other : String) (db : Db)
    → Distinct db.sessions
    → 0 < hours
    → current_user now other (create_session now hours user_id key db) ≡ (
        if key === other
        then find? (λ (u : User). u.id === user_id) db.users
        else current_user now other db)
unfolding create_session
current_user-create_session now hours user_id key other db d h =
    let live = keep (is_live now) db.sessions in
    let session : Session = record { user_id = user_id; expires_at = now + hours * 3_600_000 } in
    rw
      (
        current_user_lem now other (create_session now hours user_id key db),
        create_session,
        current_user_lem now other db,
        lookup-insert key other session live,
        lookup-keep (is_live now) other db.sessions d,
      )
      (elim (Bool-cases (key === other)) [
        | inl same ↦ rw same (ground (arith, h))
        | inr apart ↦ rw apart (signed_in-kept now db.users (lookup other db.sessions))
      ])

-- Signing out ends the session of its token and no other.
pub current_user-logout :
    (now : ℕ) (key other : String) (grants : Grants) (db : Db)
    → current_user now other (logout key (grants, db)).1
      ≡ (if key === other then none else current_user now other db)
unfolding logout
current_user-logout now key other grants db =
    rw
      (
        current_user_lem now other (logout key (grants, db)).1,
        logout,
        current_user_lem now other db,
        lookup-erase key other db.sessions,
      )
      (elim (Bool-cases (key === other)) [ inl same ↦ rw same refl | inr apart ↦ rw apart refl ])

-- The user, unless it is the one who was rotated.
abbrev pub other_than : String → Option User → Option User
other_than user_id none = none
other_than user_id (some u) = if u.id === user_id then none else some u

other_than-signed_in :
    (now : ℕ) (user_id : String) (users : List User) (o : Option Session)
    → signed_in now users (kept (λ (s : Session). not (s.user_id === user_id)) o)
      ≡ other_than user_id (signed_in now users o)
other_than-signed_in now user_id users none = refl
other_than-signed_in now user_id users (some s) =
    elim (Option-cases (find? (λ (u : User). u.id === s.user_id) users)) [
      | inl missing ↦ ground (arith, missing)
      | inr (u, found) ↦
          let same = find?-sound (λ (u : User). u.id === s.user_id) users u found in
          ground (arith, found, same)
    ]

-- After a change of a user's authentication every token that stood for the user stands for nobody,
-- but for the new one; a token of another user stands for whom it stood for.
pub current_user-rotate :
    (now hours : ℕ) (user_id key other : String) (grants : Grants) (db : Db)
    → Distinct db.sessions
    → 0 < hours
    → current_user now other (rotate now hours user_id key (grants, db)).1 ≡ (
        if key === other
        then find? (λ (u : User). u.id === user_id) db.users
        else other_than user_id (current_user now other db))
unfolding rotate
current_user-rotate now hours user_id key other grants db d h =
    let mine = λ (s : Session). not (s.user_id === user_id) in
    let db' : Db = record db {
      sessions = keep mine db.sessions;
      challenges = keep_keys (λ k. not (is_own_challenge user_id k)) db.challenges;
    } in
    let made =
      current_user-create_session now hours user_id key other db' (keep-Distinct mine db.sessions d)
        h in
    let was = current_user_lem now other db' in
    let is = current_user_lem now other db in
    let found = lookup-keep mine other db.sessions d in
    let changed = other_than-signed_in now user_id db.users (lookup other db.sessions) in
    let rest : current_user now other db' ≡ other_than user_id (current_user now other db) =
      was ∙ ap (signed_in now db.users) found ∙ changed ∙ ap (other_than user_id) (sym is) in
    made
    ∙ ap
        (λ (o : Option User).
          if key === other then find? (λ (u : User). u.id === user_id) db.users else o)
        rest
