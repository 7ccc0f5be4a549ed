-- ===== src/Sessions.antt =====
-- Sign-in attempts and sessions: admin-web/src/auth.js. The digest of a session token is the key of
-- its session; `none` is a request without the cookie, for which the digest is that of the empty text.
pub mod Attempts
pub mod Rotation
pub mod Cookies
mod Tests
use mqtt_trust_gateway.Base.{
  ℕ, ◌+◌, ◌*◌, String, Bool, true, false, not, Option, none, some, List, [], ◌∷◌, ltb, leb, ◌===◌,
  ◌==◌, ◌&&◌, ◌||◌, if◌then◌else◌, codes, length, find?, lookup, insert, erase, keep,
}
use mqtt_trust_gateway.Db.{Db, User, Session, Challenge}
use mqtt_trust_gateway.Grants.{Grants, revoke_user, revoke_session}

pub record Attempt : Type 0 where
  pub count : ℕ
  pub until : ℕ

abbrev pub first_attempt : ℕ → Attempt
first_attempt now = record { count = 0; until = now + 60_000 }

abbrev pub or_first : ℕ → Option Attempt → Attempt
or_first now none = first_attempt now
or_first now (some a) = a

abbrev pub remove_oldest {ℓ} : {A : Type ℓ} → List A → List A
remove_oldest [] = []
remove_oldest (x ∷ xs) = xs

-- `rateLimit`, for the key made of the address and the path: whether the request goes on, and the map
unfoldable pub rate_limit :
    (now : ℕ) (key : String) → List (String × Attempt) → Bool × List (String × Attempt)
rate_limit now key attempts =
    let live = keep (λ (a : Attempt). not (ltb a.until now)) attempts in
    let entry = or_first now (lookup key live) in
    let counted : Attempt = record entry { count = entry.count + 1 } in
    let stored = insert key counted live in
    (not (ltb 10 counted.count), if ltb 10000 (length stored) then remove_oldest stored else stored)

-- `currentUser`, for the digest of the request's token
unfoldable pub current_user : (now : ℕ) (session_key : String) → Db → Option User
current_user now session_key db = elim (lookup session_key db.sessions) [
  | none ↦ none
  | some s ↦
      if leb s.expires_at now then none else find? (λ (u : User). u.id === s.user_id) db.users
]

-- `createSession`, for the digest of the new token
unfoldable pub create_session : (now session_hours : ℕ) (user_id session_key : String) → Db → Db
create_session now session_hours user_id session_key db =
    let live = keep (λ (s : Session). not (leb s.expires_at now)) db.sessions in
    let session : Session = record {
      user_id = user_id;
      expires_at = now + session_hours * 3_600_000;
    } in
    record db { sessions = insert session_key session live }

-- `logout`: the grants of the session go with it.
unfoldable pub logout : (session_key : String) → Grants × Db → Grants × Db
logout session_key (grants, db) =
    (revoke_session session_key grants, record db { sessions = erase session_key db.sessions })

abbrev pub starts_with : List ℕ → List ℕ → Bool
starts_with [] cs = true
starts_with (p ∷ ps) [] = false
starts_with (p ∷ ps) (c ∷ cs) = (p == c) && starts_with ps cs
