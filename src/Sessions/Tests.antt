-- ===== src/Sessions/Tests.antt =====
-- The theorems on attempts and sessions at small tables.
use Prim.Native.String.{◌++◌ as ◌<>◌}
use mqtt_trust_gateway.Sessions.Cookies.{lacks, session_key, current_user-session_key}
use mqtt_trust_gateway.Base.{
  ℕ, ◌-◌, ◌≤◌, String, ◌≡◌, refl, true, none, some, List, [], ◌∷◌, ◌===◌, if◌then◌else◌, lookup,
  insert, keep, dec_text, Distinct, find?, arith,
}
use mqtt_trust_gateway.Db.{Db, User, Session, empty}
use mqtt_trust_gateway.Sessions.{Attempt, rate_limit, current_user, create_session}
use mqtt_trust_gateway.Sessions.Attempts.{HasRoom, passes, passes-le}
use mqtt_trust_gateway.Sessions.Rotation.{rotate, other_than, current_user-rotate}

abbrev used : Attempt
used = record { count = 8; until = 70_000 }

abbrev attempts : List (String × Attempt)
attempts = ("10.0.0.1:/login", used) ∷ []

abbrev requests : List (ℕ × String)
requests = (100, "10.0.0.1:/login") ∷ (200, "10.0.0.2:/login") ∷ (300, "10.0.0.1:/login") ∷ []

attempts-Distinct : Distinct attempts
unfolding lookup
attempts-Distinct = (refl, tt)

attempts-found : lookup "10.0.0.1:/login" attempts ≡ some used
unfolding lookup dec_text
attempts-found = refl

attempts-HasRoom : HasRoom requests attempts
unfolding rate_limit lookup insert keep dec_text
attempts-HasRoom = (omega arith, (omega arith, (omega arith, tt)))

passes-le_example : passes "10.0.0.1:/login" requests attempts ≤ 10 - 8
passes-le_example =
    passes-le "10.0.0.1:/login" requests attempts used attempts-Distinct attempts-found
      (omega arith, (omega arith, (omega arith, tt))) attempts-HasRoom

abbrev account : String → User
account id = record {
  id = id;
  username = id;
  password_hash = none;
  credentials = [];
  legacy_credential = none;
  totp = none;
  pending_totp = none;
  sensitive_preferences = none;
  created_at = 0;
}

abbrev session_of : String → Session
session_of id = record { user_id = id; expires_at = 9000 }

abbrev two_users : Db
two_users = record empty {
  users = account "ana" ∷ account "ben" ∷ [];
  sessions = ("k1", session_of "ana") ∷ ("k2", session_of "ben") ∷ [];
}

sessions-Distinct : Distinct two_users.sessions
unfolding lookup dec_text
sessions-Distinct = (refl, (refl, tt))

cookie_whole : lacks b';' (" admin_session" <> ("=" <> "t0ken")) ≡ true
cookie_whole = refl

current_user-session_key_example :
    current_user 1000
      (session_key (λ t. t) some ("theme=dark" <> (";" <> (" admin_session" <> ("=" <> "t0ken")))))
      (create_session 1000 12 "ben" "t0ken" two_users)
    ≡ find? (λ (u : User). u.id === "ben") two_users.users
current_user-session_key_example =
    current_user-session_key (λ t. t) some "theme=dark" "t0ken" 1000 12 "ben" two_users cookie_whole
      refl sessions-Distinct (omega arith)

current_user-rotate_example :
    current_user 1000 "k1" (rotate 1000 12 "ana" "k3" ([], two_users)).1 ≡ (
      if "k3" === "k1"
      then find? (λ (u : User). u.id === "ana") two_users.users
      else other_than "ana" (current_user 1000 "k1" two_users))
current_user-rotate_example =
    current_user-rotate 1000 12 "ana" "k3" "k1" [] two_users sessions-Distinct (omega arith)
