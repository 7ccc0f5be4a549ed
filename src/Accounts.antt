-- ===== src/Accounts.antt =====
-- The accounts of the administrators: what the routes of admin-web/src/routes/auth-routes.js share. A
-- text that a body lacks is taken as the empty one, which every check refuses in the same way.
pub mod SignIn
pub mod Codes
pub mod Passkeys
pub mod Requests
pub mod Machine
pub mod Views
pub mod Refinement
pub mod Transitions
pub mod Changes
pub mod Steps
pub mod Invariant
pub mod Opening
pub mod Grounds
pub mod Fresh
mod Tests
use Prim.Native.String.{◌++◌ as ◌<>◌}
use mqtt_trust_gateway.Base.{
  ℕ, ◌+◌, String, Bool, true, false, ◌&&◌, ◌||◌, not, Option, none, some, List, [], ◌∷◌, leb, ltb,
  ◌==◌, ◌===◌, if◌then◌else◌, codes, length, all, find?, modify, lookup, insert, erase, keep, trim,
  Result, ok, err,
}
use mqtt_trust_gateway.Db.{Db, User, Totp, Challenge}
use mqtt_trust_gateway.Db.Audit.{Entry, audit}
use mqtt_trust_gateway.Grants.{Grants}
use mqtt_trust_gateway.Reauth.{
  Checks, Proof, Verified, is_digit, is_empty, user_credentials, verify_reauthentication,
}
use mqtt_trust_gateway.Sessions.{current_user, create_session}
use mqtt_trust_gateway.Sessions.Rotation.{rotate}

-- The document, the audit table, the grants in memory, and the file `bootstrap-token`.
pub record Server : Type 0 where
  pub db : Db
  pub audit_log : List Entry
  pub grants : Grants
  pub bootstrap_token : Option String

-- The packages: the checks of a proof, the hash of a password, SHA-256, the check of a new passkey's
-- answer to a challenge (its public key and counter), and the sealed secret of a new set of codes.
pub record Packages : Type 0 where
  pub checks : Checks
  pub argon2_hash : String → String
  pub sha256 : String → String
  pub register : (challenge response : String) → Option (String × ℕ)
  pub sealed : String → String

-- What a request brings and draws: the clock, the settings, its address, whether it may use passkeys,
-- the digest of its token, that of the token it may be given, an identifier and a challenge.
pub record Visit : Type 0 where
  pub now : ℕ
  pub session_hours : ℕ
  pub audit_days : ℕ
  pub ip : String
  pub is_secure : Bool
  pub session_key : String
  pub new_key : String
  pub new_id : String
  pub drawn : String

-- `password`
unfoldable pub password : String → Result String
password value =
    if ltb (length (codes value)) 12 || ltb 256 (length (codes value))
    then err 400 "Password must contain 12–256 characters"
    else ok value

-- `matchesBootstrapToken`
unfoldable pub matches_bootstrap_token : (value expected : String) → Bool
matches_bootstrap_token value expected =
    ltb 0 (length (codes (trim expected))) && (trim value === trim expected)

-- /^[A-Za-z0-9._@-]$/
abbrev is_name_char : ℕ → Bool
is_name_char c =
    (leb b'A' c && leb c b'Z')
    || (leb b'a' c && leb c b'z')
    || is_digit c
    || c == b'.'
    || c == b'_'
    || c == b'@'
    || c == b'-'

unfoldable pub is_username : String → Bool
is_username s = let n = length (codes s) in leb 1 n && leb n 64 && all is_name_char (codes s)

-- `passkeyContext`
abbrev pub passkey_context {ℓ} :
    {A : Type ℓ} → Visit → (Server → Result A × Server) → Server → Result A × Server
passkey_context x next s =
    if x.is_secure then next s else (err 403 "Passkeys require HTTPS or localhost", s)

abbrev pub log : Visit → (actor action detail : String) → Server → Server
log x actor action detail s = record s {
  audit_log = audit x.now x.audit_days actor action detail s.audit_log;
}

-- `challenge`: what waits under the key is used up, and is too old only after its last instant.
unfoldable pub use_challenge : (now : ℕ) (key : String) → Db → Result String × Db
use_challenge now key db =
    let db' : Db = record db { challenges = erase key db.challenges } in
    elim (lookup key db.challenges) [
      | none ↦ (err 400 "Challenge expired", db')
      | some c ↦
          if ltb c.expires_at now then (err 400 "Challenge expired", db') else (ok c.challenge, db')
    ]

-- `storeChallenge`
unfoldable pub store_challenge : (now : ℕ) (key drawn : String) → Db → Db
store_challenge now key drawn db =
    let live = keep (λ (c : Challenge). not (ltb c.expires_at now)) db.challenges in
    let made : Challenge = record { challenge = drawn; expires_at = now + 300_000 } in
    record db { challenges = insert key made live }

-- The user whose token it is is looked up again in the document that is changed.
unfoldable pub require_auth {ℓ} :
    {A : Type ℓ} → Visit → (User → Server → Result A × Server) → Server → Result A × Server
require_auth x handler s = elim (current_user x.now x.session_key s.db) [
  | none ↦ (err 401 "Authentication required", s)
  | some u ↦ elim (find? (λ (v : User). v.id === u.id) s.db.users) [
    | none ↦ (err 500 "Internal error", s)
    | some own ↦ handler own s
  ]
]

-- A change to the object that `find` returned for the identifier.
abbrev pub put_user : User → Db → Db
put_user u db = record db { users = modify (λ (v : User). v.id === u.id) (λ v. u) db.users }

-- `challengeKey` of admin-web/src/reauth.js
abbrev pub challenge_key : Packages → Visit → User → (operation : String) → String
challenge_key k x u operation =
    "reauth:" <> u.id <> ":" <> x.session_key <> ":" <> k.sha256 operation

-- `verifyReauthentication` in a route: the challenges that are left are saved, also on failure, and the
-- user that is left goes to what follows, which saves it.
unfoldable pub fresh {ℓ} :
    {A : Type ℓ}
    → Packages
    → Visit
    → (operation : String) → (require_totp : Bool) → Proof
    → (User → Server → Result A × Server)
    → User
    → Server
    → Result A × Server
fresh k x operation require_totp proof next u s =
    let proved =
      verify_reauthentication k.checks x.now require_totp (challenge_key k x u operation) proof u
        s.db.challenges in
    let after =
      log x u.username proved.action operation
        (record s { db = record (s.db) { challenges = proved.challenges } }) in
    if proved.passed then next proved.user after else (err 403 "Fresh authentication failed", after)

-- `rotateAfterAuthenticationChange`, after the user is changed
unfoldable pub rotated : Visit → User → Server → Server
rotated x u s =
    let r = rotate x.now x.session_hours u.id x.new_key (s.grants, put_user u s.db) in
    record s { grants = r.0; db = r.1 }

-- A session for a user, whose object the document holds changed: `createSession`, then `saveDb`.
unfoldable pub signed_in : Visit → User → Server → Server
signed_in x u s = record s { db = create_session x.now x.session_hours u.id x.new_key s.db }
