-- ===== src/Guard.antt =====
-- The guard of the sensitive routes: admin-web/src/sensitive-access.js. A path is the one below /api;
-- the digest of the session's token and the tokens of the reveal cookies are arguments.
pub mod Scopes
mod Tests
use mqtt_trust_gateway.Base.{
  ℕ, String, Bool, true, false, ◌&&◌, ◌||◌, not, Option, none, some, List, [], ◌∷◌, ◌==◌, ◌===◌,
  if◌then◌else◌, any, codes,
}
use mqtt_trust_gateway.Db.{Db, User}
use mqtt_trust_gateway.Grants.{Identity, Grants, allows}
use mqtt_trust_gateway.Sessions.{current_user}

-- /^\/name(\/|$)/
abbrev pub below : List ℕ → List ℕ → Bool
below [] [] = true
below [] (c ∷ cs) = c == b'/'
below (p ∷ ps) [] = false
below (p ∷ ps) (c ∷ cs) = (p == c) && below ps cs

abbrev pub is_below : String → String → Bool
is_below prefix path = below (codes prefix) (codes path)

abbrev pub ordinary_lists : List String
ordinary_lists = "/certificates" ∷ "/trusted-cas" ∷ "/mqtt/history" ∷ "/mqtt/events" ∷ []

-- `ordinaryDeviceOperation || ordinaryList`
unfoldable pub is_ordinary : (method path : String) → Bool
is_ordinary method path =
    is_below "/devices" path
    || ((method === "GET") && any (λ (p : String). p === path) ordinary_lists)

-- The scope that the path needs; a later condition overrides an earlier one.
unfoldable pub scope_of : (method path : String) → Option String
scope_of method path =
    if is_below "/audit" path || is_below "/logs" path
    then some "audit"
    else if is_below "/mqtt" path && (method === "GET")
    then some "mqtt"
    else if is_below "/devices" path
        || is_below "/trusted-cas" path
        || (is_below "/certificates" path && not (path === "/certificates/ca"))
    then some "devices"
    else none

-- `next()`, or the status of the refusal
pub data Passage : Type 0 where
  passed : Passage
  refused : ℕ → Passage

-- What the request carries.
pub record Visitor : Type 0 where
  pub session_key : String
  pub reveal_token : String → Option String

abbrev pub identity : User → Visitor → String → Identity
identity u v scope = record { user_id = u.id; session_id = v.session_key; scope = scope }

-- `requireSensitive`
unfoldable pub require_sensitive :
    (String → String) → (now : ℕ) → Visitor → (scope : String) → Db × Grants → Passage × Grants
require_sensitive sha256 now v scope (db, grants) = elim (current_user now v.session_key db) [
  | none ↦ (refused 401, grants)
  | some u ↦
      let r = allows sha256 now (v.reveal_token scope) (identity u v scope) grants in
      if r.0 then (passed, r.1) else (refused 403, r.1)
]

-- `guardSensitiveApi`
unfoldable pub guard_sensitive_api :
    (String → String)
    → (now : ℕ) → Visitor
    → (method path : String) → Db × Grants
    → Passage × Grants
guard_sensitive_api sha256 now v method path (db, grants) =
    if is_ordinary method path then (passed, grants) else elim (scope_of method path) [
      | none ↦ (passed, grants)
      | some scope ↦ require_sensitive sha256 now v scope (db, grants)
    ]
