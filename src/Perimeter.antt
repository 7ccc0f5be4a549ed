-- ===== src/Perimeter.antt =====
-- The checks that every request passes first, in admin-web/src/server.js: transport, origin, content
-- type and update maintenance. What Express reads of a request is an argument.
pub mod Mutations
mod Tests
use mqtt_trust_gateway.Base.{
  ℕ, String, Bool, true, false, ◌&&◌, ◌||◌, not, Option, none, some, List, [], ◌∷◌, ◌===◌,
  if◌then◌else◌, any,
}

pub record HttpRequest : Type 0 where
  pub method : String
  pub secure : Bool
  pub hostname : String
  pub origin : Option String
  pub is_json : Bool
  pub is_api : Bool

-- `env.allowedOrigins`, the host name of `env.origin`, and `updateMaintenance()`
pub record Setting : Type 0 where
  pub allowed_origins : List String
  pub origin_hostname : String
  pub maintenance : Bool

pub data Verdict : Type 0 where
  passed : Verdict
  refused : ℕ → String → Verdict

abbrev pub among : String → List String → Bool
among s ts = any (λ (t : String). t === s) ts

abbrev pub is_local : String → Bool
is_local name = among name ("localhost" ∷ "127.0.0.1" ∷ "[::1]" ∷ [])

abbrev pub is_reading : String → Bool
is_reading method = among method ("GET" ∷ "HEAD" ∷ "OPTIONS" ∷ [])

-- an absent origin, and the empty one, count as none
abbrev pub has_foreign_origin : Setting → Option String → Bool
has_foreign_origin e none = false
has_foreign_origin e (some o) = not (o === "") && not (among o e.allowed_origins)

abbrev pub has_allowed_origin : Setting → Option String → Bool
has_allowed_origin e none = false
has_allowed_origin e (some o) = among o e.allowed_origins

unfoldable pub check_request : Setting → HttpRequest → Verdict
check_request e r =
    if not r.secure && not (is_local r.hostname && is_local e.origin_hostname)
    then refused 403 "Administrative access requires HTTPS. Use localhost for local setup."
    else if has_foreign_origin e r.origin
    then refused 403 "Origin is not allowed"
    else if not (is_reading r.method) && (not (has_allowed_origin e r.origin) || not r.is_json)
    then refused 403 "Mutation requires an allowed Origin and application/json"
    else if r.is_api && e.maintenance && not (is_reading r.method)
    then refused 503 "Gateway update maintenance is active"
    else passed
