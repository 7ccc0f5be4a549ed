-- ===== src/Grants.antt =====
-- admin-web/src/sensitive-grants.js: the in-memory table of reveal grants. A method returns its
-- result and the table that it leaves; the clock is read once in a call.
pub mod Laws
pub mod Bounds
mod Tests
use mqtt_trust_gateway.Base.{
  ℕ, ◌+◌, String, Bool, false, ◌&&◌, ◌||◌, not, Option, none, some, List, [], ◌∷◌, min, ltb, leb,
  ◌===◌, if◌then◌else◌, codes, length, lookup, insert, erase, keep, Result, ok, err,
}

pub record Identity : Type 0 where
  pub user_id : String
  pub session_id : String
  pub scope : String

pub record Grant : Type 0 where
  pub user_id : String
  pub session_id : String
  pub scope : String
  pub expires_at : ℕ

-- keyed by the digest of the token
abbrev pub Grants : Type 0
Grants = List (String × Grant)

abbrev pub sensitive_scopes : List String
sensitive_scopes = "infrastructure" ∷ "devices" ∷ "mqtt" ∷ "audit" ∷ []

abbrev pub valid_lifetime : ℕ → Bool
valid_lifetime ms = leb 1000 ms && leb ms 300000

-- `createSensitiveGrants`
pub create_sensitive_grants : ℕ → Result Grants
create_sensitive_grants ttl_ms =
    if valid_lifetime ttl_ms
    then ok []
    else err 500 "Sensitive grant lifetime must be 1–300 seconds"

unfoldable pub prune : ℕ → Grants → Grants
prune now = keep (λ (g : Grant). not (leb g.expires_at now))

-- an absent session expiry is `Infinity`
abbrev pub deadline : ℕ → Option ℕ → ℕ
deadline t none = t
deadline t (some e) = min t e

abbrev pub matches : Identity → Option Grant → Bool
matches who none = false
matches who (some g) =
    (g.user_id === who.user_id) && (g.session_id === who.session_id) && (g.scope === who.scope)

abbrev pub grant_for : Identity → ℕ → Grant
grant_for who t = record {
  user_id = who.user_id;
  session_id = who.session_id;
  scope = who.scope;
  expires_at = t;
}

-- `crypto.createHash('sha256')` and the random token are parameters.
module _ (sha256 : String → String) where
  unfoldable pub issue :
      (now : ℕ) (token : String) (who : Identity) (session_expires_at : Option ℕ) (lifetime_ms : ℕ)
      → Grants
      → Result (String × ℕ) × Grants
  unfolding prune
  issue now token who session_expires_at lifetime_ms grants =
      if not (valid_lifetime lifetime_ms)
      then (err 500 "Invalid reveal lifetime", grants)
      else let live = prune now grants in
        if (who.user_id === "") || (who.session_id === "") || (who.scope === "")
        then (err 500 "Grant identity and scope required", live)
        else if leb 10000 (length live)
        then (err 500 "Too many active reveal grants", live)
        else let expires_at = deadline (now + lifetime_ms) session_expires_at in
          if leb expires_at now
          then (err 500 "Session expired", live)
          else (ok (token, expires_at), insert (sha256 token) (grant_for who expires_at) live)

  -- `none` is a request without the cookie, whose token is not a string.
  unfoldable pub allows : (now : ℕ) → Option String → Identity → Grants → Bool × Grants
  unfolding prune
  allows now none who grants = (false, prune now grants)
  allows now (some token) who grants =
      let live = prune now grants in
      if ltb 128 (length (codes token))
      then (false, live)
      else (matches who (lookup (sha256 token) live), live)

  unfoldable pub revoke : Option String → Grants → Grants
  revoke none grants = grants
  revoke (some token) grants = erase (sha256 token) grants

pub revoke_user : String → Grants → Grants
revoke_user user_id = keep (λ (g : Grant). not (g.user_id === user_id))

pub revoke_session : String → Grants → Grants
revoke_session session_id = keep (λ (g : Grant). not (g.session_id === session_id))
