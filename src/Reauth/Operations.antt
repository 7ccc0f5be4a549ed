-- ===== src/Reauth/Operations.antt =====
-- The operations that ask for a fresh authentication, and the challenge that is made for one:
-- `authenticationOperation` and `reauthenticationOptions` of admin-web/src/reauth.js.
use Prim.Native.String.{◌++◌ as ◌<>◌}
use mqtt_trust_gateway.Base.{
  ℕ, ◌+◌, String, Bool, true, false, ◌&&◌, ◌||◌, not, Option, none, some, List, [], ◌∷◌, leb, ltb,
  ◌==◌, ◌===◌, if◌then◌else◌, codes, length, all, any, insert, keep, Result, ok, err,
}
use mqtt_trust_gateway.Db.{User, Challenge}
use mqtt_trust_gateway.Grants.{sensitive_scopes}
use mqtt_trust_gateway.Releases.{span, after_dot, is_tag_char}
use mqtt_trust_gateway.Reauth.{is_digit, is_empty, user_credentials}

abbrev pub one_of : List String → String → Bool
one_of names s = any (λ (n : String). n === s) names

-- `\d+`, and what follows it
abbrev pub digits : List ℕ → Option (List ℕ)
digits cs = let r = span is_digit cs in if is_empty r.0 then none else some r.1

abbrev pub chain {ℓ κ} : {A : Type ℓ} {B : Type κ} → Option A → (A → Option B) → Option B
chain none f = none
chain (some a) f = f a

-- `(?:-[0-9A-Za-z.-]+)?$`
abbrev pub is_suffix : List ℕ → Bool
is_suffix [] = true
is_suffix (c ∷ cs) = (c == b'-') && not (is_empty cs) && all is_tag_char cs

abbrev pub version_suffix : List ℕ → Option (List ℕ)
version_suffix cs =
    chain (digits cs)
      λ a. chain (after_dot a) λ b. chain (digits b) λ c. chain (after_dot c) λ d. digits d

unfoldable pub is_version : String → Bool
is_version s = elim (version_suffix (codes s)) [ none ↦ false | some rest ↦ is_suffix rest ]

-- /[a-f0-9-]/
abbrev pub is_uuid_char : ℕ → Bool
is_uuid_char c = (leb b'a' c && leb c b'f') || is_digit c || c == b'-'

abbrev pub plain_operations : List String
plain_operations =
    "disable-totp" ∷ "change-password" ∷ "add-passkey" ∷ "enable-totp" ∷ "sensitive-settings" ∷ []

unfoldable pub authentication_operation : (action target : String) → Result String
authentication_operation action target =
    if (action === "reveal") && one_of sensitive_scopes target
    then ok ("reveal:" <> target)
    else if (action === "install-update") && is_version target && leb (length (codes target)) 80
    then ok ("install-update:" <> target)
    else if (action === "rollback-update")
        && (length (codes target) == 36)
        && all is_uuid_char (codes target)
    then ok ("rollback-update:" <> target)
    else if one_of plain_operations action && (target === "")
    then ok action
    else if (action === "remove-passkey")
        && ltb 0 (length (codes target))
        && leb (length (codes target)) 1024
    then ok ("remove-passkey:" <> target)
    else err 400 "Invalid authentication change"

-- For the challenge that the package drew, and the key of the operation.
unfoldable pub reauthentication_options :
    (now : ℕ) (key drawn : String)
    → User
    → List (String × Challenge)
    → Result (Unit {0}) × List (String × Challenge)
reauthentication_options now key drawn u cs =
    if is_empty (user_credentials u)
    then (err 409 "No passkey is available for verification", cs)
    else let entry : Challenge = record { challenge = drawn; expires_at = now + 120_000 } in
      (ok tt, insert key entry (keep (λ (c : Challenge). not (ltb c.expires_at now)) cs))
