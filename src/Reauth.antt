-- ===== src/Reauth.antt =====
-- Fresh authentication: admin-web/src/totp.js, reauth.js and the passkey list of passkeys.js. The
-- check of a code (package `otpauth`), of a password (`argon2`) and of a passkey's answer
-- (`@simplewebauthn/server`) are parameters, as is the decoding of `Buffer`.
pub mod Operations
pub mod Proofs
mod Tests
use mqtt_trust_gateway.Base.{
  ℕ, ◌+◌, ◌-◌, ◌/◌, String, Bool, true, false, ◌&&◌, ◌||◌, not, Option, none, some, List, [], ◌∷◌,
  ◌++◌, leb, ltb, ◌==◌, ◌===◌, if◌then◌else◌, codes, length, any, all, find?, lookup, erase, Result,
  ok, err,
}
use mqtt_trust_gateway.Db.{User, Totp, Challenge, Credential, LegacyCredential}

-- The step of a valid code, relative to the present one.
pub data Delta : Type 0 where
  earlier same later : Delta

-- What the packages answer.
pub record Checks : Type 0 where
  pub validate : (encrypted code : String) → (now : ℕ) → Option Delta
  pub argon2 : (hash password : String) → Bool
  pub passkey : (challenge : String) → Credential → (response : String) → Option ℕ
  pub decode : String → String

abbrev pub is_digit : ℕ → Bool
is_digit c = leb b'0' c && leb c b'9'

-- `Math.floor(now / 30000) + delta`
abbrev pub step_of : ℕ → Delta → ℕ
step_of now Delta.earlier = now / 30_000 - 1
step_of now Delta.same = now / 30_000
step_of now Delta.later = now / 30_000 + 1

-- `step <= (record.lastStep ?? -1)`
abbrev pub is_used : ℕ → Option ℕ → Bool
is_used step none = false
is_used step (some last) = leb step last

-- `verifyTotp`: the record with its last step moved on, or `none`
unfoldable pub verify_totp : Checks → Totp → (code : String) → (now : ℕ) → Option Totp
verify_totp k t code now =
    if not (length (codes code) == 6 && all is_digit (codes code))
    then none
    else elim (k.validate t.encrypted code now) [
      | none ↦ none
      | some delta ↦
          let step = step_of now delta in
          if is_used step t.last_step then none else some (record t { last_step = some step })
    ]

-- /^[A-Za-z0-9_-]{16,}$/
abbrev pub is_id_code : ℕ → Bool
is_id_code c =
    (leb b'A' c && leb c b'Z') || (leb b'a' c && leb c b'z') || is_digit c || c == b'_' || c == b'-'

unfoldable pub looks_like_credential_id : String → Bool
looks_like_credential_id s = leb 16 (length (codes s)) && all is_id_code (codes s)

unfoldable pub credential_id_candidates : (String → String) → String → List String
credential_id_candidates decode value =
    let decoded = decode value in
    let own = if looks_like_credential_id value then value ∷ [] else [] in
    if not (decoded === value) && looks_like_credential_id decoded then own ++ decoded ∷ [] else own

abbrev pub primary_passkey : ℕ → LegacyCredential → Credential
primary_passkey created_at c = record {
  id = c.id;
  public_key = c.public_key;
  counter = elim c.counter [ none ↦ 0 | some n ↦ n ];
  name = "Primary passkey";
  created_at = created_at;
}

-- `userCredentials`
unfoldable pub user_credentials : User → List Credential
user_credentials u = elim u.legacy_credential [
  | none ↦ u.credentials
  | some c ↦
      if any (λ (d : Credential). d.id === c.id) u.credentials
      then u.credentials
      else u.credentials ++ primary_passkey u.created_at c ∷ []
]

unfoldable pub find_user_credential : (String → String) → User → String → Option Credential
find_user_credential decode u id =
    find? (λ (c : Credential). any (λ s. s === id) (credential_id_candidates decode c.id))
      (user_credentials u)

-- What the body holds under `reauth`; `none` is a value that is missing.
pub data Proof : Type 0 where
  password : (password : String) → (totp : String) → Proof
  passkey : (credential_id response : String) → Proof
  other : Proof

-- What `verifyReauthentication` leaves: its answer, the user, the challenges and the audit action.
pub record Verified : Type 0 where
  pub passed : Bool
  pub user : User
  pub challenges : List (String × Challenge)
  pub action : String

abbrev pub has_totp : User → Bool
has_totp u = elim u.totp [ none ↦ false | some t ↦ true ]

abbrev pub is_empty {ℓ} : {A : Type ℓ} → List A → Bool
is_empty [] = true
is_empty (x ∷ xs) = false

-- The default of `requireTotp`.
abbrev pub requires_totp : User → Bool
requires_totp u = has_totp u || not (is_empty (user_credentials u))

abbrev pub password_ok : Checks → User → String → Bool
password_ok k u given = elim u.password_hash [
  | none ↦ false
  | some hash ↦ not (hash === "") && leb (length (codes given)) 256 && k.argon2 hash given
]

-- The last condition on a password: the user without a code to give, or with its code used up.
abbrev pub totp_step : Checks → ℕ → String → User → Option User
totp_step k now code u = elim u.totp [
  | none ↦ some u
  | some t ↦ elim (verify_totp k t code now) [
    | none ↦ none
    | some t' ↦ some (record u { totp = some t' })
  ]
]

abbrev pub set_counter : String → ℕ → List Credential → List Credential
set_counter id n [] = []
set_counter id n (c ∷ cs) =
    if c.id === id then record c { counter = n } ∷ cs else c ∷ set_counter id n cs

abbrev pub pending_challenge : ℕ → Option Challenge → Option String
pending_challenge now none = none
pending_challenge now (some c) = if leb c.expires_at now then none else some c.challenge

-- The credential whose answer is right, and its new counter.
unfoldable pub passkey_answer :
    Checks
    → (now : ℕ) → User
    → Option Challenge
    → (credential_id response : String) → Option (Credential × ℕ)
passkey_answer k now u found id response = elim (pending_challenge now found) [
  | none ↦ none
  | some challenge ↦ elim (find_user_credential k.decode u id) [
    | none ↦ none
    | some c ↦ elim (k.passkey challenge c response) [ none ↦ none | some n ↦ some (c, n) ]
  ]
]

-- `verifyReauthentication`, for the key of the operation's challenge
unfoldable pub verify_reauthentication :
    Checks
    → (now : ℕ) → (require_totp : Bool) → (challenge_key : String) → Proof
    → User
    → List (String × Challenge)
    → Verified
verify_reauthentication k now require_totp key (password given code) u cs =
    let failed : Verified = record {
      passed = false;
      user = u;
      challenges = cs;
      action = "reauth.failed";
    } in
    if require_totp && not (has_totp u)
    then failed
    else if not (password_ok k u given)
    then failed
    else elim (totp_step k now code u) [
      | none ↦ failed
      | some u' ↦ record { passed = true; user = u'; challenges = cs; action = "reauth.verified" }
    ]
verify_reauthentication k now require_totp key (passkey id response) u cs =
    let cs' = erase key cs in
    elim (passkey_answer k now u (lookup key cs) id response) [
      | none ↦ record { passed = false; user = u; challenges = cs'; action = "reauth.failed" }
      | some (c, n) ↦ record {
        passed = true;
        user = record u { credentials = set_counter c.id n (user_credentials u) };
        challenges = cs';
        action = "reauth.verified";
      }
    ]
verify_reauthentication k now require_totp key other u cs = record {
  passed = false;
  user = u;
  challenges = cs;
  action = "reauth.failed";
}
