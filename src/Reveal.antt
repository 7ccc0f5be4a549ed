-- ===== src/Reveal.antt =====
-- The routes that reveal and hide a sensitive scope: `POST /api/sensitive/reveal`, `POST
-- /api/sensitive/hide` and `PATCH /api/me/sensitive-preferences` of
-- admin-web/src/routes/sensitive-routes.js, for a user who is signed in.
pub mod Shown
mod Tests
use mqtt_trust_gateway.Base.{
  ℕ, ◌*◌, String, Bool, true, false, ◌&&◌, ◌||◌, not, Option, none, some, List, [], ◌∷◌, leb, ◌==◌,
  ◌===◌, if◌then◌else◌, any, Result, ok, err,
}
use mqtt_trust_gateway.Db.{User, Challenge, SensitivePreferences}
use mqtt_trust_gateway.Grants.{
  Identity, Grants, sensitive_scopes, allows, issue, revoke, revoke_session,
}
use mqtt_trust_gateway.Guard.{Visitor, identity}
use mqtt_trust_gateway.Reauth.{Checks, Proof, Verified, verify_reauthentication, requires_totp}

-- The clock, the two random tokens, the configured seconds, the end of the session and the key of the
-- challenge for the operation.
pub record Reading : Type 0 where
  pub now : ℕ
  pub verified_token : String
  pub scope_token : String
  pub reveal_seconds : ℕ
  pub session_expires_at : ℕ
  pub challenge_key : String

pub record State : Type 0 where
  pub user : User
  pub challenges : List (String × Challenge)
  pub grants : Grants

pub data Answer : Type 0 where
  refused : ℕ → Answer
  done : Answer
  revealed : (token : String) → (expires_at : ℕ) → Answer

abbrev pub is_scope : String → Bool
is_scope scope = any (λ (s : String). s === scope) sensitive_scopes

-- `user.sensitivePreferences?.requireAuthentication !== false`
abbrev pub requires_authentication : User → Bool
requires_authentication u = elim u.sensitive_preferences [
  | none ↦ true
  | some p ↦ p.require_authentication
]

-- `(user.sensitivePreferences?.timeoutSeconds || env.sensitiveRevealSeconds) * 1000`
abbrev pub lifetime_ms : User → ℕ → ℕ
lifetime_ms u default = elim u.sensitive_preferences [
  | none ↦ default * 1000
  | some p ↦ if p.timeout_seconds == 0 then default * 1000 else p.timeout_seconds * 1000
]

module _ (sha256 : String → String) (r : Reading) (v : Visitor) where
  -- The end of the reveal: the old grant of the scope goes, and a new one is issued.
  unfoldable pub open_scope : (scope : String) → State → Answer × State
  open_scope scope s =
      let kept = revoke sha256 (v.reveal_token scope) s.grants in
      let issued =
        issue sha256 r.now r.scope_token (identity s.user v scope) (some r.session_expires_at)
          (lifetime_ms s.user r.reveal_seconds) kept in
      elim issued.0 [
        | err status message ↦ (refused status, record s { grants = issued.1 })
        | ok (token, expires_at) ↦ (revealed token expires_at, record s { grants = issued.1 })
      ]

  -- A fresh authentication is granted for as long as the scope.
  unfoldable pub grant_authentication : (scope : String) → State → Answer × State
  grant_authentication scope s =
      let issued =
        issue sha256 r.now r.verified_token (identity s.user v "reveal-auth")
          (some r.session_expires_at) (lifetime_ms s.user r.reveal_seconds) s.grants in
      elim issued.0 [
        | err status message ↦ (refused status, record s { grants = issued.1 })
        | ok _ ↦ open_scope scope (record s { grants = issued.1 })
      ]

  unfoldable pub reveal : Checks → Proof → (scope : String) → State → Answer × State
  reveal checks proof scope s =
      if not (is_scope scope)
      then (refused 400, s)
      else let before =
          allows sha256 r.now (v.reveal_token "reveal-auth") (identity s.user v "reveal-auth")
            s.grants in
        let pruned : State = record s { grants = before.1 } in
        if not (requires_authentication s.user) || before.0
        then open_scope scope pruned
        else let proved =
            verify_reauthentication checks r.now true r.challenge_key proof s.user s.challenges in
          let after : State = record pruned {
            user = proved.user;
            challenges = proved.challenges;
          } in
          if proved.passed then grant_authentication scope after else (refused 403, after)

  abbrev pub revoke_all : List String → Grants → Grants
  revoke_all [] grants = grants
  revoke_all (scope ∷ scopes) grants =
      revoke_all scopes (revoke sha256 (v.reveal_token scope) grants)

  unfoldable pub hide : (scope : String) → State → Answer × State
  hide scope s =
      let scopes = if scope === "all" then sensitive_scopes else scope ∷ [] in
      if any (λ (t : String). not (is_scope t)) scopes
      then (refused 400, s)
      else (done, record s { grants = revoke_all scopes s.grants })

  -- `none` is a number of seconds that is not whole, or a policy that is no Boolean.
  unfoldable pub change_preferences :
      Checks → Proof → Option SensitivePreferences → State → Answer × State
  change_preferences checks proof none s = (refused 400, s)
  change_preferences checks proof (some p) s =
      if not (leb 1 p.timeout_seconds && leb p.timeout_seconds 300)
      then (refused 400, s)
      else let proved =
          verify_reauthentication checks r.now (requires_totp s.user) r.challenge_key proof s.user
            s.challenges in
        if not proved.passed then (refused 403, record s { challenges = proved.challenges }) else (
          done,
          record {
            user = record (proved.user) { sensitive_preferences = some p };
            challenges = proved.challenges;
            grants = revoke_session v.session_key s.grants;
          },
        )
