-- ===== src/Accounts/Codes.antt =====
-- Changing the password, and setting up and taking away the codes of an authenticator.
use mqtt_trust_gateway.Base.{
  ◌+◌, String, ◌||◌, not, Option, none, some, ltb, ◌===◌, if◌then◌else◌, Result, ok, err,
}
use mqtt_trust_gateway.Db.{User, Totp, PendingTotp}
use mqtt_trust_gateway.Reauth.{Proof, has_totp, requires_totp, verify_totp}
use mqtt_trust_gateway.Accounts.{
  Server, Packages, Visit, password, log, require_auth, fresh, put_user, rotated,
}

-- POST /api/me/password; `proof` is `reauth` of the body, or made of its two older fields
unfoldable pub change_password :
    Packages → Visit → (given : String) → Proof → Server → Result User × Server
change_password k x given proof s =
    require_auth x
      (λ (u : User) s. elim (password given) [
        | err status message ↦ (err status message, s)
        | ok chosen ↦
            fresh k x "change-password" (requires_totp u) proof
              (λ u s.
                let u' : User = record u { password_hash = some (k.argon2_hash chosen) } in
                (ok u', log x u'.username "password.changed" "" (rotated x u' s)))
              u s
      ])
      s

-- `enrollTotp`, for the session that asks
abbrev pub enroll_totp : Packages → Visit → User → PendingTotp
enroll_totp k x u = record {
  encrypted = k.sealed x.drawn;
  last_step = none;
  expires_at = x.now + 600_000;
  session_id = x.session_key;
}

-- POST /api/me/totp/options
unfoldable pub totp_options : Packages → Visit → Proof → Server → Result User × Server
totp_options k x proof s =
    require_auth x
      (λ (u : User) s.
        if has_totp u
        then (err 409 "Disable the existing authenticator before replacing it", s)
        else fresh k x "enable-totp" (requires_totp u) proof
            (λ u s.
              let u' : User = record u { pending_totp = some (enroll_totp k x u) } in
              (ok u', record s { db = put_user u' s.db }))
            u s)
      s

abbrev pub as_totp : PendingTotp → Totp
as_totp p = record { encrypted = p.encrypted; last_step = p.last_step }

-- What the code leaves of the set of codes that waits for this session.
unfoldable pub pending_answer : Packages → Visit → (code : String) → User → Option Totp
pending_answer k x code u = elim u.pending_totp [
  | none ↦ none
  | some p ↦
      if not (p.session_id === x.session_key) || ltb p.expires_at x.now
      then none
      else verify_totp k.checks (as_totp p) code x.now
]

-- POST /api/me/totp/verify
unfoldable pub totp_verify : Packages → Visit → (code : String) → Server → Result User × Server
totp_verify k x code s =
    require_auth x
      (λ (u : User) s. elim (pending_answer k x code u) [
        | none ↦ (err 400 "Invalid or expired authenticator code", s)
        | some t ↦
            let u' : User = record u { totp = some t; pending_totp = none } in
            (ok u', log x u'.username "totp.enabled" "" (record s { db = put_user u' s.db }))
      ])
      s

-- DELETE /api/me/totp
unfoldable pub totp_delete : Packages → Visit → Proof → Server → Result User × Server
totp_delete k x proof s =
    require_auth x
      (λ (u : User) s.
        if not (has_totp u)
        then (err 409 "Authenticator is not enabled", s)
        else fresh k x "disable-totp" (requires_totp u) proof
            (λ u s.
              let u' : User = record u { totp = none; pending_totp = none } in
              (ok u', log x u'.username "totp.disabled" "" (rotated x u' s)))
            u s)
      s
