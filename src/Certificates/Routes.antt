-- ===== src/Certificates/Routes.antt =====
-- The routes of admin-web/src/routes/certificate-routes.js that issue, renew and revoke certificates
-- and hand out private keys. Messages that name a value are kept without it.
use Prim.Native.String.{◌++◌ as ◌<>◌}
use mqtt_trust_gateway.Base.{
  ℕ, String, Bool, true, false, ◌&&◌, ◌||◌, not, Option, none, some, List, ◌===◌, if◌then◌else◌,
  trim, Result, ok, err,
}
use mqtt_trust_gateway.Db.{Db, Device, Certificate, CertificateStatus, Issuer}
use mqtt_trust_gateway.Broker.{
  Gateway, Context, is_active, is_active_certificate, stage_broker, log_action,
}
use mqtt_trust_gateway.Registry.{
  Response, done, refused, thrown, Openssl, device_record, update_device, is_internal, is_some,
  or_else,
}
use mqtt_trust_gateway.Certificates.{
  Identifier, value_id, Pki, Days, text_id, identifier_of, shown_id, owner, sign_device_csr,
  renew_device_certificate, certificate_is_in_crl, find_certificate, update_certificate, Issued,
  add_issued_record, includes_pem_csr,
}

-- `req.body.csr`
pub data CsrInput : Type 0 where
  missing not_text : CsrInput
  text : String → CsrInput

abbrev pub csr_text : CsrInput → String
csr_text (text s) = s
csr_text _ = ""

abbrev is_text : CsrInput → Bool
is_text (text s) = true
is_text _ = false

abbrev is_not_text : CsrInput → Bool
is_not_text not_text = true
is_not_text _ = false

pub record IssueBody : Type 0 where
  pub device_id : String
  pub csr : CsrInput
  pub days : Days

-- `!device || device.status !== 'active'`
abbrev pub is_provisionable : Option Device → Bool
is_provisionable none = false
is_provisionable (some d) = is_active d.status

-- What is signed or renewed goes to the list of the loaded database `db`, which is then saved; the
-- broker's files and the audit table follow.
unfoldable pub record_issued :
    Context → Pki → Issued → (action : String) → Db → Gateway → Response × Gateway
record_issued x pki i action db g = elim (add_issued_record x pki (x.uuid 0) i db) [
  | err c m ↦ (thrown c m, g)
  | ok (c, db') ↦
      let saved : Gateway = record g { db = db' } in
      let staged = stage_broker x false (x.uuid 1) saved in
      (done 200, log_action x action (shown_id db i.device_id <> ":" <> c.serial) staged)
]

abbrev pub signed_request : IssueBody → String → Issued
signed_request body pem = record {
  device_id = body.device_id;
  certificate = pem;
  method = "csr";
  issuer = Issuer.local;
  broker_trusted = true;
  csr = csr_text body.csr;
  renewed_from = "";
}

-- `issue` with no previous certificate: `POST /api/certificates/sign`
unfoldable pub sign_certificate : Context → Pki → IssueBody → Gateway → Response × Gateway
sign_certificate x pki body g =
    if not (is_provisionable (device_record g.db body.device_id))
    then (refused 409 "Register or restore the device before provisioning", g)
    else if not (is_text body.csr && includes_pem_csr (csr_text body.csr))
    then (refused 400 "A PEM CSR is required", g)
    else elim (sign_device_csr pki x.now g.ca_serial (text_id body.device_id) (csr_text body.csr)
        body.days) [
          | err c m ↦ (thrown c m, g)
          | ok (pem, serial) ↦
              record_issued x pki (signed_request body pem) "certificate.issued" g.db
                (record g { ca_serial = serial })
        ]

abbrev pub is_renewable : Certificate → Bool
is_renewable c =
    is_active_certificate c.status
    && not (is_some c.license_archived_at)
    && not (is_some c.license_deleted_at)
    && is_internal c.issuer

abbrev pub pem_of : Certificate → String
pem_of c = elim c.certificate [ none ↦ "" | some pem ↦ pem ]

-- A new key comes with a request; without one the registered public key is certified again.
unfoldable pub reissue :
    Pki → (now : ℕ) → IssueBody → (supplied : String) → Certificate → Gateway → Result String × ℕ
reissue pki now body supplied previous g =
    let device_id = identifier_of g.db previous.device_id in
    if supplied === ""
    then renew_device_certificate pki now g.crl g.ca_serial device_id (pem_of previous) body.days
    else elim (sign_device_csr pki now g.ca_serial device_id supplied body.days) [
      | err c m ↦ (err c m, g.ca_serial)
      | ok (pem, serial) ↦ (ok pem, serial)
    ]

abbrev pub renewal : (supplied pem : String) → Certificate → Issued
renewal supplied pem previous = record {
  device_id = previous.device_id;
  certificate = pem;
  method =
      if not (supplied === "")
      then "csr"
      else if previous.provisioning_method === ""
      then "csr"
      else previous.provisioning_method;
  issuer = Issuer.local;
  broker_trusted = previous.broker_trusted;
  csr = if supplied === "" then previous.csr else supplied;
  renewed_from = previous.id;
}

-- A value that `||` passes over.
abbrev is_falsy : Identifier → Bool
is_falsy (value_id s) = (s === "undefined") || (s === "null") || (s === "0") || (s === "false")
is_falsy _ = false

-- `previous?.deviceId || String(req.body.deviceId || '')`
abbrev pub renewed_id : Db → IssueBody → Certificate → String
renewed_id db body c =
    if is_falsy (identifier_of db c.device_id) then body.device_id else c.device_id

-- `issue` with a previous certificate: `POST /api/certificates/:id/renew`
unfoldable pub renew_certificate : Context → Pki → String → IssueBody → Gateway → Response × Gateway
renew_certificate x pki id body g = elim (find_certificate g.db id) [
  | none ↦ (thrown 404 "Certificate not found", g)
  | some found ↦
      let previous : Certificate = record found { device_id = renewed_id g.db body found } in
      if not (is_provisionable (owner g.db previous.device_id))
      then (refused 409 "Register or restore the device before provisioning", g)
      else if not (is_renewable previous)
      then (
        refused 409
            "Only active local-CA certificates can be renewed. External certificates must be renewed by their issuing CA.",
        g,
      )
      else if is_not_text body.csr
      then (refused 400 "A PEM CSR is required when rotating the device key", g)
      else let supplied = trim (csr_text body.csr) in
        if not (supplied === "") && not (includes_pem_csr supplied)
        then (refused 400 "A PEM CSR is required when rotating the device key", g)
        else let (result, serial) = reissue pki x.now body supplied previous g in
          let counted : Gateway = record g { ca_serial = serial } in
          elim result [
            | err c m ↦ (thrown c m, counted)
            | ok pem ↦
                record_issued x pki (renewal supplied pem previous) "certificate.renewed" g.db
                  counted
          ]
]

-- An active certificate becomes revoked; its device loses its access with it.
abbrev pub disable : Device → Device
disable d = record d { enabled = false; trusted = false }

abbrev pub revoked_now : Context → Certificate → Certificate
revoked_now x c = record c {
  status = CertificateStatus.revoked;
  revoked_at = some x.now;
  revoked_by = some x.actor;
}

abbrev pub is_revoked : CertificateStatus → Bool
is_revoked CertificateStatus.revoked = true
is_revoked _ = false

-- Whether the revocation list was brought up to date, and the list.
unfoldable pub try_revoke : Openssl → Certificate → List String → Bool × List String
try_revoke ssl c crl = elim (ssl crl c) [ none ↦ (false, crl) | some crl' ↦ (true, crl') ]

-- `POST /api/certificates/:id/revoke`
unfoldable pub revoke_route : Context → Openssl → String → Gateway → Response × Gateway
unfolding try_revoke
revoke_route x ssl id g = elim (find_certificate g.db id) [
  | none ↦ (thrown 404 "Certificate not found", g)
  | some c ↦
      if is_revoked c.status
      then (refused 409 "Certificate already revoked", g)
      else let tried = if is_internal c.issuer then try_revoke ssl c g.crl else (true, g.crl) in
        let db = update_device c.device_id disable (update_certificate id (revoked_now x) g.db) in
        let saved : Gateway = record g { db = db; crl = tried.1 } in
        let detail = shown_id g.db c.device_id <> ":" <> c.serial in
        let logged =
          log_action x "certificate.revoked" detail (stage_broker x true (x.uuid 0) saved) in
        (
          done 200,
          if tried.0 then logged else log_action x "certificate.crl_update_failed" detail logged,
        )
]

abbrev pub serial_or_id : Certificate → String
serial_or_id c = if c.serial === "" then c.id else c.serial

abbrev pub license_phrase : Bool → Certificate → String
license_phrase permanent c = (if permanent then "DELETE " else "ARCHIVE ") <> serial_or_id c

abbrev or_else_text : Option String → String → Option String
or_else_text none s = some s
or_else_text (some t) s = some t

abbrev pub license_removed : Context → Bool → Certificate → Certificate
license_removed x permanent c = record c {
  status = CertificateStatus.revoked;
  revoked_at = or_else c.revoked_at x.now;
  revoked_by = or_else_text c.revoked_by x.actor;
  license_archived_at = or_else c.license_archived_at x.now;
  license_deleted_at = if permanent then some x.now else c.license_deleted_at;
}

-- Whether the revocation list holds the certificate afterwards, and the list.
unfoldable pub block_license : Openssl → Certificate → List String → Bool × List String
unfolding try_revoke
block_license ssl c crl =
    if not (is_internal c.issuer)
    then (false, crl)
    else if certificate_is_in_crl crl c.serial
    then (true, crl)
    else try_revoke ssl c crl

-- `removeLicense`: `POST /api/certificates/:id/archive` and `DELETE /api/certificates/:id`
unfoldable pub remove_license :
    Context → Openssl → Bool → (id confirm : String) → Gateway → Response × Gateway
unfolding block_license
remove_license x ssl permanent id confirm g = elim (find_certificate g.db id) [
  | none ↦ (thrown 404 "Certificate not found", g)
  | some c ↦
      if not (confirm === license_phrase permanent c)
      then (refused 400 "Type the phrase to confirm", g)
      else if is_some c.license_deleted_at
      then (refused 409 "License already deleted", g)
      else let blocked = block_license ssl c g.crl in
        let db = update_certificate id (license_removed x permanent) g.db in
        let db' = if blocked.0 then db else update_device c.device_id disable db in
        let saved : Gateway = record g { db = db'; crl = blocked.1 } in
        let detail = shown_id g.db c.device_id <> ":" <> serial_or_id c in
        let action = if permanent then "license.deleted" else "license.archived" in
        (done 200, log_action x action detail (stage_broker x true (x.uuid 0) saved))
]
