-- ===== src/Certificates/External.antt =====
-- The routes of admin-web/src/routes/certificate-routes.js that make a key pair in the gateway: a
-- complete certificate, or a request for another authority with its private key delivered once.
use Prim.Native.String.{◌++◌ as ◌<>◌}
use mqtt_trust_gateway.Base.{
  ℕ, String, Bool, true, false, ◌||◌, not, Option, none, some, ◌∷◌, ◌===◌, if◌then◌else◌, filter,
  Result, ok, err, ◌>>=◌,
}
use mqtt_trust_gateway.Db.{Db, Device, Certificate, CertificateStatus, Issuer}
use mqtt_trust_gateway.Broker.{Gateway, Context, log_action}
use mqtt_trust_gateway.Keys.{
  put_pending, take_pending_private_key, confirm_pending_private_key, discard_pending_private_key,
}
use mqtt_trust_gateway.Registry.{Response, done, refused, thrown}
use mqtt_trust_gateway.Certificates.{
  Pki, Days, Issued, Identifier, shown, shown_id, owner, sign_device_csr, find_certificate,
  update_certificate, ensure_identity,
}
use mqtt_trust_gateway.Certificates.Routes.{record_issued, is_provisionable}

-- A pair drawn by `generateKeyPairSync`, and the request that OpenSSL makes of it.
pub record KeyPair : Type 0 where
  pub private_key : String
  pub public_key : String
  pub csr : String

pub record GenerateBody : Type 0 where
  pub id : Identifier
  pub name : String
  pub description : String
  pub algorithm : String
  pub days : Days

-- `generateKeyPair`
unfoldable pub generate_key_pair : KeyPair → String → Result KeyPair
generate_key_pair drawn algorithm =
    if (algorithm === "ecdsa-p256") || (algorithm === "rsa-2048")
    then ok drawn
    else err 500 "Select ECDSA P-256 or RSA-2048"

-- The device, the database with it, the certificate and the next serial number.
unfoldable pub generated :
    Context → Pki → KeyPair → GenerateBody → Gateway → Result (Device × Db × String × ℕ)
generated x pki drawn body g = do
  (device, db) ← ensure_identity x.now body.id body.name body.description g.db
  pair ← generate_key_pair drawn body.algorithm
  (pem, serial) ← sign_device_csr pki x.now g.ca_serial body.id pair.csr body.days
  ok (device, db, pem, serial)

abbrev pub generated_pair : (device_id pem : String) → Issued
generated_pair device_id pem = record {
  device_id = device_id;
  certificate = pem;
  method = "gateway-generated";
  issuer = Issuer.local;
  broker_trusted = true;
  csr = "";
  renewed_from = "";
}

-- `POST /api/certificates/generate`
unfoldable pub generate_certificate :
    Context → Pki → KeyPair → GenerateBody → Gateway → Response × Gateway
generate_certificate x pki drawn body g = elim (generated x pki drawn body g) [
  | err c m ↦ (thrown c m, g)
  | ok (device, db, pem, serial) ↦
      record_issued x pki (generated_pair device.id pem) "certificate.generated" db
        (record g { ca_serial = serial })
]

abbrev pub pending_record : Context → (id device_id : String) → KeyPair → Certificate
pending_record x id device_id pair = record {
  id = id;
  device_id = device_id;
  certificate = none;
  chain = "";
  csr = pair.csr;
  public_key = some pair.public_key;
  status = CertificateStatus.pending_external_signature;
  provisioning_method = "external-csr";
  serial = "";
  fingerprint = "";
  valid_to = none;
  issuer = Issuer.legacy;
  issuer_fingerprint = none;
  broker_trusted = true;
  issued_at = x.now;
  issued_by = x.actor;
  renewed_from = "";
  revoked_at = none;
  revoked_by = none;
  block_reason = none;
  license_archived_at = none;
  license_deleted_at = none;
  private_key_received = false;
  completed_at = none;
}

unfoldable pub prepared :
    Context → KeyPair → GenerateBody → Gateway → Result (Device × Db × KeyPair)
prepared x drawn body g = do
  (device, db) ← ensure_identity x.now body.id body.name body.description g.db
  pair ← generate_key_pair drawn body.algorithm
  ok (device, db, pair)

-- `POST /api/certificates/external-csr`
unfoldable pub external_csr : Context → KeyPair → GenerateBody → Gateway → Response × Gateway
external_csr x drawn body g = elim (prepared x drawn body g) [
  | err c m ↦ (thrown c m, g)
  | ok (device, db, pair) ↦
      let id = x.uuid 0 in
      let saved : Gateway = record g {
        db = record db { certificates = pending_record x id device.id pair ∷ db.certificates };
        keys = put_pending x.now id device.id pair.private_key g.keys;
      } in
      (done 201, log_action x "certificate.external_csr_created" (shown body.id <> ":" <> id) saved)
]

abbrev pub is_pending_status : CertificateStatus → Bool
is_pending_status CertificateStatus.pending_external_signature = true
is_pending_status _ = false

-- `DELETE /api/certificates/:id/pending`
unfoldable pub cancel_pending : Context → String → Gateway → Response × Gateway
cancel_pending x id g = elim (find_certificate g.db id) [
  | none ↦ (thrown 404 "Certificate not found", g)
  | some c ↦
      if not (is_pending_status c.status)
      then (refused 409 "Only a pending external CSR can be cancelled", g)
      else let saved : Gateway = record g {
        db = record (g.db) {
          certificates = filter (λ (d : Certificate). not (d.id === c.id)) g.db.certificates;
        };
        keys = (discard_pending_private_key c.id g.keys).1;
      } in
        (
          done 200,
          log_action x "certificate.external_csr_cancelled"
              (shown_id g.db c.device_id <> ":" <> c.id) saved,
        )
]

-- `GET /api/certificates/:id/private-key-once`: the key that is sent, if one is.
unfoldable pub private_key_once : Context → String → Gateway → Response × Option String × Gateway
private_key_once x id g = elim (find_certificate g.db id) [
  | none ↦ (thrown 404 "Certificate not found", none, g)
  | some c ↦
      if not (is_pending_status c.status)
      then (refused 409 "No pending external CSR exists", none, g)
      else if not (is_provisionable (owner g.db c.device_id))
      then (
        refused 409 "Only active device identities can receive a pending provisioned key",
        none,
        g,
      )
      else let (key, keys) = take_pending_private_key x.now c.id c.device_id g.keys in
        elim key [
          | none ↦ (
            refused 410 "Private-key delivery expired or already used; generate a new CSR",
            none,
            record g { keys = keys },
          )
          | some k ↦ (done 200, some k, record g { keys = keys })
        ]
]

-- `POST /api/certificates/:id/private-key-received`
unfoldable pub private_key_received : Context → String → Gateway → Response × Gateway
private_key_received x id g = elim (find_certificate g.db id) [
  | none ↦ (thrown 404 "Certificate not found", g)
  | some c ↦
      if not (is_pending_status c.status)
      then (refused 409 "Download the one-time private key first", g)
      else let (confirmed, keys) = confirm_pending_private_key c.id g.keys in
        if not confirmed
        then (refused 409 "Download the one-time private key first", record g { keys = keys })
        else let saved : Gateway = record g {
          db = update_certificate id (λ d. record d { private_key_received = true }) g.db;
          keys = keys;
        } in
          (done 200, log_action x "certificate.private_key_receipt_confirmed" c.id saved)
]
