-- ===== src/Requests/Tests.antt =====
-- The theorems on devices, the broker's files and the requests, at a gateway with one device.
use mqtt_trust_gateway.Base.{
  arith, String, Bool, Result, ok, err, ◌+◌, ◌≡◌, refl, true, false, none, some, List, [], ◌∷◌,
  ◌===◌, any, not, filter, find?, All, dec_text,
}
use mqtt_trust_gateway.Db.{
  Db, Device, DeviceStatus, Certificate, CertificateStatus, Issuer, Tombstone, TrustedCa, empty,
}
use mqtt_trust_gateway.Db.Audit.{max_id}
use mqtt_trust_gateway.Keys.{no_keys}
use mqtt_trust_gateway.Broker.{
  Gateway, Context, acl_text, policy, has_credential, authorized_devices, allowed_device_id,
  valid_device_id, sync_broker, stage_broker, apply_broker_changes, log_action,
  submit_broker_revision,
}
use mqtt_trust_gateway.Broker.Staging.{sync_broker-files, apply-stage}
use mqtt_trust_gateway.Registry.{Openssl, Response, thrown, permanently_delete_device}
use mqtt_trust_gateway.Registry.Routes.{
  PatchBody, archive_device, patch_device, is_due, purge_expired_archives,
}
use mqtt_trust_gateway.Registry.Invariant.{IsWellFormed, has_id, is_buried}
use mqtt_trust_gateway.Registry.Access.{enabled_in}
use mqtt_trust_gateway.Registry.Removal.{permanently_delete_device_lem}
use mqtt_trust_gateway.Registry.Archival.{
  IsIdle, is_listed, revoked_earlier, archive_device-secures, archive_device-again,
}
use mqtt_trust_gateway.Certificates.{Pki, text_id, list_id, rsa, ensure_identity}
use mqtt_trust_gateway.Certificates.Pem.{pem_certificates, join_lines}
use mqtt_trust_gateway.Certificates.Blocks.{pem_certificates-join_lines}
use mqtt_trust_gateway.Registry.Expiry.{purge_expired_archives-devices}
use mqtt_trust_gateway.Certificates.Import.{Reader}
use mqtt_trust_gateway.Certificates.Authorities.{ImportBody, import_certificate, untrust_ca}
use mqtt_trust_gateway.Certificates.Trust.{IsClosed, untrust_ca-closes}
use mqtt_trust_gateway.Requests.Invariant.{run-WellFormed}
use mqtt_trust_gateway.Requests.Authorization.{Authorizes, handle-Authorizes, run-unauthorized}
use mqtt_trust_gateway.Requests.Burial.{run-buried}
use mqtt_trust_gateway.Requests.{
  Request, Tools, patch, archive, restored, purges, apply, handle, run,
}

abbrev pump : Device
pump = record {
  id = "pump";
  name = "Pump";
  description = "";
  labels = [];
  enabled = false;
  trusted = false;
  status = DeviceStatus.active;
  created_at = 10;
  archived_at = none;
  scheduled_deletion_at = none;
  approved_at = none;
  approved_by = none;
}

abbrev pump_certificate : Certificate
pump_certificate = record {
  id = "c1";
  device_id = "pump";
  certificate = some "PEM";
  chain = "";
  csr = "CSR";
  public_key = none;
  status = CertificateStatus.active;
  provisioning_method = "csr";
  serial = "0A";
  fingerprint = "FP";
  valid_to = some 9000;
  issuer = Issuer.local;
  issuer_fingerprint = none;
  broker_trusted = true;
  issued_at = 20;
  issued_by = "ana";
  renewed_from = "";
  revoked_at = none;
  revoked_by = none;
  block_reason = none;
  license_archived_at = none;
  license_deleted_at = none;
  private_key_received = false;
  completed_at = none;
}

-- what an archive and a restore leave of it
abbrev archived_certificate : Certificate
archived_certificate = record pump_certificate {
  status = CertificateStatus.revoked;
  revoked_at = some 50;
  block_reason = some "identity-archived";
}

abbrev valve_grave : Tombstone
valve_grave = record {
  id = "valve";
  deleted_at = 5;
  deleted_by = "ana";
  fingerprints = [];
  certificates = [];
}

abbrev gateway_with : Certificate → Gateway
gateway_with c = record {
  db = record empty {
    devices = pump ∷ [];
    certificates = c ∷ [];
    deleted_identities = valve_grave ∷ [];
  };
  broker = record {
    acl = "";
    policy_state = none;
    audit_cursor = none;
    revision = none;
    pending_revision = none;
    ca_bundle = "";
  };
  audit_log = [];
  crl = [];
  ca_serial = 11;
  keys = no_keys;
}

abbrev gateway : Gateway
gateway = gateway_with pump_certificate

abbrev context : Context
context = record {
  now = 1000;
  actor = "ana";
  uuid = λ n. "u";
  lower = λ s. s;
  audit_days = 90;
  topic_prefix = "site";
  has_health_certificate = false;
}

-- OpenSSL takes a certificate that is not on the list yet.
abbrev openssl : Openssl
openssl crl c = elim (any (λ s. s === c.serial) crl) [ true ↦ none | false ↦ some (c.serial ∷ crl) ]

abbrev refusing : Openssl
refusing crl c = none

gateway-IsWellFormed : IsWellFormed gateway.db
unfolding allowed_device_id valid_device_id dec_text
gateway-IsWellFormed = record {
  devices = (record { idle = λ h. refl; paired = refl; named = refl }, tt);
  distinct = (refl, tt);
  unburied = (refl, tt);
}

sync_broker-files_example :
    ((sync_broker context false true "r1" gateway).broker.acl ≡ acl_text context gateway.db)
    × ((sync_broker context false true "r1" gateway).broker.policy_state
        ≡ some (policy 1000 gateway.db))
sync_broker-files_example = sync_broker-files context false true "r1" gateway

named_revision : ("r1" === "") ≡ false
unfolding dec_text
named_revision = refl

apply-stage_example :
    ((apply_broker_changes (stage_broker context true "r1" gateway)).0 ≡ true)
    × ((apply_broker_changes (stage_broker context true "r1" gateway)).1.broker.revision
        ≡ some "r1")
    × ((apply_broker_changes (stage_broker context true "r1" gateway)).1.broker.audit_cursor
        ≡ some ("r1", max_id gateway.audit_log))
    × ((apply_broker_changes (stage_broker context true "r1" gateway)).1.broker.pending_revision
        ≡ none)
    × ((apply_broker_changes (stage_broker context true "r1" gateway)).1.broker.acl
        ≡ acl_text context gateway.db)
    × (apply_broker_changes (apply_broker_changes (stage_broker context true "r1" gateway)).1
        ≡ (false, (apply_broker_changes (stage_broker context true "r1" gateway)).1))
apply-stage_example = apply-stage context "r1" gateway named_revision

pump_registered : has_id "pump" gateway.db.devices ≡ true
unfolding dec_text
pump_registered = refl

permanently_delete_device_example :
    (has_id "pump"
        (permanently_delete_device context openssl "r1" "pump" "ana" true gateway).1.db.devices
      ≡ false)
    × (is_buried "pump"
          (permanently_delete_device context openssl "r1" "pump" "ana" true
            gateway).1.db.deleted_identities
        ≡ true)
    × All
        (λ (c : Certificate). (c.device_id === "pump") ≡ false)
        (permanently_delete_device context openssl "r1" "pump" "ana" true gateway).1.db.certificates
permanently_delete_device_example =
    permanently_delete_device_lem context openssl "r1" "pump" "ana" true gateway
      gateway-IsWellFormed pump_registered

pump_found : any (λ (d : Device). d.id === "pump") gateway.db.devices ≡ true
unfolding dec_text
pump_found = refl

archive_device-secures_example :
    (enabled_in "pump" (archive_device context refusing "pump" "pump" gateway).1.db.devices ≡ false)
    × All (IsIdle "pump") (archive_device context refusing "pump" "pump" gateway).1.db.certificates
unfolding dec_text
archive_device-secures_example =
    archive_device-secures context refusing "pump" gateway pump gateway-IsWellFormed refl refl

-- The gateway after an archive, which revoked the certificate, and a restore.
abbrev restored_gateway : Gateway
restored_gateway = record (gateway_with archived_certificate) { crl = "0A" ∷ [] }

archived_before :
    any (revoked_earlier "pump" restored_gateway.crl) restored_gateway.db.certificates ≡ true
unfolding dec_text
archived_before = refl

openssl_refuses :
    (l : List String) (c : Certificate) → is_listed c.serial l ≡ true → openssl l c ≡ none
openssl_refuses l c h = ground (arith, h)

openssl_keeps :
    (l l' : List String) (c : Certificate) (serial : String)
    → openssl l c ≡ some l'
    → is_listed serial l ≡ true
    → is_listed serial l' ≡ true
openssl_keeps l l' c serial e h = ground (arith, e, h)

archive_device-again_example :
    (archive_device context openssl "pump" "pump" restored_gateway).0
    ≡ thrown 500 "revocation failed"
unfolding dec_text
archive_device-again_example =
    archive_device-again context openssl "pump" openssl_refuses openssl_keeps restored_gateway pump
      gateway-IsWellFormed refl refl archived_before

unfoldable is_ok : Result (Device × Db) → Bool
is_ok (err status message) = false
is_ok (ok made) = true

-- The tombstone of a text stops the text, and not the list of it.
valve_refused : is_ok (ensure_identity 1000 (text_id "valve") "" "" gateway.db) ≡ false
unfolding is_ok ensure_identity allowed_device_id valid_device_id dec_text
valve_refused = refl

valve_reused : is_ok (ensure_identity 1000 (list_id "valve") "" "" gateway.db) ≡ true
unfolding is_ok ensure_identity allowed_device_id valid_device_id dec_text
valve_reused = refl

abbrev pki : Pki
pki = record {
  ca_valid_to = 9_000_000;
  cert_days = 365;
  max_cert_days = 825;
  csr_key = λ csr. none;
  sign = λ serial id csr days. some ("PEM", serial + 1);
  verifies = λ crl pem. true;
  reissue = λ serial id pem days. some "PEM";
  x509 = λ pem. none;
}

-- A reader for which every certificate is in force, and the local authority vouches.
abbrev reader : Reader
reader = record {
  details =
      λ pem. some (record { valid_from = 0; key = rsa 2048; spki = "K"; is_self_signed = false });
  local_ca = some "CA";
  public_key = λ key. none;
  private_key_fits = λ pem key. none;
  is_client = λ pem. true;
  printed = λ pem. pem;
  verify = λ anchor intermediates pem. true;
}

abbrev tools : Tools
tools = record { ssl = openssl; pki = pki; reader = reader }

abbrev enabling : PatchBody
enabling = record { name = none; description = none; labels = none; enabled = some true }

pump_off : enabled_in "pump" gateway.db.devices ≡ false
unfolding dec_text
pump_off = refl

pump_on : enabled_in "pump" (handle tools context (patch "pump" enabling) gateway).db.devices ≡ true
unfolding handle patch_device log_action stage_broker sync_broker submit_broker_revision dec_text
pump_on = refl

handle-Authorizes_example :
    Authorizes "pump" (patch "pump" enabling)
    × (has_credential 1000 gateway.db.certificates "pump" ≡ true)
handle-Authorizes_example =
    handle-Authorizes tools context (patch "pump" enabling) gateway "pump" gateway-IsWellFormed
      pump_off pump_on

abbrev history : List (Context × Request)
history =
    (context, archive "pump" "pump")
    ∷ (context, restored "pump" "")
    ∷ (context, apply)
    ∷ (context, purges)
    ∷ []

run-unauthorized_example :
    has_id "pump" (authorized_devices 2000 (run tools history gateway).db) ≡ false
run-unauthorized_example =
    run-unauthorized tools history gateway "pump" 2000 gateway-IsWellFormed pump_off
      (λ h. h, (λ h. h, (λ h. h, (λ h. h, tt))))

run-WellFormed_example : IsWellFormed (run tools history gateway).db
run-WellFormed_example = run-WellFormed tools history gateway gateway-IsWellFormed

valve_buried : is_buried "valve" gateway.db.deleted_identities ≡ true
unfolding dec_text
valve_buried = refl

run-buried_example :
    (is_buried "valve" (run tools history gateway).db.deleted_identities ≡ true)
    × (has_id "valve" (run tools history gateway).db.devices ≡ false)
run-buried_example = run-buried tools history gateway "valve" gateway-IsWellFormed valve_buried

abbrev reading_pki : Pki
reading_pki = record pki {
  x509 = λ pem. some (record {
    subject = "CN=pump";
    serial = "0B";
    fingerprint = "F2";
    valid_to = 5000;
    is_ca = false;
    issued_by_local_ca = true;
  });
}

abbrev import_body : ImportBody
import_body = record {
  pending_id = "";
  device_id = "pump";
  name = "";
  certificate = "-----BEGIN CERTIFICATE-----A-----END CERTIFICATE-----";
  chain = "";
  private_key = "";
}

abbrev imported : Response × Gateway
imported = import_certificate context reading_pki reader import_body gateway

abbrev partner : TrustedCa
partner = record { id = "p"; certificate = "P"; fingerprint = "PF"; enabled = true; added_at = 1 }

abbrev trusting : Gateway
trusting = record gateway {
  db = record (gateway.db) {
    trusted_cas = partner ∷ [];
    certificates = record pump_certificate { issuer_fingerprint = some "PF" } ∷ [];
  };
}

partner-found : find? (λ (t : TrustedCa). t.id === "p") trusting.db.trusted_cas ≡ some partner
unfolding dec_text
partner-found = refl

untrust_ca-closes_example :
    All (IsClosed "PF" 1000) (untrust_ca context reader "p" trusting).1.db.certificates
untrust_ca-closes_example = untrust_ca-closes context reader "p" trusting partner 1000 partner-found

pem_certificates-join_lines_example :
    pem_certificates
      (join_lines (pem_certificates "x-----BEGIN CERTIFICATE-----A-----END CERTIFICATE-----"))
    ≡ pem_certificates "x-----BEGIN CERTIFICATE-----A-----END CERTIFICATE-----"
pem_certificates-join_lines_example =
    pem_certificates-join_lines "x-----BEGIN CERTIFICATE-----A-----END CERTIFICATE-----"

purge_expired_archives-devices_example :
    (purge_expired_archives context openssl gateway).db.devices
    ≡ filter (λ d. not (is_due 1000 d)) gateway.db.devices
purge_expired_archives-devices_example =
    purge_expired_archives-devices context openssl gateway gateway-IsWellFormed
