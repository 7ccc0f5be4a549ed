-- ===== src/Registry.antt =====
-- Devices: the routes under /api/devices of admin-web/src/routes/certificate-routes.js and the
-- records of admin-web/src/services/identity-service.js.
pub mod Labels
pub mod Routes
pub mod Invariant
pub mod Access
pub mod Archival
pub mod Expiry
pub mod Removal
pub mod Preservation
use mqtt_trust_gateway.Base.{
  ℕ, ◌+◌, String, Bool, true, false, ◌&&◌, not, Option, none, some, List, [], ◌∷◌, ◌++◌, map, ◌===◌,
  if◌then◌else◌, any, filter, find?, modify, Result, ok, err,
}
use mqtt_trust_gateway.Db.{
  Db, Device, DeviceStatus, Certificate, CertificateStatus, Issuer, Tombstone, TombstoneCertificate,
}
use mqtt_trust_gateway.Broker.{
  Gateway, Context, is_archived, is_deleted, is_active_certificate, has_credential, sync_broker,
  log_action,
}

-- What a route answers: done with a status, refused with a status and a message, or an error thrown
-- to the error handler.
pub data Response : Type 0 where
  done : ℕ → Response
  refused : ℕ → String → Response
  thrown : ℕ → String → Response

-- `openssl ca -revoke` and `-gencrl`: the new revocation list, or `none` where the command fails.
abbrev pub Openssl : Type 0
Openssl = List String → Certificate → Option (List String)

-- `revokeCertificate`, and whether it threw nothing.
unfoldable pub revoke_certificate : Openssl → Certificate → Gateway → Bool × Gateway
revoke_certificate ssl c g = elim (ssl g.crl c) [
  | none ↦ (false, g)
  | some crl ↦ (true, record g { crl = crl })
]

abbrev pub archive_retention_ms : ℕ
archive_retention_ms = 2_592_000_000

abbrev pub device_record : Db → String → Option Device
device_record db id = find? (λ (d : Device). d.id === id) db.devices

abbrev pub update_device : String → (Device → Device) → Db → Db
update_device id f db = record db { devices = modify (λ (d : Device). d.id === id) f db.devices }

-- `archiveDeviceRecord`: `false` if there is nothing to do.
unfoldable pub archive_device_record : ℕ → Device → Result (Bool × Device)
archive_device_record now d =
    if is_archived d.status
    then ok (false, d)
    else if is_deleted d.status
    then err 500 "Deleted identities cannot be archived"
    else ok (
      true,
      record d {
        status = DeviceStatus.archived;
        enabled = false;
        trusted = false;
        archived_at = some now;
        scheduled_deletion_at = some (now + archive_retention_ms);
      },
    )

unfoldable pub restore_device_record : Device → Result Device
restore_device_record d =
    if not (is_archived d.status)
    then err 500 "Only archived devices can be restored"
    else ok (record d {
      status = DeviceStatus.active;
      enabled = false;
      trusted = false;
      archived_at = none;
      scheduled_deletion_at = none;
    })

abbrev pub is_internal : Issuer → Bool
is_internal Issuer.external = false
is_internal _ = true

-- `hasUsableCredential`
abbrev pub has_usable_credential : ℕ → Db → String → Bool
has_usable_credential now db id = has_credential now db.certificates id

abbrev pub is_some : Option ℕ → Bool
is_some none = false
is_some (some x) = true

abbrev pub or_else {ℓ} : {A : Type ℓ} → Option A → A → Option A
or_else none y = some y
or_else (some x) y = some x

-- The loop of `permanentlyDeleteDevice`: revoke what the gateway issued, as far as OpenSSL does it,
-- and block the rest.
unfoldable pub block_deleted : ℕ → Certificate → Certificate
block_deleted now c = record c {
  status = elim c.status [
    | CertificateStatus.revoked ↦ CertificateStatus.revoked
    | _ ↦ CertificateStatus.blocked
  ];
  revoked_at = or_else c.revoked_at now;
  block_reason = some "identity-deleted";
  certificate = none;
  chain = "";
  csr = "";
  public_key = none;
}

unfoldable pub revoke_related : Openssl → List Certificate → Gateway → Gateway
revoke_related ssl [] g = g
revoke_related ssl (c ∷ cs) g = revoke_related ssl cs (
    if is_active_certificate c.status && is_internal c.issuer
    then (revoke_certificate ssl c g).1
    else g)

abbrev pub fingerprints : List Certificate → List String
fingerprints [] = []
fingerprints (c ∷ cs) =
    let rest = fingerprints cs in if c.fingerprint === "" then rest else c.fingerprint ∷ rest

abbrev pub remove_first : (Device → Bool) → List Device → List Device
remove_first p [] = []
remove_first p (d ∷ ds) = if p d then ds else d ∷ remove_first p ds

abbrev pub is_tombstoned : Db → String → Bool
is_tombstoned db id = any (λ (t : Tombstone). t.id === id) db.deleted_identities

abbrev pub evidence : Certificate → TombstoneCertificate
evidence c = record {
  serial = c.serial;
  fingerprint = c.fingerprint;
  issuer = c.issuer;
  status = c.status;
}

abbrev pub tombstone_for : (now : ℕ) (actor id : String) → List Certificate → Tombstone
tombstone_for now actor id related = record {
  id = id;
  deleted_at = now;
  deleted_by = actor;
  fingerprints = fingerprints related;
  certificates = map (λ c. evidence (block_deleted now c)) related;
}

abbrev pub bury : Tombstone → Db → Db
bury t db = record db {
  deleted_identities =
      if is_tombstoned db t.id then db.deleted_identities else db.deleted_identities ++ t ∷ [];
  devices = remove_first (λ (d : Device). d.id === t.id) db.devices;
  certificates = filter (λ (c : Certificate). not (c.device_id === t.id)) db.certificates;
}

-- `permanentlyDeleteDevice`
unfoldable pub permanently_delete_device :
    Context → Openssl → (revision id actor : String) → (defer : Bool) → Gateway → Bool × Gateway
permanently_delete_device x ssl revision id actor defer g =
    let present = any (λ (d : Device). d.id === id) g.db.devices in
    if not present
    then (false, g)
    else let related = filter (λ (c : Certificate). c.device_id === id) g.db.certificates in
      let revoked = revoke_related ssl related g in
      let saved : Gateway = record revoked {
        db = bury (tombstone_for x.now actor id related) g.db;
      } in
      let synced = sync_broker x true defer revision saved in
      (true, log_action (record x { actor = actor }) "device.deleted" id synced)
