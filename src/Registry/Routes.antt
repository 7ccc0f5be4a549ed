-- ===== src/Registry/Routes.antt =====
-- The device routes. A route takes the body that it reads and the state, and returns its answer and
-- the state that it leaves; where the source returns before `saveDb`, nothing changes.
use Prim.Native.String.{◌++◌ as ◌<>◌}
use mathlib.Core.Bool.{beq}
use mqtt_trust_gateway.Base.{
  ℕ, ◌+◌, String, Bool, true, false, ◌&&◌, ◌||◌, not, Option, none, some, List, [], ◌∷◌, ◌++◌, map,
  leb, ◌===◌, if◌then◌else◌, any, filter, take_text, ok, err,
}
use mqtt_trust_gateway.Db.{Db, Device, DeviceStatus, Certificate, CertificateStatus}
use mqtt_trust_gateway.Broker.{
  Gateway, Context, allowed_device_id, is_active, is_archived, is_active_certificate, stage_broker,
  log_action,
}
use mqtt_trust_gateway.Registry.Labels.{LabelsInput, normalize_labels}
use mqtt_trust_gateway.Registry.{
  Response, done, refused, thrown, Openssl, device_record, update_device, archive_device_record,
  restore_device_record, is_internal, has_usable_credential, is_tombstoned,
  permanently_delete_device,
}

-- A missing name or description reads as the empty text.
pub record DeviceBody : Type 0 where
  pub id : String
  pub name : String
  pub description : String
  pub labels : LabelsInput

pub record PatchBody : Type 0 where
  pub name : Option String
  pub description : Option String
  pub labels : Option LabelsInput
  pub enabled : Option Bool

abbrev pub new_device : Context → DeviceBody → Device
new_device x body = record {
  id = body.id;
  name = take_text 100 (if body.name === "" then body.id else body.name);
  description = take_text 1000 body.description;
  labels = normalize_labels x.lower body.labels;
  enabled = false;
  trusted = false;
  status = DeviceStatus.active;
  created_at = x.now;
  archived_at = none;
  scheduled_deletion_at = none;
  approved_at = none;
  approved_by = none;
}

-- `POST /api/devices`
unfoldable pub create_device : Context → DeviceBody → Gateway → Response × Gateway
create_device x body g =
    let id = body.id in
    if not (allowed_device_id id)
    then (refused 400 "Invalid or reserved identifier", g)
    else if any (λ (d : Device). d.id === id) g.db.devices || is_tombstoned g.db id
    then (refused 409 "Device already exists", g)
    else let saved : Gateway = record g {
      db = record (g.db) { devices = g.db.devices ++ new_device x body ∷ [] };
    } in
      (done 201, log_action x "device.created" id saved)

abbrev pub patch_name : Option String → Device → Device
patch_name none d = d
patch_name (some name) d = record d { name = take_text 100 name }

abbrev pub patch_description : Option String → Device → Device
patch_description none d = d
patch_description (some s) d = record d { description = take_text 1000 s }

abbrev pub patch_labels : (String → String) → Option LabelsInput → Device → Device
patch_labels lower none d = d
patch_labels lower (some ls) d = record d { labels = normalize_labels lower ls }

abbrev pub patch_access : Option Bool → Device → Device
patch_access none d = d
patch_access (some e) d = record d { enabled = e; trusted = e }

abbrev pub patch_metadata : Context → PatchBody → Device → Device
patch_metadata x body d =
    patch_labels x.lower body.labels (patch_description body.description (patch_name body.name d))

abbrev pub access_changed : Option Bool → Device → Bool
access_changed none d = false
access_changed (some e) d = not (beq d.enabled e) || not (beq d.trusted e)

abbrev pub asks_to_enable : Option Bool → Bool
asks_to_enable none = false
asks_to_enable (some e) = e

abbrev pub patch_action : Bool → Bool → String
patch_action true true = "device.authorization_enabled"
patch_action true false = "device.authorization_disabled"
patch_action false enabled = "device.metadata_updated"

-- `PATCH /api/devices/:id`
unfoldable pub patch_device : Context → String → PatchBody → Gateway → Response × Gateway
patch_device x id body g = elim (device_record g.db id) [
  | none ↦ (refused 404 "Device not found", g)
  | some d ↦
      if not (is_active d.status)
      then (refused 409 "Archived devices must be restored before changes", g)
      else if asks_to_enable body.enabled && not (has_usable_credential x.now g.db d.id)
      then (
        refused 409
            "Cannot authorize this identity without a valid, trusted, unrevoked certificate",
        g,
      )
      else let changed = access_changed body.enabled d in
        let d' = patch_access body.enabled (patch_metadata x body d) in
        let saved : Gateway = record g { db = update_device id (λ _. d') g.db } in
        let staged = if changed then stage_broker x true (x.uuid 0) saved else saved in
        (done 200, log_action x (patch_action changed d'.enabled) d.id staged)
]

abbrev pub is_archived_reason : Option String → Bool
is_archived_reason none = false
is_archived_reason (some r) = r === "identity-archived"

-- the loop that blocks the active certificates
abbrev pub block_archived : ℕ → String → Certificate → Certificate
block_archived now id c =
    if (c.device_id === id) && is_active_certificate c.status
    then record c {
      status = CertificateStatus.blocked;
      block_reason = some "identity-archived";
      revoked_at = some now;
    }
    else c

abbrev pub to_revoke : String → Certificate → Bool
to_revoke id c = (c.device_id === id) && is_archived_reason c.block_reason && is_internal c.issuer

pub record Revoked : Type 0 where
  pub finished : Bool
  pub certificates : List Certificate
  pub crl : List String

-- The loop that revokes them: it stops at the first that OpenSSL refuses, and what was done is saved.
unfoldable pub revoke_archived : Openssl → String → List Certificate → List String → Revoked
revoke_archived ssl id [] crl = record { finished = true; certificates = []; crl = crl }
revoke_archived ssl id (c ∷ cs) crl = elim (to_revoke id c) [
  | false ↦ let r = revoke_archived ssl id cs crl in record r { certificates = c ∷ r.certificates }
  | true ↦ elim (ssl crl c) [
    | none ↦ record { finished = false; certificates = c ∷ cs; crl = crl }
    | some crl' ↦
        let r = revoke_archived ssl id cs crl' in
        record r { certificates = record c { status = CertificateStatus.revoked } ∷ r.certificates }
  ]
]

-- what is saved before the first call of `syncBroker`
abbrev pub archived_db : ℕ → String → Device → Db → Db
archived_db now id d' db = record (update_device id (λ _. d') db) {
  certificates = map (block_archived now id) db.certificates;
}

unfoldable pub finish_archive : Context → Openssl → String → Gateway → Response × Gateway
finish_archive x ssl id staged =
    let r = revoke_archived ssl id staged.db.certificates staged.crl in
    let saved : Gateway = record staged {
      db = record (staged.db) { certificates = r.certificates };
      crl = r.crl;
    } in
    if r.finished
    then (done 200, log_action x "device.archived" id (stage_broker x true (x.uuid 1) saved))
    else (thrown 500 "revocation failed", saved)

-- `POST /api/devices/:id/archive`
unfoldable pub archive_device :
    Context → Openssl → (id confirm : String) → Gateway → Response × Gateway
archive_device x ssl id confirm g = elim (device_record g.db id) [
  | none ↦ (refused 404 "Device not found", g)
  | some d ↦
      if not (confirm === d.id)
      then (refused 400 "Confirm by entering the exact device identifier", g)
      else if not (is_active d.status)
      then (refused 409 "Device is not active", g)
      else elim (archive_device_record x.now d) [
        | err c m ↦ (thrown c m, g)
        | ok (_, d') ↦
            let saved : Gateway = record g { db = archived_db x.now id d' g.db } in
            finish_archive x ssl id (stage_broker x true (x.uuid 0) saved)
      ]
]

-- `POST /api/devices/:id/restore`
unfoldable pub restore_device : Context → String → Gateway → Response × Gateway
restore_device x id g = elim (device_record g.db id) [
  | none ↦ (refused 404 "Device not found", g)
  | some d ↦ elim (restore_device_record d) [
    | err c m ↦ (refused 409 m, g)
    | ok d' ↦
        let saved : Gateway = record g { db = update_device id (λ _. d') g.db } in
        let staged = stage_broker x true (x.uuid 0) saved in
        (done 200, log_action x "device.restored_pending_approval" id staged)
  ]
]

-- `POST /api/devices/:id/approve`
unfoldable pub approve_device : Context → (id confirm : String) → Gateway → Response × Gateway
approve_device x id confirm g = elim (device_record g.db id) [
  | none ↦ (refused 404 "Active device not found", g)
  | some d ↦
      if not (is_active d.status)
      then (refused 404 "Active device not found", g)
      else if not (confirm === d.id)
      then (refused 400 "Confirm approval by entering the exact device identifier", g)
      else if not (has_usable_credential x.now g.db d.id)
      then (
        refused 409
            "Cannot authorize this identity without a valid, trusted, unrevoked certificate",
        g,
      )
      else let d' : Device = record d {
        enabled = true;
        trusted = true;
        approved_at = some x.now;
        approved_by = some x.actor;
      } in
        let saved : Gateway = record g { db = update_device id (λ _. d') g.db } in
        (done 200, log_action x "device.approved" d.id (stage_broker x true (x.uuid 0) saved))
]

-- `DELETE /api/devices/:id`
unfoldable pub delete_device :
    Context → Openssl → (id confirm : String) → Gateway → Response × Gateway
delete_device x ssl id confirm g =
    if not (confirm === ("DELETE " <> id))
    then (refused 400 "Type DELETE and the exact device identifier to confirm", g)
    else if not (any (λ (d : Device). d.id === id) g.db.devices)
    then (refused 404 "Device not found", g)
    else (done 200, (permanently_delete_device x ssl (x.uuid 0) id x.actor true g).1)

abbrev pub is_due : ℕ → Device → Bool
is_due now d =
    is_archived d.status && (elim d.scheduled_deletion_at [ none ↦ false | some t ↦ leb t now ])

-- the loop of `purgeExpiredArchives`
unfoldable pub purge : Context → Openssl → ℕ → List Device → Gateway → Gateway
purge x ssl i [] g = g
purge x ssl i (d ∷ ds) g =
    purge x ssl (i + 1) ds
      (permanently_delete_device x ssl (x.uuid i) d.id "system:archive-expiry" false g).1

unfoldable pub purge_expired_archives : Context → Openssl → Gateway → Gateway
purge_expired_archives x ssl g = purge x ssl 0 (filter (is_due x.now) g.db.devices) g
