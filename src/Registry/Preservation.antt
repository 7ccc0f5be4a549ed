-- ===== src/Registry/Preservation.antt =====
-- Every device route keeps the device table well formed.
use mqtt_trust_gateway.Base.{
  ◌+◌, String, ◌≡◌, refl, true, false, ◌||◌, none, some, Option-cases, Bool-cases, inl, inr, arith,
}
use mqtt_trust_gateway.Db.{Device, DeviceStatus}
use mqtt_trust_gateway.Broker.{
  Gateway, Context, allowed_device_id, is_active, stage_broker, log_action,
}
use mqtt_trust_gateway.Broker.Staging.{stage_broker-db}
use mqtt_trust_gateway.Registry.{
  Openssl, archive_device_record, restore_device_record, update_device, device_record,
  is_tombstoned, archive_retention_ms,
}
use mqtt_trust_gateway.Registry.Routes.{
  DeviceBody, PatchBody, new_device, create_device, patch_device, archive_device, restore_device,
  approve_device, delete_device, patch_access, patch_metadata, finish_archive, revoke_archived,
  archived_db,
}
use mqtt_trust_gateway.Registry.Invariant.{
  DeviceOk, IsWellFormed, has_id, found_ok, updated-WellFormed, append-WellFormed,
}
use mqtt_trust_gateway.Registry.Removal.{permanently_delete_device-WellFormed}

module _ (x : Context) (g : Gateway) (w : IsWellFormed g.db) where
  -- A change to a device that was found keeps the table well formed.
  found-WellFormed :
      (id : String) (d d' : Device)
      → device_record g.db id ≡ some d
      → d'.id ≡ d.id
      → DeviceOk d'
      → IsWellFormed (update_device id (λ _. d') g.db)
  found-WellFormed id d d' e same k =
      let (_, here) = found_ok g.db id d w e in
      updated-WellFormed id d' (cc) g.db.devices g.db.deleted_identities w k

  pub create_device-WellFormed : (body : DeviceBody) → IsWellFormed (create_device x body g).1.db
  unfolding create_device log_action
  create_device-WellFormed body = elim (Bool-cases (allowed_device_id body.id)) [
    | inr bad ↦ rw (bad, create_device) w
    | inl good ↦ elim (Bool-cases (has_id body.id g.db.devices || is_tombstoned g.db body.id)) [
      | inl taken ↦ rw (good, taken, create_device) w
      | inr free ↦
          rw (good, free, create_device)
            (append-WellFormed (new_device x body) g.db.devices g.db.deleted_identities w
              (record { idle = λ h. cc; paired = refl; named = good }) (ground arith)
              (ground arith))
    ]
  ]

  patched-ok :
      (body : PatchBody) (d : Device)
      → DeviceOk d
      → is_active d.status ≡ true
      → DeviceOk (patch_access body.enabled (patch_metadata x body d))
        × ((patch_access body.enabled (patch_metadata x body d)).id ≡ d.id)
  patched-ok body d k h = ground arith

  pub patch_device-WellFormed :
      (id : String) (body : PatchBody) → IsWellFormed (patch_device x id body g).1.db
  unfolding patch_device log_action
  patch_device-WellFormed id body = elim (Option-cases (device_record g.db id)) [
    | inl e ↦ rw (e, patch_device) w
    | inr (d, e) ↦
        let d' = patch_access body.enabled (patch_metadata x body d) in
        let saved : Gateway = record g { db = update_device id (λ _. d') g.db } in
        let (k, _) = found_ok g.db id d w e in
        ground (
          arith,
          e,
          w,
          patched-ok body d k,
          stage_broker-db x true (x.uuid 0) saved,
          found-WellFormed id d d' e,
        )
  ]

  pub restore_device-WellFormed : (id : String) → IsWellFormed (restore_device x id g).1.db
  unfolding restore_device log_action restore_device_record
  restore_device-WellFormed id = elim (Option-cases (device_record g.db id)) [
    | inl e ↦ rw (e, restore_device) w
    | inr (d, e) ↦
        let d' : Device = record d {
          status = DeviceStatus.active;
          enabled = false;
          trusted = false;
          archived_at = none;
          scheduled_deletion_at = none;
        } in
        let saved : Gateway = record g { db = update_device id (λ _. d') g.db } in
        let (k, _) = found_ok g.db id d w e in
        ground (arith, e, w, k, stage_broker-db x true (x.uuid 0) saved, found-WellFormed id d d' e)
  ]

  pub approve_device-WellFormed :
      (id confirm : String) → IsWellFormed (approve_device x id confirm g).1.db
  unfolding approve_device log_action
  approve_device-WellFormed id confirm = elim (Option-cases (device_record g.db id)) [
    | inl e ↦ rw (e, approve_device) w
    | inr (d, e) ↦
        let d' : Device = record d {
          enabled = true;
          trusted = true;
          approved_at = some x.now;
          approved_by = some x.actor;
        } in
        let saved : Gateway = record g { db = update_device id (λ _. d') g.db } in
        let (k, _) = found_ok g.db id d w e in
        ground (arith, e, w, k, stage_broker-db x true (x.uuid 0) saved, found-WellFormed id d d' e)
  ]

  pub delete_device-WellFormed :
      (ssl : Openssl) (id confirm : String) → IsWellFormed (delete_device x ssl id confirm g).1.db
  unfolding delete_device
  delete_device-WellFormed ssl id confirm =
      ground (arith, w, permanently_delete_device-WellFormed x ssl (x.uuid 0) id x.actor true g w)

  finish_archive-devices :
      (ssl : Openssl) (id : String) (staged : Gateway)
      → IsWellFormed staged.db
      → IsWellFormed (finish_archive x ssl id staged).1.db
  unfolding finish_archive log_action
  finish_archive-devices ssl id staged v =
      let r = revoke_archived ssl id staged.db.certificates staged.crl in
      let saved : Gateway = record staged {
        db = record (staged.db) { certificates = r.certificates };
        crl = r.crl;
      } in
      elim (Bool-cases r.finished) [
        | inl all ↦ rw (all, finish_archive, stage_broker-db x true (x.uuid 1) saved) v
        | inr part ↦ rw (part, finish_archive) v
      ]

  pub archive_device-WellFormed :
      (ssl : Openssl) (id confirm : String) → IsWellFormed (archive_device x ssl id confirm g).1.db
  unfolding archive_device archive_device_record
  archive_device-WellFormed ssl id confirm = elim (Option-cases (device_record g.db id)) [
    | inl e ↦ rw (e, archive_device) w
    | inr (d, e) ↦
        let d' : Device = record d {
          status = DeviceStatus.archived;
          enabled = false;
          trusted = false;
          archived_at = some x.now;
          scheduled_deletion_at = some (x.now + archive_retention_ms);
        } in
        let saved : Gateway = record g { db = archived_db x.now id d' g.db } in
        let staged = stage_broker x true (x.uuid 0) saved in
        let (k, _) = found_ok g.db id d w e in
        let v : IsWellFormed staged.db = rw (stage_broker-db x true (x.uuid 0) saved) (
          found-WellFormed id d d' e refl
            (record { idle = λ _. refl; paired = refl; named = k.named })) in
        ground (arith, e, w, finish_archive-devices ssl id staged v)
  ]
