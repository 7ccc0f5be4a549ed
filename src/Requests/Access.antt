-- ===== src/Requests/Access.antt =====
-- Only an explicit authorization gives a device access, and only with a usable certificate.
use mqtt_trust_gateway.Base.{
  ◌+◌, String, ◌≡◌, refl, Bool, true, false, none, some, ◌===◌, Option-cases, Bool-cases, inl, inr,
  arith,
}
use mqtt_trust_gateway.Db.{Device, DeviceStatus}
use mqtt_trust_gateway.Broker.{Gateway, Context, stage_broker, log_action, has_credential}
use mqtt_trust_gateway.Broker.Staging.{stage_broker-db}
use mqtt_trust_gateway.Registry.{
  Openssl, device_record, update_device, restore_device_record, archive_device_record,
  archive_retention_ms, permanently_delete_device,
}
use mqtt_trust_gateway.Registry.Removal.{permanently_delete_device-db}
use mqtt_trust_gateway.Registry.Invariant.{IsWellFormed, found_ok}
use mqtt_trust_gateway.Registry.Routes.{
  PatchBody, DeviceBody, new_device, create_device, patch_device, approve_device, patch_access,
  patch_metadata, restore_device, archive_device, archived_db, finish_archive, revoke_archived,
}
use mqtt_trust_gateway.Registry.Access.{
  enabled_in, found_disabled, enabled_in-update, enabled_in-append, enabled_in-remove_first,
}

module _ (x : Context) (g : Gateway) (w : IsWellFormed g.db) (k : String)
    (off : enabled_in k g.db.devices ≡ false) where
  -- A device that had no access and has it after a `PATCH` is the one that was patched, on a request
  -- to enable it, and it has an active, trusted certificate that has not expired.
  pub patch_device-enables :
      (id : String) (body : PatchBody)
      → enabled_in k (patch_device x id body g).1.db.devices ≡ true
      → (id ≡ k) × (body.enabled ≡ some true) × (has_credential x.now g.db.certificates k ≡ true)
  unfolding patch_device log_action
  patch_device-enables id body h = elim (Option-cases (device_record g.db id)) [
    | inl e ↦ absurd (ground (arith, e, off, h))
    | inr (d, e) ↦
        let d' = patch_access body.enabled (patch_metadata x body d) in
        let saved : Gateway = record g { db = update_device id (λ _. d') g.db } in
        let (ok, here) = found_ok g.db id d w e in
        let same : d'.id ≡ id = ground (arith, here) in
        ground (
          arith,
          e,
          off,
          h,
          here,
          stage_broker-db x true (x.uuid 0) saved,
          enabled_in-update id k d' g.db.devices same off,
          found_disabled k g.db d off,
        )
  ]

  -- So it is with an approval.
  pub approve_device-enables :
      (id confirm : String)
      → enabled_in k (approve_device x id confirm g).1.db.devices ≡ true
      → (id ≡ k) × (has_credential x.now g.db.certificates k ≡ true)
  unfolding approve_device log_action
  approve_device-enables id confirm h = elim (Option-cases (device_record g.db id)) [
    | inl e ↦ absurd (ground (arith, e, off, h))
    | inr (d, e) ↦
        let d' : Device = record d {
          enabled = true;
          trusted = true;
          approved_at = some x.now;
          approved_by = some x.actor;
        } in
        let saved : Gateway = record g { db = update_device id (λ _. d') g.db } in
        let (ok, here) = found_ok g.db id d w e in
        ground (
          arith,
          e,
          off,
          h,
          here,
          stage_broker-db x true (x.uuid 0) saved,
          enabled_in-update id k d' g.db.devices here off,
        )
  ]

module _ (x : Context) (g : Gateway) (k : String) (off : enabled_in k g.db.devices ≡ false) where
  pub create_device-disabled :
      (body : DeviceBody) → enabled_in k (create_device x body g).1.db.devices ≡ false
  unfolding create_device log_action
  create_device-disabled body =
      ground (arith, off, enabled_in-append k (new_device x body) g.db.devices refl off)

  disabled_update :
      (id : String) (d' : Device)
      → d'.id ≡ id
      → d'.enabled ≡ false
      → enabled_in k (update_device id (λ _. d') g.db).devices ≡ false
  disabled_update id d' same no_access =
      elim (Bool-cases (enabled_in k (update_device id (λ _. d') g.db).devices)) [
        | inr e ↦ e
        | inl e ↦ cc (no_access, (enabled_in-update id k d' g.db.devices same off e).1)
      ]

  pub restore_device-disabled :
      (w : IsWellFormed g.db) (id : String)
      → enabled_in k (restore_device x id g).1.db.devices ≡ false
  unfolding restore_device restore_device_record log_action
  restore_device-disabled w id = elim (Option-cases (device_record g.db id)) [
    | inl e ↦ rw (e, restore_device) off
    | inr (d, e) ↦
        let d' : Device = record d {
          status = DeviceStatus.active;
          enabled = false;
          trusted = false;
          archived_at = none;
          scheduled_deletion_at = none;
        } in
        let saved : Gateway = record g { db = update_device id (λ _. d') g.db } in
        let (ok, here) = found_ok g.db id d w e in
        ground
          (arith, e, off, stage_broker-db x true (x.uuid 0) saved, disabled_update id d' here refl)
  ]

  finish_archive-disabled :
      (ssl : Openssl) (id : String) (staged : Gateway)
      → enabled_in k staged.db.devices ≡ false
      → enabled_in k (finish_archive x ssl id staged).1.db.devices ≡ false
  unfolding finish_archive log_action
  finish_archive-disabled ssl id staged v =
      let r = revoke_archived ssl id staged.db.certificates staged.crl in
      let saved : Gateway = record staged {
        db = record (staged.db) { certificates = r.certificates };
        crl = r.crl;
      } in
      elim (Bool-cases r.finished) [
        | inl all ↦ rw (all, finish_archive, stage_broker-db x true (x.uuid 1) saved) v
        | inr part ↦ rw (part, finish_archive) v
      ]

  pub archive_device-disabled :
      (w : IsWellFormed g.db) (ssl : Openssl) (id confirm : String)
      → enabled_in k (archive_device x ssl id confirm g).1.db.devices ≡ false
  unfolding archive_device archive_device_record
  archive_device-disabled w ssl id confirm = elim (Option-cases (device_record g.db id)) [
    | inl e ↦ rw (e, archive_device) off
    | inr (d, e) ↦
        let d' : Device = record d {
          status = DeviceStatus.archived;
          enabled = false;
          trusted = false;
          archived_at = some x.now;
          scheduled_deletion_at = some (x.now + archive_retention_ms);
        } in
        let saved : Gateway = record g { db = archived_db x.now id d' g.db } in
        let staged = stage_broker x true (x.uuid 0) saved in
        let (ok, here) = found_ok g.db id d w e in
        let v : enabled_in k staged.db.devices ≡ false =
          rw (stage_broker-db x true (x.uuid 0) saved) (disabled_update id d' here refl) in
        ground (arith, e, off, finish_archive-disabled ssl id staged v)
  ]

  pub permanently_delete_device-disabled :
      (ssl : Openssl) (revision id actor : String) (defer : Bool)
      → enabled_in k (permanently_delete_device x ssl revision id actor defer g).1.db.devices
        ≡ false
  permanently_delete_device-disabled ssl revision id actor defer =
      rw (permanently_delete_device-db x ssl revision id actor defer g) (
        ground
          (arith, off, enabled_in-remove_first k (λ (d : Device). d.id === id) g.db.devices off))
