-- ===== src/Requests/Burial.antt =====
-- The tombstone of a deleted device stays, through single requests and histories.
use mqtt_trust_gateway.Base.{
  ℕ, ◌+◌, String, ◌≡◌, refl, subst, Bool, true, false, none, some, List, [], ◌∷◌, if◌then◌else◌,
  Option-cases, Bool-cases, Result-cases, >>=-eq-ok, Yields-intro, ok, inl, inr, All, arith,
}
use mqtt_trust_gateway.Db.{Db, Device, DeviceStatus, Tombstone}
use mqtt_trust_gateway.Broker.{Gateway, Context, log_action, stage_broker, apply_broker_changes}
use mqtt_trust_gateway.Broker.Staging.{stage_broker-db}
use mqtt_trust_gateway.Registry.{
  Openssl, update_device, device_record, is_internal, archive_device_record, restore_device_record,
  archive_retention_ms,
}
use mqtt_trust_gateway.Registry.Invariant.{IsWellFormed, is_buried, has_id}
use mqtt_trust_gateway.Registry.Removal.{
  is_buried-permanently_delete_device, is_buried-purge_expired_archives,
}
use mqtt_trust_gateway.Registry.Routes.{
  DeviceBody, PatchBody, patch_access, patch_metadata, create_device, patch_device, archive_device,
  restore_device, approve_device, delete_device, finish_archive, archived_db, revoke_archived,
}
use mqtt_trust_gateway.Certificates.{
  Pki, Identifier, text_id, list_id, value_id, ensure_identity, find_certificate,
  update_certificate, sign_device_csr,
}
use mqtt_trust_gateway.Certificates.Routes.{
  revoke_route, remove_license, disable, revoked_now, license_removed, block_license, try_revoke,
}
use mqtt_trust_gateway.Certificates.External.{
  KeyPair, GenerateBody, generate_key_pair, generated, prepared, generated_pair,
  generate_certificate, external_csr,
}
use mqtt_trust_gateway.Certificates.Preservation.{
  SameTable, record_issued-tables, sign_certificate-SameTable, renew_certificate-SameTable,
  cancel_pending-SameTable, private_key_once-SameTable, private_key_received-SameTable,
}
use mqtt_trust_gateway.Certificates.Trust.{
  import_certificate-Kept, trust_ca-SameTable, untrust_ca-SameTable,
}
use mqtt_trust_gateway.Requests.Invariant.{run-WellFormed}
use mqtt_trust_gateway.Requests.{
  Request, create, patch, archive, restored, approve, delete, purges, sign, renew, generate,
  external, cancel, key_once, key_received, revoke, license, apply, imports, trust, untrust, Tools,
  apply_route, handle, run,
}

abbrev Buried : String → Db → Type 0
Buried k db = is_buried k db.deleted_identities ≡ true

SameTable-Buried : (k : String) (db db' : Db) → SameTable db db' → Buried k db → Buried k db'
SameTable-Buried k db db' s b = rw (s.buried) b

module _ (x : Context) (g : Gateway) (k : String) (b : Buried k g.db) where
  create_device-Buried : (body : DeviceBody) → Buried k (create_device x body g).1.db
  unfolding create_device log_action
  create_device-Buried body = ground (arith, b)

  patch_device-Buried : (id : String) (body : PatchBody) → Buried k (patch_device x id body g).1.db
  unfolding patch_device log_action
  patch_device-Buried id body = elim (Option-cases (device_record g.db id)) [
    | inl e ↦ rw (e, patch_device) b
    | inr (d, e) ↦
        let d' = patch_access body.enabled (patch_metadata x body d) in
        let saved : Gateway = record g { db = update_device id (λ _. d') g.db } in
        ground (arith, e, b, stage_broker-db x true (x.uuid 0) saved)
  ]

  restore_device-Buried : (id : String) → Buried k (restore_device x id g).1.db
  unfolding restore_device log_action restore_device_record
  restore_device-Buried id = elim (Option-cases (device_record g.db id)) [
    | inl e ↦ rw (e, restore_device) b
    | inr (d, e) ↦
        let d' : Device = record d {
          status = DeviceStatus.active;
          enabled = false;
          trusted = false;
          archived_at = none;
          scheduled_deletion_at = none;
        } in
        let saved : Gateway = record g { db = update_device id (λ _. d') g.db } in
        ground (arith, e, b, stage_broker-db x true (x.uuid 0) saved)
  ]

  approve_device-Buried : (id confirm : String) → Buried k (approve_device x id confirm g).1.db
  unfolding approve_device log_action
  approve_device-Buried id confirm = elim (Option-cases (device_record g.db id)) [
    | inl e ↦ rw (e, approve_device) b
    | inr (d, e) ↦
        let d' : Device = record d {
          enabled = true;
          trusted = true;
          approved_at = some x.now;
          approved_by = some x.actor;
        } in
        let saved : Gateway = record g { db = update_device id (λ _. d') g.db } in
        ground (arith, e, b, stage_broker-db x true (x.uuid 0) saved)
  ]

  delete_device-Buried :
      (ssl : Openssl) (id confirm : String) → Buried k (delete_device x ssl id confirm g).1.db
  unfolding delete_device
  delete_device-Buried ssl id confirm =
      ground (arith, b, is_buried-permanently_delete_device x ssl (x.uuid 0) id x.actor true g k b)

  finish_archive-Buried :
      (ssl : Openssl) (id : String) (staged : Gateway)
      → Buried k staged.db
      → Buried k (finish_archive x ssl id staged).1.db
  unfolding finish_archive log_action
  finish_archive-Buried ssl id staged v =
      let r = revoke_archived ssl id staged.db.certificates staged.crl in
      let saved : Gateway = record staged {
        db = record (staged.db) { certificates = r.certificates };
        crl = r.crl;
      } in
      elim (Bool-cases r.finished) [
        | inl all ↦ rw (all, finish_archive, stage_broker-db x true (x.uuid 1) saved) v
        | inr part ↦ rw (part, finish_archive) v
      ]

  archive_device-Buried :
      (ssl : Openssl) (id confirm : String) → Buried k (archive_device x ssl id confirm g).1.db
  unfolding archive_device archive_device_record
  archive_device-Buried ssl id confirm = elim (Option-cases (device_record g.db id)) [
    | inl e ↦ rw (e, archive_device) b
    | inr (d, e) ↦
        let d' : Device = record d {
          status = DeviceStatus.archived;
          enabled = false;
          trusted = false;
          archived_at = some x.now;
          scheduled_deletion_at = some (x.now + archive_retention_ms);
        } in
        let saved : Gateway = record g { db = archived_db x.now id d' g.db } in
        let staged = stage_broker x true (x.uuid 0) saved in
        let v : Buried k staged.db = rw (stage_broker-db x true (x.uuid 0) saved) b in
        ground (arith, e, b, finish_archive-Buried ssl id staged v)
  ]

  revoke_route-Buried : (ssl : Openssl) (id : String) → Buried k (revoke_route x ssl id g).1.db
  unfolding revoke_route log_action
  revoke_route-Buried ssl id = elim (Option-cases (find_certificate g.db id)) [
    | inl e ↦ rw (e, revoke_route) b
    | inr (c, e) ↦
        let tried = if is_internal c.issuer then try_revoke ssl c g.crl else (true, g.crl) in
        let db = update_device c.device_id disable (update_certificate id (revoked_now x) g.db) in
        let saved : Gateway = record g { db = db; crl = tried.1 } in
        ground (arith, e, b, stage_broker-db x true (x.uuid 0) saved)
  ]

  remove_license-Buried :
      (ssl : Openssl) (permanent : Bool) (id confirm : String)
      → Buried k (remove_license x ssl permanent id confirm g).1.db
  unfolding remove_license log_action
  remove_license-Buried ssl permanent id confirm = elim (Option-cases (find_certificate g.db id)) [
    | inl e ↦ rw (e, remove_license) b
    | inr (c, e) ↦
        let blocked = block_license ssl c g.crl in
        let db = update_certificate id (license_removed x permanent) g.db in
        let db' = if blocked.0 then db else update_device c.device_id disable db in
        let saved : Gateway = record g { db = db'; crl = blocked.1 } in
        ground (arith, e, b, stage_broker-db x true (x.uuid 0) saved)
  ]

  ensure_identity-Buried :
      (now : ℕ) (id : Identifier) (name description : String) {d : Device} {db' : Db}
      → ensure_identity now id name description g.db ≡ ok (d, db')
      → Buried k db'
  unfolding ensure_identity
  ensure_identity-Buried now (text_id id) name description e = ground (arith, b, e)
  ensure_identity-Buried now (list_id s) name description e = ground (arith, b, e)
  ensure_identity-Buried now (value_id s) name description e = ground (arith, b, e)

  generated-Buried :
      (pki : Pki) (drawn : KeyPair) (body : GenerateBody) {r : Device × Db × String × ℕ}
      → generated x pki drawn body g ≡ ok r
      → Buried k r.1
  unfolding generated
  generated-Buried pki drawn body {r} e =
      let (made, f, rest) =
        >>=-eq-ok (ensure_identity x.now body.id body.name body.description g.db) _ e in
      let (pair, h, rest') = >>=-eq-ok (generate_key_pair drawn body.algorithm) _ rest in
      let (signed, m, last) =
        >>=-eq-ok (sign_device_csr pki x.now g.ca_serial body.id pair.csr body.days) _ rest' in
      let v =
        ensure_identity-Buried x.now body.id body.name body.description {d = made.0} {db' = made.1}
          f in
      let same : made.1 ≡ r.1 = ground (arith, last) in subst (Buried k) same v

  generate_certificate-Buried :
      (pki : Pki) (drawn : KeyPair) (body : GenerateBody)
      → Buried k (generate_certificate x pki drawn body g).1.db
  unfolding generate_certificate
  generate_certificate-Buried pki drawn body = elim (Result-cases (generated x pki drawn body g)) [
    | inr (c, m, e) ↦ rw (e, generate_certificate) b
    | inl ((device, db, pem, serial), e) ↦
        let h : Gateway = record g { ca_serial = serial } in
        let v = generated-Buried pki drawn body e in
        let t =
          record_issued-tables x pki (generated_pair device.id pem) "certificate.generated" db h in
        ground (arith, e, b, v, t)
  ]

  external_csr-Buried :
      (drawn : KeyPair) (body : GenerateBody) → Buried k (external_csr x drawn body g).1.db
  unfolding external_csr prepared log_action
  external_csr-Buried drawn body =
      elim (Result-cases (ensure_identity x.now body.id body.name body.description g.db)) [
        | inr (c, m, e) ↦ ground (arith, e, b)
        | inl ((device, db), e) ↦ ground (
          arith,
          e,
          b,
          ensure_identity-Buried x.now body.id body.name body.description {d = device} {db' = db} e,
        )
      ]

handle-Buried :
    (t : Tools) (x : Context) (r : Request) (g : Gateway) (k : String)
    → Buried k g.db
    → Buried k (handle t x r g).db
unfolding handle apply_route apply_broker_changes log_action
handle-Buried t x (create body) g k b = create_device-Buried x g k b body
handle-Buried t x (patch id body) g k b = patch_device-Buried x g k b id body
handle-Buried t x (archive id confirm) g k b = archive_device-Buried x g k b t.ssl id confirm
handle-Buried t x (restored id confirm) g k b = restore_device-Buried x g k b id
handle-Buried t x (approve id confirm) g k b = approve_device-Buried x g k b id confirm
handle-Buried t x (delete id confirm) g k b = delete_device-Buried x g k b t.ssl id confirm
handle-Buried t x purges g k b = is_buried-purge_expired_archives x t.ssl g k b
handle-Buried t x (sign body) g k b =
    SameTable-Buried k g.db _ (sign_certificate-SameTable x g t.pki body) b
handle-Buried t x (renew id body) g k b =
    SameTable-Buried k g.db _ (renew_certificate-SameTable x g t.pki id body) b
handle-Buried t x (generate pair body) g k b = generate_certificate-Buried x g k b t.pki pair body
handle-Buried t x (external pair body) g k b = external_csr-Buried x g k b pair body
handle-Buried t x (cancel id) g k b = SameTable-Buried k g.db _ (cancel_pending-SameTable x g id) b
handle-Buried t x (key_once id) g k b =
    SameTable-Buried k g.db _ (private_key_once-SameTable x g id) b
handle-Buried t x (key_received id) g k b =
    SameTable-Buried k g.db _ (private_key_received-SameTable x g id) b
handle-Buried t x (revoke id) g k b = revoke_route-Buried x g k b t.ssl id
handle-Buried t x (license permanent id confirm) g k b =
    remove_license-Buried x g k b t.ssl permanent id confirm
handle-Buried t x apply g k b = ground (arith, b)
handle-Buried t x (imports body) g k b =
    import_certificate-Kept (λ ds ts. is_buried k ts ≡ true) x t.pki t.reader body g b
      (λ id. Yields-intro _ _ (λ made e.
        ensure_identity-Buried x g k b x.now (text_id id) body.name "" {d = made.0} {db' = made.1}
          e))
handle-Buried t x (trust confirm certificate) g k b =
    SameTable-Buried k g.db _ (trust_ca-SameTable x t.pki t.reader confirm certificate g) b
handle-Buried t x (untrust id) g k b =
    SameTable-Buried k g.db _ (untrust_ca-SameTable x t.reader id g) b

run-Buried :
    (t : Tools) (rs : List (Context × Request)) (g : Gateway) (k : String)
    → Buried k g.db
    → Buried k (run t rs g).db
unfolding run
run-Buried t [] g k b = b
run-Buried t ((x, r) ∷ rs) g k b = run-Buried t rs (handle t x r g) k (handle-Buried t x r g k b)

buried_unregistered :
    (k : String) (ts : List Tombstone) (ds : List Device)
    → is_buried k ts ≡ true
    → All (λ (d : Device). is_buried d.id ts ≡ false) ds
    → has_id k ds ≡ false
buried_unregistered k ts [] b h = refl
buried_unregistered k ts (d ∷ ds) b h = ground (arith, buried_unregistered k ts ds b h.1)

-- From a well-formed table, a text that has a tombstone as an identifier keeps it through any history of
-- requests, handled one after the other, and no device is registered again under that text.
pub run-buried :
    (t : Tools) (rs : List (Context × Request)) (g : Gateway) (k : String)
    → IsWellFormed g.db
    → is_buried k g.db.deleted_identities ≡ true
    → (is_buried k (run t rs g).db.deleted_identities ≡ true)
      × (has_id k (run t rs g).db.devices ≡ false)
run-buried t rs g k w b =
    let w' = run-WellFormed t rs g w in
    let b' = run-Buried t rs g k b in
    (
      b',
      buried_unregistered k (run t rs g).db.deleted_identities (run t rs g).db.devices b'
          w'.unburied,
    )
