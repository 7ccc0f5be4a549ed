-- ===== src/Requests/Quiet.antt =====
-- The certificate routes give no device access.
use mqtt_trust_gateway.Base.{
  ℕ, String, ◌≡◌, refl, subst, Bool, true, false, if◌then◌else◌, Option-cases, Result-cases,
  >>=-eq-ok, inl, inr, ok, arith,
}
use mqtt_trust_gateway.Db.{Db, Device}
use mqtt_trust_gateway.Broker.{Gateway, Context, log_action}
use mqtt_trust_gateway.Broker.Staging.{stage_broker-db}
use mqtt_trust_gateway.Registry.{Openssl, update_device, is_internal}
use mqtt_trust_gateway.Registry.Access.{enabled_in, enabled_in-append, enabled_in-modify}
use mqtt_trust_gateway.Certificates.{
  Pki, Identifier, text_id, list_id, value_id, ensure_identity, new_identity, find_certificate,
  update_certificate, sign_device_csr,
}
use mqtt_trust_gateway.Certificates.Routes.{
  revoke_route, remove_license, disable, revoked_now, license_removed, block_license, try_revoke,
}
use mqtt_trust_gateway.Certificates.External.{
  KeyPair, GenerateBody, generate_key_pair, generated, prepared, generated_pair,
  generate_certificate, external_csr,
}
use mqtt_trust_gateway.Certificates.Preservation.{SameTable, record_issued-tables}

abbrev pub Off : String → Db → Type 0
Off k db = enabled_in k db.devices ≡ false

pub SameTable-Off : (k : String) (db db' : Db) → SameTable db db' → Off k db → Off k db'
SameTable-Off k db db' s off = rw (s.devices) off

module _ (x : Context) (g : Gateway) (k : String) (off : Off k g.db) where
  disable-Off :
      (id : String) (db : Db) → db.devices ≡ g.db.devices → Off k (update_device id disable db)
  disable-Off id db same =
      enabled_in-modify id k disable db.devices (λ d. (refl, refl)) (rw same off)

  pub revoke_route-Off : (ssl : Openssl) (id : String) → Off k (revoke_route x ssl id g).1.db
  unfolding revoke_route log_action
  revoke_route-Off ssl id = elim (Option-cases (find_certificate g.db id)) [
    | inl e ↦ rw (e, revoke_route) off
    | inr (c, e) ↦
        let tried = if is_internal c.issuer then try_revoke ssl c g.crl else (true, g.crl) in
        let db = update_device c.device_id disable (update_certificate id (revoked_now x) g.db) in
        let saved : Gateway = record g { db = db; crl = tried.1 } in
        ground (
          arith,
          e,
          off,
          disable-Off c.device_id (update_certificate id (revoked_now x) g.db) refl,
          stage_broker-db x true (x.uuid 0) saved,
        )
  ]

  pub remove_license-Off :
      (ssl : Openssl) (permanent : Bool) (id confirm : String)
      → Off k (remove_license x ssl permanent id confirm g).1.db
  unfolding remove_license log_action
  remove_license-Off ssl permanent id confirm = elim (Option-cases (find_certificate g.db id)) [
    | inl e ↦ rw (e, remove_license) off
    | inr (c, e) ↦
        let blocked = block_license ssl c g.crl in
        let db = update_certificate id (license_removed x permanent) g.db in
        let db' = if blocked.0 then db else update_device c.device_id disable db in
        let saved : Gateway = record g { db = db'; crl = blocked.1 } in
        ground
          (arith, e, off, disable-Off c.device_id db refl, stage_broker-db x true (x.uuid 0) saved)
  ]

  pub ensure_identity-Off :
      (now : ℕ) (id : Identifier) (name description : String) {d : Device} {db' : Db}
      → ensure_identity now id name description g.db ≡ ok (d, db')
      → Off k db'
  unfolding ensure_identity
  ensure_identity-Off now (list_id s) name description e = ground (arith, off, e)
  ensure_identity-Off now (value_id s) name description e = ground (arith, off, e)
  ensure_identity-Off now (text_id id) name description e =
      ground (
        arith,
        off,
        enabled_in-append k (new_identity now id name description) g.db.devices refl off,
      )

  generated-Off :
      (pki : Pki) (drawn : KeyPair) (body : GenerateBody) {r : Device × Db × String × ℕ}
      → generated x pki drawn body g ≡ ok r
      → Off k r.1
  unfolding generated
  generated-Off pki drawn body {r} e =
      let (made, f, rest) =
        >>=-eq-ok (ensure_identity x.now body.id body.name body.description g.db) _ e in
      let (pair, h, rest') = >>=-eq-ok (generate_key_pair drawn body.algorithm) _ rest in
      let (signed, m, last) =
        >>=-eq-ok (sign_device_csr pki x.now g.ca_serial body.id pair.csr body.days) _ rest' in
      let v =
        ensure_identity-Off x.now body.id body.name body.description {d = made.0} {db' = made.1}
          f in
      let same : made.1 ≡ r.1 = ground (arith, last) in subst (Off k) same v

  pub generate_certificate-Off :
      (pki : Pki) (drawn : KeyPair) (body : GenerateBody)
      → Off k (generate_certificate x pki drawn body g).1.db
  unfolding generate_certificate
  generate_certificate-Off pki drawn body = elim (Result-cases (generated x pki drawn body g)) [
    | inr (c, m, e) ↦ rw (e, generate_certificate) off
    | inl ((device, db, pem, serial), e) ↦
        let h : Gateway = record g { ca_serial = serial } in
        let v = generated-Off pki drawn body e in
        let t =
          record_issued-tables x pki (generated_pair device.id pem) "certificate.generated" db h in
        ground (arith, e, off, v, t)
  ]

  pub external_csr-Off :
      (drawn : KeyPair) (body : GenerateBody) → Off k (external_csr x drawn body g).1.db
  unfolding external_csr prepared log_action
  external_csr-Off drawn body =
      elim (Result-cases (ensure_identity x.now body.id body.name body.description g.db)) [
        | inr (c, m, e) ↦ ground (arith, e, off)
        | inl ((device, db), e) ↦ ground (
          arith,
          e,
          off,
          ensure_identity-Off x.now body.id body.name body.description {d = device} {db' = db} e,
        )
      ]
