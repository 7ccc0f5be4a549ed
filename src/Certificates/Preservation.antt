-- ===== src/Certificates/Preservation.antt =====
-- Every certificate route keeps the device table well formed.
use mqtt_trust_gateway.Base.{
  ℕ, String, ◌≡◌, refl, ◌⊎◌, subst, Bool, true, false, if◌then◌else◌, Option-cases, Result-cases,
  >>=-eq-ok, trim, inl, inr, ok, arith,
}
use mqtt_trust_gateway.Db.{Db, Device, Certificate}
use mqtt_trust_gateway.Broker.{Gateway, Context, log_action}
use mqtt_trust_gateway.Broker.Staging.{stage_broker-db}
use mqtt_trust_gateway.Registry.{Openssl, update_device, is_internal}
use mqtt_trust_gateway.Registry.Invariant.{IsWellFormed}
use mqtt_trust_gateway.Certificates.Identities.{disable-WellFormed, ensure_identity-WellFormed}
use mqtt_trust_gateway.Certificates.{
  Pki, Issued, add_issued_record, ensure_identity, find_certificate, update_certificate, text_id,
  sign_device_csr,
}
use mqtt_trust_gateway.Certificates.Routes.{
  IssueBody, record_issued, sign_certificate, renew_certificate, revoke_route, remove_license,
  disable, revoked_now, license_removed, block_license, try_revoke, reissue, renewal, renewed_id,
  signed_request, csr_text,
}
use mqtt_trust_gateway.Certificates.External.{
  KeyPair, GenerateBody, generate_key_pair, generated, prepared, generate_certificate, external_csr,
  generated_pair, cancel_pending, private_key_once, private_key_received,
}

-- The devices and the tombstones stay as they are.
pub record SameTable (db db' : Db) : Type 0 where
  pub devices : db'.devices ≡ db.devices
  pub buried : db'.deleted_identities ≡ db.deleted_identities

pub SameTable-WellFormed : (db db' : Db) → SameTable db db' → IsWellFormed db → IsWellFormed db'
SameTable-WellFormed db db' s w = rw (s.devices, s.buried) w

either : {P Q A B C : Type 0} → (A → P → C) → (B → Q → C) → P → Q → A ⊎ B → C
either f g p q (inl a) = f a p
either f g p q (inr b) = g b q

module _ (x : Context) where
  -- The devices are those of the database that was loaded or of the one that was saved.
  pub record_issued-tables :
      (pki : Pki) (i : Issued) (action : String) (db : Db) (g : Gateway)
      → SameTable g.db (record_issued x pki i action db g).1.db
        ⊎ SameTable db (record_issued x pki i action db g).1.db
  unfolding record_issued add_issued_record log_action
  record_issued-tables pki i action db g = elim (Option-cases (pki.x509 i.certificate)) [
    | inl e ↦
        inl (rw (e, record_issued, add_issued_record) (record { devices = refl; buried = refl }))
    | inr (meta, e) ↦ inr (
        rw (e, record_issued, add_issued_record)
          (rw (stage_broker-db x false (x.uuid 1) _) (record { devices = refl; buried = refl })))
  ]

  module _ (g : Gateway) where
    pub sign_certificate-SameTable :
        (pki : Pki) (body : IssueBody) → SameTable g.db (sign_certificate x pki body g).1.db
    unfolding sign_certificate
    sign_certificate-SameTable pki body =
        elim (Result-cases (
          sign_device_csr pki x.now g.ca_serial (text_id body.device_id) (csr_text body.csr)
            body.days)) [
              | inr (c, m, e) ↦ ground (arith, e)
              | inl ((pem, serial), e) ↦
                  let h : Gateway = record g { ca_serial = serial } in
                  ground (
                    arith,
                    e,
                    record_issued-tables pki (signed_request body pem) "certificate.issued" g.db h,
                  )
            ]

    pub renew_certificate-SameTable :
        (pki : Pki) (id : String) (body : IssueBody)
        → SameTable g.db (renew_certificate x pki id body g).1.db
    unfolding renew_certificate
    renew_certificate-SameTable pki id body = elim (Option-cases (find_certificate g.db id)) [
      | inl e ↦ rw (e, renew_certificate) (record { devices = refl; buried = refl })
      | inr (c, e) ↦
          let supplied = trim (csr_text body.csr) in
          let previous : Certificate = record c { device_id = renewed_id g.db body c } in
          let r = reissue pki x.now body supplied previous g in
          let h : Gateway = record g { ca_serial = r.1 } in
          elim (Result-cases r.0) [
            | inr (code, m, f) ↦ ground (arith, e, f)
            | inl (pem, f) ↦ ground (
              arith,
              e,
              f,
              record_issued-tables pki (renewal supplied pem previous) "certificate.renewed" g.db h,
            )
          ]
    ]

    pub cancel_pending-SameTable : (id : String) → SameTable g.db (cancel_pending x id g).1.db
    unfolding cancel_pending log_action
    cancel_pending-SameTable id = ground arith

    pub private_key_once-SameTable : (id : String) → SameTable g.db (private_key_once x id g).2.db
    unfolding private_key_once
    private_key_once-SameTable id = ground arith

    pub private_key_received-SameTable :
        (id : String) → SameTable g.db (private_key_received x id g).1.db
    unfolding private_key_received log_action
    private_key_received-SameTable id = ground arith

    generated-WellFormed :
        (pki : Pki) (drawn : KeyPair) (body : GenerateBody) {r : Device × Db × String × ℕ}
        → IsWellFormed g.db
        → generated x pki drawn body g ≡ ok r
        → IsWellFormed r.1
    unfolding generated
    generated-WellFormed pki drawn body {r} w e =
        let (made, f, rest) =
          >>=-eq-ok (ensure_identity x.now body.id body.name body.description g.db) _ e in
        let (pair, h, rest') = >>=-eq-ok (generate_key_pair drawn body.algorithm) _ rest in
        let (signed, k, last) =
          >>=-eq-ok (sign_device_csr pki x.now g.ca_serial body.id pair.csr body.days) _ rest' in
        let v =
          ensure_identity-WellFormed x.now body.id body.name body.description g.db {d = made.0}
            {db' = made.1} w f in
        let same : made.1 ≡ r.1 = ground (arith, last) in subst IsWellFormed same v

    pub generate_certificate-WellFormed :
        (pki : Pki) (drawn : KeyPair) (body : GenerateBody)
        → IsWellFormed g.db
        → IsWellFormed (generate_certificate x pki drawn body g).1.db
    unfolding generate_certificate generated
    generate_certificate-WellFormed pki drawn body w =
        elim (Result-cases (generated x pki drawn body g)) [
          | inr (c, m, e) ↦ rw (e, generate_certificate) w
          | inl ((device, db, pem, serial), e) ↦
              let h : Gateway = record g { ca_serial = serial } in
              let v = generated-WellFormed pki drawn body w e in
              let after =
                (record_issued x pki (generated_pair device.id pem) "certificate.generated" db
                  h).1.db in
              rw (e, generate_certificate)
                (either (SameTable-WellFormed g.db after) (SameTable-WellFormed db after) w v (
                  record_issued-tables pki (generated_pair device.id pem) "certificate.generated" db
                    h))
        ]

    pub external_csr-WellFormed :
        (drawn : KeyPair) (body : GenerateBody)
        → IsWellFormed g.db
        → IsWellFormed (external_csr x drawn body g).1.db
    unfolding external_csr prepared log_action
    external_csr-WellFormed drawn body w =
        elim (Result-cases (ensure_identity x.now body.id body.name body.description g.db)) [
          | inr (c, m, e) ↦ ground (arith, e, w)
          | inl ((device, db), e) ↦ ground (
            arith,
            e,
            w,
            ensure_identity-WellFormed x.now body.id body.name body.description g.db {d = device}
                {db' = db} w e,
          )
        ]

    pub revoke_route-WellFormed :
        (ssl : Openssl) (id : String)
        → IsWellFormed g.db
        → IsWellFormed (revoke_route x ssl id g).1.db
    unfolding revoke_route log_action
    revoke_route-WellFormed ssl id w = elim (Option-cases (find_certificate g.db id)) [
      | inl e ↦ rw (e, revoke_route) w
      | inr (c, e) ↦
          let tried = if is_internal c.issuer then try_revoke ssl c g.crl else (true, g.crl) in
          let db = update_device c.device_id disable (update_certificate id (revoked_now x) g.db) in
          let saved : Gateway = record g { db = db; crl = tried.1 } in
          ground (
            arith,
            e,
            w,
            disable-WellFormed c.device_id (update_certificate id (revoked_now x) g.db) w,
            stage_broker-db x true (x.uuid 0) saved,
          )
    ]

    pub remove_license-WellFormed :
        (ssl : Openssl) (permanent : Bool) (id confirm : String)
        → IsWellFormed g.db
        → IsWellFormed (remove_license x ssl permanent id confirm g).1.db
    unfolding remove_license log_action
    remove_license-WellFormed ssl permanent id confirm w =
        elim (Option-cases (find_certificate g.db id)) [
          | inl e ↦ rw (e, remove_license) w
          | inr (c, e) ↦
              let blocked = block_license ssl c g.crl in
              let db = update_certificate id (license_removed x permanent) g.db in
              let db' = if blocked.0 then db else update_device c.device_id disable db in
              let saved : Gateway = record g { db = db'; crl = blocked.1 } in
              ground (
                arith,
                e,
                w,
                disable-WellFormed c.device_id db w,
                stage_broker-db x true (x.uuid 0) saved,
              )
        ]
