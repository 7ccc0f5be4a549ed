-- ===== src/Certificates/Trust.antt =====
-- What the import and the changes of trust leave of the device table, and what an authority that is no
-- longer trusted stands for.
use mqtt_trust_gateway.Base.{
  ℕ, String, ◌≡◌, refl, Bool, true, false, ◌&&◌, not, Option, none, some, List, [], ◌∷◌, map, find?,
  ◌===◌, if◌then◌else◌, All, Option-cases, Bool-cases, Result-cases, inl, inr, Yields, Yields->>=,
  Yields-ok, require, arith,
}
use mqtt_trust_gateway.Db.{Db, Device, Certificate, Tombstone, TrustedCa}
use mqtt_trust_gateway.Broker.{Gateway, Context, log_action, is_usable}
use mqtt_trust_gateway.Broker.Staging.{stage_broker-db}
use mqtt_trust_gateway.Certificates.{text_id, Pki, add_issued_record, ensure_identity}
use mqtt_trust_gateway.Certificates.Import.{Reader, Imported, import_client_certificate}
use mqtt_trust_gateway.Certificates.Authorities.{
  ImportBody, pending_of, is_completable, subject_id, expected_key, is_registered_fingerprint,
  is_buried_fingerprint, add_imported, accept_import, import_certificate, initialize_ca,
  new_trusted_ca, is_issued_by, set_trust, trust_ca, untrust_ca,
}
use mqtt_trust_gateway.Certificates.Preservation.{SameTable}

module _ (P : List Device → List Tombstone → Type 0) (x : Context) (pki : Pki) (r : Reader) where
  abbrev pub Kept : Db → Type 0
  Kept db = P db.devices db.deleted_identities

  add_imported-Kept :
      (pending : Option Certificate) (device_id : String) (i : Imported) (db : Db)
      → Kept db
      → Yields
          (λ (made : Certificate × Db). Kept made.1)
          (add_imported x pki pending device_id i db)
  unfolding add_imported add_issued_record
  add_imported-Kept none device_id i db h = elim (Option-cases (pki.x509 i.certificate)) [
    | inl e ↦ rw (add_imported, add_issued_record, e) tt
    | inr (meta, e) ↦ rw (add_imported, add_issued_record, e) h
  ]
  add_imported-Kept (some c) device_id i db h = elim (Option-cases (pki.x509 i.certificate)) [
    | inl e ↦ rw (add_imported, add_issued_record, e) tt
    | inr (meta, e) ↦ rw (add_imported, add_issued_record, e) h
  ]

  -- A condition on the device table holds after an import, if it does before and after the identity is
  -- looked up or registered.
  pub import_certificate-Kept :
      (body : ImportBody) (g : Gateway)
      → Kept g.db
      → ((id : String)
          → Yields
              (λ (made : Device × Db). Kept made.1)
              (ensure_identity x.now (text_id id) body.name "" g.db))
      → Kept (import_certificate x pki r body g).1.db
  unfolding import_certificate accept_import log_action
  import_certificate-Kept body g h ensured =
      let Q : Certificate × Db → Type 0 = λ made. Kept made.1 in
      let accepted : Yields Q (accept_import x pki r body g.db) =
        Yields->>= Q (pending_of g.db body.pending_id) _ λ pending _.
          Yields->>= Q (require (is_completable pending) 409 _) _ λ _ _.
            Yields->>= Q
              (ensure_identity x.now (text_id (subject_id pending body)) body.name "" g.db) _
              λ made known.
                Yields->>= Q
                  (import_client_certificate pki r x.now g.db.trusted_cas body.certificate
                    body.chain body.private_key (expected_key pending))
                  _
                  λ i _.
                    Yields->>= Q (require (i.common_name === subject_id pending body) 400 _) _
                      λ _ _.
                        Yields->>= Q
                          (require (not (is_registered_fingerprint i.meta.fingerprint made.1)) 409
                            _)
                          _
                          λ _ _.
                            Yields->>= Q
                              (require (not (is_buried_fingerprint i.meta.fingerprint made.1)) 409
                                _)
                              _
                              λ _ _. add_imported-Kept pending (subject_id pending body) i made.1 (
                                Yields-ok (λ (m : Device × Db). Kept m.1) _ made
                                  (ensured (subject_id pending body)) known) in
      elim (Result-cases (accept_import x pki r body g.db)) [
        | inr (code, message, e) ↦ rw (import_certificate, e) h
        | inl ((c, after), e) ↦
            let saved : Gateway = record g { db = after } in
            let end = Yields-ok Q _ (c, after) accepted e in
            rw (import_certificate, e, stage_broker-db x true (x.uuid 1) saved) end
      ]

pub trust_ca-SameTable :
    (x : Context) (pki : Pki) (r : Reader) (confirm certificate : String) (g : Gateway)
    → SameTable g.db (trust_ca x pki r confirm certificate g).1.db
unfolding trust_ca initialize_ca log_action
trust_ca-SameTable x pki r confirm certificate g =
    elim (Bool-cases (not (confirm === "TRUST THIS CA"))) [
      | inl b ↦ rw (trust_ca, b) (record { devices = refl; buried = refl })
      | inr b ↦ elim (Result-cases (new_trusted_ca x pki r certificate g.db)) [
        | inr (code, message, e) ↦ rw (trust_ca, b, e) (record { devices = refl; buried = refl })
        | inl (t, e) ↦ elim (Option-cases r.local_ca) [
          | inl m ↦ rw (trust_ca, b, e, initialize_ca, m) (record { devices = refl; buried = refl })
          | inr (ca, m) ↦
              rw (trust_ca, b, e, initialize_ca, m, stage_broker-db x true (x.uuid 1) _)
                (record { devices = refl; buried = refl })
        ]
      ]
    ]

pub untrust_ca-SameTable :
    (x : Context) (r : Reader) (id : String) (g : Gateway)
    → SameTable g.db (untrust_ca x r id g).1.db
unfolding untrust_ca initialize_ca log_action
untrust_ca-SameTable x r id g =
    elim (Option-cases (find? (λ (t : TrustedCa). t.id === id) g.db.trusted_cas)) [
      | inl e ↦ rw (untrust_ca, e) (record { devices = refl; buried = refl })
      | inr (t, e) ↦ elim (Option-cases r.local_ca) [
        | inl m ↦ rw (untrust_ca, e, initialize_ca, m) (record { devices = refl; buried = refl })
        | inr (ca, m) ↦
            rw (untrust_ca, e, initialize_ca, m, stage_broker-db x true (x.uuid 0) _)
              (record { devices = refl; buried = refl })
      ]
    ]

-- A certificate that an authority issued opens nothing.
abbrev pub IsClosed : (fingerprint : String) → (now : ℕ) → Certificate → Type 0
IsClosed f now c = (is_issued_by f c && is_usable now c) ≡ false

set_trust-IsClosed :
    (f : String) (now : ℕ) (c : Certificate) (b : Bool)
    → is_issued_by f c ≡ b
    → IsClosed f now (if b then record c { broker_trusted = false } else c)
set_trust-IsClosed f now c true h = ground (arith, h)
set_trust-IsClosed f now c false h = ground (arith, h)

trust_issued-IsClosed :
    (f : String) (now : ℕ) (cs : List Certificate)
    → All (IsClosed f now) (map (set_trust f false) cs)
trust_issued-IsClosed f now [] = tt
trust_issued-IsClosed f now (c ∷ cs) =
    (set_trust-IsClosed f now c (is_issued_by f c) refl, trust_issued-IsClosed f now cs)

-- Taking the trust from an authority closes every certificate that it issued, also where the files of
-- the local authority are missing and the request fails after that.
pub untrust_ca-closes :
    (x : Context) (r : Reader) (id : String) (g : Gateway) (t : TrustedCa) (now : ℕ)
    → find? (λ (u : TrustedCa). u.id === id) g.db.trusted_cas ≡ some t
    → All (IsClosed t.fingerprint now) (untrust_ca x r id g).1.db.certificates
unfolding untrust_ca initialize_ca log_action
untrust_ca-closes x r id g t now e =
    let closed = trust_issued-IsClosed t.fingerprint now g.db.certificates in
    elim (Option-cases r.local_ca) [
      | inl m ↦ rw (untrust_ca, e, initialize_ca, m) closed
      | inr (ca, m) ↦
          rw (untrust_ca, e, initialize_ca, m, stage_broker-db x true (x.uuid 0) _) closed
    ]
