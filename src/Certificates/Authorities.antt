-- ===== src/Certificates/Authorities.antt =====
-- The authorities that the broker trusts beside the local one, and the import of a certificate that one
-- of them may have issued: the routes of admin-web/src/routes/certificate-routes.js.
use Prim.Native.String.{◌++◌ as ◌<>◌}
use mqtt_trust_gateway.Base.{
  ℕ, String, Bool, true, false, ◌&&◌, not, Option, none, some, List, [], ◌∷◌, ◌++◌, ltb, ◌===◌,
  if◌then◌else◌, any, find?, filter, map, Result, ok, err, ◌>>=◌, ◌>>◌, require,
}
use mqtt_trust_gateway.Db.{Db, Certificate, CertificateStatus, Issuer, TrustedCa, Tombstone}
use mqtt_trust_gateway.Broker.{Gateway, Context, stage_broker, log_action}
use mqtt_trust_gateway.Registry.{Response, done, refused, thrown, is_internal as is_own_issuer}
use mqtt_trust_gateway.Certificates.{
  Pki, Issued, text_id, from_option, find_certificate, update_certificate, ensure_identity,
  add_issued_record,
}
use mqtt_trust_gateway.Certificates.Pem.{pem_certificates, join_lines}
use mqtt_trust_gateway.Certificates.External.{is_pending_status}
use mqtt_trust_gateway.Certificates.Import.{Reader, Imported, first, import_client_certificate}

pub record ImportBody : Type 0 where
  pub pending_id : String
  pub device_id : String
  pub name : String
  pub certificate : String
  pub chain : String
  pub private_key : String

-- `none` is a request without `pendingId`.
abbrev pub pending_of : Db → String → Result (Option Certificate)
pending_of db id = if id === "" then ok none else elim (find_certificate db id) [
  | none ↦ err 404 "Certificate not found"
  | some c ↦ ok (some c)
]

abbrev pub is_completable : Option Certificate → Bool
is_completable none = true
is_completable (some c) = is_pending_status c.status && c.private_key_received

abbrev pub subject_id : Option Certificate → ImportBody → String
subject_id none body = body.device_id
subject_id (some c) body = if c.device_id === "" then body.device_id else c.device_id

abbrev pub expected_key : Option Certificate → String
expected_key none = ""
expected_key (some c) = elim c.public_key [ none ↦ "" | some key ↦ key ]

abbrev pub is_registered_fingerprint : String → Db → Bool
is_registered_fingerprint f db = any (λ (c : Certificate). c.fingerprint === f) db.certificates

abbrev pub is_buried_fingerprint : String → Db → Bool
is_buried_fingerprint f db =
    any (λ (t : Tombstone). any (λ g. g === f) t.fingerprints) db.deleted_identities

abbrev pub imported_record : Option Certificate → (device_id : String) → Imported → Issued
imported_record pending device_id i = record {
  device_id = device_id;
  certificate = i.certificate;
  method = elim pending [ none ↦ "imported" | some c ↦ "external-csr" ];
  issuer = if i.is_internal then Issuer.local else Issuer.external;
  broker_trusted = i.trusted;
  csr = elim pending [ none ↦ "" | some c ↦ c.csr ];
  renewed_from = "";
}

abbrev pub complete_pending : ℕ → Option Certificate → Db → Db
complete_pending now none db = db
complete_pending now (some c) db =
    update_certificate c.id
      (λ d. record d {
        status = CertificateStatus.completed;
        completed_at = some now;
        public_key = none;
        csr = "";
      })
      db

-- The record of the import goes first, with its chain and its issuer.
abbrev pub with_chain : Imported → Certificate → Certificate
with_chain i c = record c { chain = i.chain; issuer_fingerprint = some i.issuer_fingerprint }

unfoldable pub add_imported :
    Context
    → Pki
    → Option Certificate
    → (device_id : String) → Imported
    → Db
    → Result (Certificate × Db)
unfolding add_issued_record
add_imported x pki pending device_id i db = do
  (c, _) ← add_issued_record x pki (x.uuid 0) (imported_record pending device_id i) db
  let completed = complete_pending x.now pending db
  ok (with_chain i c, record completed { certificates = with_chain i c ∷ completed.certificates })

-- What the route checks before it saves anything: the record, and the database with it.
unfoldable pub accept_import : Context → Pki → Reader → ImportBody → Db → Result (Certificate × Db)
accept_import x pki r body db = do
  pending ← pending_of db body.pending_id
  require (is_completable pending) 409
      "Confirm receipt of the one-time private key before completing this CSR"
  let device_id = subject_id pending body
  (_, db') ← ensure_identity x.now (text_id device_id) body.name "" db
  i ←
      import_client_certificate pki r x.now db.trusted_cas body.certificate body.chain
        body.private_key (expected_key pending)
  require (i.common_name === device_id) 400
      "Certificate subject CN must exactly match the MQTT identity"
  require (not (is_registered_fingerprint i.meta.fingerprint db')) 409
      "Certificate is already registered"
  require (not (is_buried_fingerprint i.meta.fingerprint db')) 409
      "This certificate belongs to a permanently deleted identity"
  add_imported x pki pending device_id i db'

-- `POST /api/certificates/import`
unfoldable pub import_certificate :
    Context → Pki → Reader → ImportBody → Gateway → Response × Gateway
import_certificate x pki r body g = elim (accept_import x pki r body g.db) [
  | err c m ↦ (thrown c m, g)
  | ok (c, db) ↦
      let saved : Gateway = record g { db = db } in
      (
        done 201,
        log_action x "certificate.imported" (c.device_id <> ":" <> c.fingerprint)
            (stage_broker x true (x.uuid 1) saved),
      )
]

-- The bundle that `initializeCa` writes for the broker, where the files of the authority are there.
unfoldable pub trust_bundle : String → List TrustedCa → String
trust_bundle ca cas =
    join_lines
      (ca ∷ map (λ (t : TrustedCa). t.certificate) (filter (λ (t : TrustedCa). t.enabled) cas))

unfoldable pub initialize_ca : Reader → Gateway → Result Gateway
initialize_ca r g = elim r.local_ca [
  | none ↦ err 500 "Incomplete CA"
  | some ca ↦
      ok (record g { broker = record (g.broker) { ca_bundle = trust_bundle ca g.db.trusted_cas } })
]

abbrev pub is_ca_fingerprint : String → TrustedCa → Bool
is_ca_fingerprint f t = t.fingerprint === f

-- `addTrustedCa`, up to the save
unfoldable pub new_trusted_ca : Context → Pki → Reader → String → Db → Result TrustedCa
new_trusted_ca x pki r certificate db = do
  pem ← from_option "A PEM CA certificate is required" (first (pem_certificates certificate))
  meta ← from_option "X509" (pki.x509 pem)
  more ← from_option "X509" (r.details pem)
  require (meta.is_ca && not (ltb x.now more.valid_from) && ltb x.now meta.valid_to) 500
      "The certificate must be a currently valid CA certificate"
  require (not (any (is_ca_fingerprint meta.fingerprint) db.trusted_cas)) 500
      "CA is already trusted"
  ok record {
    id = x.uuid 0;
    certificate = pem;
    fingerprint = meta.fingerprint;
    enabled = true;
    added_at = x.now;
  }

abbrev pub is_issued_by : String → Certificate → Bool
is_issued_by f c = elim c.issuer_fingerprint [ none ↦ false | some g ↦ g === f ]

-- The certificates of an authority follow the trust in it.
abbrev pub set_trust : String → Bool → Certificate → Certificate
set_trust f b c = if is_issued_by f c then record c { broker_trusted = b } else c

abbrev pub trust_issued : String → Bool → Db → Db
trust_issued f b db = record db { certificates = map (set_trust f b) db.certificates }

-- `POST /api/trusted-cas`
unfoldable pub trust_ca :
    Context → Pki → Reader → (confirm certificate : String) → Gateway → Response × Gateway
trust_ca x pki r confirm certificate g =
    if not (confirm === "TRUST THIS CA")
    then (refused 400 "Explicit CA trust confirmation is required", g)
    else elim (new_trusted_ca x pki r certificate g.db) [
      | err c m ↦ (thrown c m, g)
      | ok t ↦
          let added : Gateway = record g {
            db = record (g.db) { trusted_cas = g.db.trusted_cas ++ t ∷ [] };
          } in
          elim (initialize_ca r added) [
            | err c m ↦ (thrown c m, added)
            | ok ready ↦
                let saved : Gateway = record ready {
                  db = trust_issued t.fingerprint true ready.db;
                } in
                (
                  done 201,
                  log_action x "ca.trusted" t.fingerprint (stage_broker x true (x.uuid 1) saved),
                )
          ]
    ]

-- `DELETE /api/trusted-cas/:id`
unfoldable pub untrust_ca : Context → Reader → (id : String) → Gateway → Response × Gateway
untrust_ca x r id g = elim (find? (λ (t : TrustedCa). t.id === id) g.db.trusted_cas) [
  | none ↦ (refused 404 "Trusted CA not found", g)
  | some t ↦
      let removed : Db = record (g.db) {
        trusted_cas = filter (λ (u : TrustedCa). not (u.id === t.id)) g.db.trusted_cas;
      } in
      let saved : Gateway = record g { db = trust_issued t.fingerprint false removed } in
      elim (initialize_ca r saved) [
        | err c m ↦ (thrown c m, saved)
        | ok ready ↦ (
          done 200,
          log_action x "ca.untrusted" t.fingerprint (stage_broker x true (x.uuid 0) ready),
        )
      ]
]

abbrev pub or_missing {ℓ} : {A : Type ℓ} → String → Option A → Result A
or_missing message none = err 404 message
or_missing message (some a) = ok a

-- `GET /api/certificates/:id/chain`
unfoldable pub certificate_chain : Reader → (id : String) → Gateway → Result String
certificate_chain r id g = do
  c ← or_missing "Certificate not found" (find_certificate g.db id)
  pem ← or_missing "Certificate is not issued yet" c.certificate
  if is_own_issuer c.issuer
      then from_option "ENOENT" r.local_ca
      else ok (
          if not (c.chain === "")
          then c.chain
          else elim (find? (λ (t : TrustedCa). is_issued_by t.fingerprint c) g.db.trusted_cas) [
            | none ↦ ""
            | some t ↦ t.certificate
          ])
