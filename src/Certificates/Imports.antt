-- ===== src/Certificates/Imports.antt =====
-- What an import leaves: a record of a certificate in force, and the device table but for a new identity.
use mqtt_trust_gateway.Base.{ℕ, ◌⊎◌, String, ◌≡◌, false, some, List, ◌∷◌, split_text}
use mqtt_trust_gateway.Db.{Db, Device, Certificate}
use mqtt_trust_gateway.Broker.{Context}
use mqtt_trust_gateway.Certificates.{Pki, X509}
use mqtt_trust_gateway.Certificates.Import.{Reader, first_cn}
use mqtt_trust_gateway.Certificates.Acceptance.{InForce, Vouched}
use mqtt_trust_gateway.Certificates.Authorities.{
  ImportBody, is_registered_fingerprint, is_buried_fingerprint,
}

-- A record that an import may add: in force, for the identity that its subject names, with a
-- fingerprint that no certificate and no tombstone has.
pub record Fresh (pki : Pki) (r : Reader) (now : ℕ) (db : Db) (c : Certificate) : Type 0 where
  pub pem : String
  pub meta : X509
  pub stored : c.certificate ≡ some pem
  pub in_force : InForce pki r now pem meta
  pub named : first_cn (split_text 10 meta.subject) ≡ c.device_id
  pub unregistered : is_registered_fingerprint meta.fingerprint db ≡ false
  pub unburied : is_buried_fingerprint meta.fingerprint db ≡ false
  -- the record is not trusted, or an authority stands for it
  pub vouched : (c.broker_trusted ≡ false) ⊎ Vouched pki r db.trusted_cas pem

module _ (x : Context) (pki : Pki) (r : Reader) (body : ImportBody) (db : Db) where
  abbrev Added : Certificate × Db → Type 0
  Added (c, after) =
      (rest : List Certificate) × (after.certificates ≡ c ∷ rest) × Fresh pki r x.now db c

  abbrev SameRecords : Device × Db → Type 0
  SameRecords (d, db') =
      (db'.certificates ≡ db.certificates) × (db'.deleted_identities ≡ db.deleted_identities)
