-- ===== src/Registry/Removal.antt =====
-- Deleting a device: its record goes, its identifier is buried.
use mqtt_trust_gateway.Base.{
  ℕ, ◌+◌, String, ◌≡◌, refl, Bool, true, false, ◌||◌, not, List, [], ◌∷◌, ◌++◌, ◌===◌,
  if◌then◌else◌, filter, All, Bool-cases, inl, inr, arith,
}
use mqtt_trust_gateway.Db.{Db, Device, Certificate, Tombstone}
use mqtt_trust_gateway.Broker.{Gateway, Context, log_action}
use mqtt_trust_gateway.Broker.Staging.{sync_broker-db}
use mqtt_trust_gateway.Registry.{
  Openssl, remove_first, bury, permanently_delete_device, tombstone_for, revoke_related,
}
use mqtt_trust_gateway.Registry.Routes.{purge, purge_expired_archives}
use mqtt_trust_gateway.Registry.Invariant.{
  DeviceOk, WellFormed, IsWellFormed, has_id, is_buried, DistinctIds,
}

abbrev with_tombstone : Tombstone → List Tombstone → List Tombstone
with_tombstone t ts = if is_buried t.id ts then ts else ts ++ t ∷ []

pub is_buried-append :
    (k : String) (t : Tombstone) (ts : List Tombstone)
    → is_buried k (ts ++ t ∷ []) ≡ (is_buried k ts || (t.id === k))
is_buried-append k t [] = ground arith
is_buried-append k t (u ∷ ts) = ground (arith, is_buried-append k t ts)

module _ (t : Tombstone) where
  abbrev rest : List Device → List Device
  rest ds = remove_first (λ (d : Device). d.id === t.id) ds

  has_id-rest : (k : String) (ds : List Device) → has_id k ds ≡ false → has_id k (rest ds) ≡ false
  has_id-rest k [] h = refl
  has_id-rest k (d ∷ ds) h = ground (arith, has_id-rest k ds)

  rest-DistinctIds : (ds : List Device) → DistinctIds ds → DistinctIds (rest ds)
  rest-DistinctIds [] h = tt
  rest-DistinctIds (d ∷ ds) h = ground (arith, rest-DistinctIds ds h.1, has_id-rest d.id ds h.0)

  -- The identifier is gone, since it stood once.
  pub has_id-rest_self : (ds : List Device) → DistinctIds ds → has_id t.id (rest ds) ≡ false
  has_id-rest_self [] h = refl
  has_id-rest_self (d ∷ ds) h = ground (arith, has_id-rest_self ds h.1)

  rest-All : (P : Device → Type 0) (ds : List Device) → All P ds → All P (rest ds)
  rest-All P [] h = tt
  rest-All P (d ∷ ds) h = ground (arith, rest-All P ds h.1)

  still_unburied :
      (ts : List Tombstone) (ds : List Device)
      → has_id t.id ds ≡ false
      → All (λ (d : Device). is_buried d.id ts ≡ false) ds
      → All (λ (d : Device). is_buried d.id (with_tombstone t ts) ≡ false) ds
  still_unburied ts [] h u = tt
  still_unburied ts (d ∷ ds) h u =
      ground (arith, still_unburied ts ds, is_buried-append d.id t ts, u)

  pub rest-WellFormed :
      (ds : List Device) (ts : List Tombstone)
      → WellFormed ds ts
      → WellFormed (rest ds) (with_tombstone t ts)
  rest-WellFormed ds ts w = record {
    devices = rest-All DeviceOk ds w.devices;
    distinct = rest-DistinctIds ds w.distinct;
    unburied =
        still_unburied ts (rest ds) (has_id-rest_self ds w.distinct)
          (rest-All (λ (d : Device). is_buried d.id ts ≡ false) ds w.unburied);
  }

  is_buried-with_tombstone : (ts : List Tombstone) → is_buried t.id (with_tombstone t ts) ≡ true
  is_buried-with_tombstone ts = ground (arith, is_buried-append t.id t ts)

module _ (x : Context) (ssl : Openssl) (revision id actor : String) (defer : Bool)
    (g : Gateway) where
  abbrev deleted : Db
  deleted = (permanently_delete_device x ssl revision id actor defer g).1.db

  abbrev related : List Certificate
  related = filter (λ (c : Certificate). c.device_id === id) g.db.certificates

  abbrev tombstone : Tombstone
  tombstone = tombstone_for x.now actor id related

  abbrev saved : Gateway
  saved = record (revoke_related ssl related g) { db = bury tombstone g.db }

  pub permanently_delete_device-db :
      deleted ≡ (if has_id id g.db.devices then bury tombstone g.db else g.db)
  unfolding permanently_delete_device log_action
  permanently_delete_device-db = ground (arith, sync_broker-db x true defer revision saved)

  pub permanently_delete_device-WellFormed : IsWellFormed g.db → IsWellFormed deleted
  permanently_delete_device-WellFormed w =
      rw permanently_delete_device-db (elim (Bool-cases (has_id id g.db.devices)) [
        | inl here ↦ rw here (rest-WellFormed tombstone g.db.devices g.db.deleted_identities w)
        | inr away ↦ rw away w
      ])

  no_certificates :
      (cs : List Certificate)
      → All
          (λ (c : Certificate). (c.device_id === id) ≡ false)
          (filter (λ (c : Certificate). not (c.device_id === id)) cs)
  no_certificates [] = tt
  no_certificates (c ∷ cs) = ground (arith, no_certificates cs)

  -- Deleting a registered device leaves neither its record nor any of its certificates, and leaves a
  -- tombstone under its identifier.
  pub permanently_delete_device_lem :
      IsWellFormed g.db
      → has_id id g.db.devices ≡ true
      → (has_id id deleted.devices ≡ false)
        × (is_buried id deleted.deleted_identities ≡ true)
        × All (λ (c : Certificate). (c.device_id === id) ≡ false) deleted.certificates
  permanently_delete_device_lem w here =
      rw (permanently_delete_device-db, here)
        (
          has_id-rest_self tombstone g.db.devices w.distinct,
          is_buried-with_tombstone tombstone g.db.deleted_identities,
          no_certificates g.db.certificates,
        )

  -- A tombstone is never taken away.
  pub is_buried-permanently_delete_device :
      (k : String)
      → is_buried k g.db.deleted_identities ≡ true
      → is_buried k deleted.deleted_identities ≡ true
  is_buried-permanently_delete_device k h =
      rw permanently_delete_device-db
        (ground (arith, is_buried-append k tombstone g.db.deleted_identities))

purge-WellFormed :
    (x : Context) (ssl : Openssl) (i : ℕ) (ds : List Device) (g : Gateway)
    → IsWellFormed g.db
    → IsWellFormed (purge x ssl i ds g).db
unfolding purge
purge-WellFormed x ssl i [] g w = w
purge-WellFormed x ssl i (d ∷ ds) g w =
    purge-WellFormed x ssl (i + 1) ds _
      (permanently_delete_device-WellFormed x ssl (x.uuid i) d.id "system:archive-expiry" false g w)

purge-is_buried :
    (x : Context) (ssl : Openssl) (k : String) (i : ℕ) (ds : List Device) (g : Gateway)
    → is_buried k g.db.deleted_identities ≡ true
    → is_buried k (purge x ssl i ds g).db.deleted_identities ≡ true
unfolding purge
purge-is_buried x ssl k i [] g h = h
purge-is_buried x ssl k i (d ∷ ds) g h =
    purge-is_buried x ssl k (i + 1) ds _ (
      is_buried-permanently_delete_device x ssl (x.uuid i) d.id "system:archive-expiry" false g k h)

module _ (x : Context) (ssl : Openssl) (g : Gateway) where
  pub purge_expired_archives-WellFormed :
      IsWellFormed g.db → IsWellFormed (purge_expired_archives x ssl g).db
  unfolding purge_expired_archives
  purge_expired_archives-WellFormed = purge-WellFormed x ssl 0 _ g

  pub is_buried-purge_expired_archives :
      (k : String)
      → is_buried k g.db.deleted_identities ≡ true
      → is_buried k (purge_expired_archives x ssl g).db.deleted_identities ≡ true
  unfolding purge_expired_archives
  is_buried-purge_expired_archives k = purge-is_buried x ssl k 0 _ g
