-- ===== src/Certificates/Identities.antt =====
-- Disabling a device and registering one on the way keep the device table well formed.
use mqtt_trust_gateway.Base.{
  ℕ, String, ◌≡◌, refl, false, none, List, [], ◌∷◌, ◌===◌, modify, Option-cases, Bool-cases, inl,
  inr, ok, Yields, Yields-ok, All, All-modify, find?, arith,
}
use mqtt_trust_gateway.Db.{Db, Device, Tombstone}
use mqtt_trust_gateway.Broker.{valid_device_id, allowed_device_id}
use mqtt_trust_gateway.Registry.{update_device, device_record, is_tombstoned}
use mqtt_trust_gateway.Registry.Invariant.{
  DeviceOk, IsWellFormed, DistinctIds, has_id, is_buried, append-WellFormed,
}
use mqtt_trust_gateway.Certificates.{
  Identifier, text_id, list_id, value_id, stored_id, find_untyped, ensure_identity, new_identity,
}
use mqtt_trust_gateway.Certificates.Routes.{disable}

module _ (id : String) where
  disabled : List Device → List Device
  disabled ds = modify (λ (d : Device). d.id === id) disable ds

  has_id-disabled : (k : String) (ds : List Device) → has_id k (disabled ds) ≡ has_id k ds
  unfolding disabled
  has_id-disabled k [] = refl
  has_id-disabled k (d ∷ ds) = ground (arith, has_id-disabled k ds)

  disabled-DistinctIds : (ds : List Device) → DistinctIds ds → DistinctIds (disabled ds)
  unfolding disabled
  disabled-DistinctIds [] h = tt
  disabled-DistinctIds (d ∷ ds) h =
      ground (arith, disabled-DistinctIds ds h.1, has_id-disabled d.id ds)

  disabled-unburied :
      (ts : List Tombstone) (ds : List Device)
      → All (λ (d : Device). is_buried d.id ts ≡ false) ds
      → All (λ (d : Device). is_buried d.id ts ≡ false) (disabled ds)
  unfolding disabled
  disabled-unburied ts [] h = tt
  disabled-unburied ts (d ∷ ds) h = ground (arith, disabled-unburied ts ds h.1)

  -- Taking a device's access away keeps the table well formed.
  pub disable-WellFormed : (db : Db) → IsWellFormed db → IsWellFormed (update_device id disable db)
  unfolding disabled
  disable-WellFormed db w = record {
    devices =
        All-modify DeviceOk (λ (d : Device). d.id === id) disable db.devices
          (λ d k. record { idle = λ _. refl; paired = refl; named = k.named }) w.devices;
    distinct = disabled-DistinctIds db.devices w.distinct;
    unburied = disabled-unburied db.deleted_identities db.devices w.unburied;
  }

missing-has_id : (id : String) (db : Db) → device_record db id ≡ none → has_id id db.devices ≡ false
missing-has_id id db = go db.devices
  where
    go : (ds : List Device) → find? (λ (d : Device). d.id === id) ds ≡ none → has_id id ds ≡ false
    go [] e = refl
    go (d ∷ ds) e = ground (arith, go ds)

-- Looking an identity up, or registering it, keeps the table well formed.
pub ensure_identity-Ensured :
    (now : ℕ) (id : Identifier) (name description : String) (db : Db)
    → IsWellFormed db
    → Yields
        (λ (made : Device × Db). IsWellFormed made.1)
        (ensure_identity now id name description db)
unfolding ensure_identity
ensure_identity-Ensured now (text_id id) name description db w =
    elim (Bool-cases (allowed_device_id id)) [
      | inr bad ↦ rw (bad, ensure_identity) tt
      | inl good ↦ elim (Bool-cases (is_tombstoned db id)) [
        | inl dead ↦ rw (good, dead, ensure_identity) tt
        | inr free ↦ elim (Option-cases (device_record db id)) [
          | inr (d, e) ↦ rw (good, free, e, ensure_identity) (ground (arith, w))
          | inl e ↦
              rw (good, free, e, ensure_identity)
                (append-WellFormed (new_identity now id name description) db.devices
                  db.deleted_identities w (record { idle = λ h. cc; paired = refl; named = good })
                  (missing-has_id id db e) free)
        ]
      ]
    ]
ensure_identity-Ensured now (list_id s) name description db w =
    elim (Bool-cases (valid_device_id s)) [
      | inr bad ↦ rw (bad, ensure_identity) tt
      | inl good ↦ rw (good, ensure_identity) w
    ]
ensure_identity-Ensured now (value_id s) name description db w =
    elim (Bool-cases (valid_device_id s)) [
      | inr bad ↦ rw (bad, ensure_identity) tt
      | inl good ↦ elim (Option-cases (find_untyped db (stored_id (value_id s)))) [
        | inl e ↦ rw (good, e, ensure_identity) w
        | inr (d, e) ↦ rw (good, e, ensure_identity) (ground (arith, w))
      ]
    ]

pub ensure_identity-WellFormed :
    (now : ℕ) (id : Identifier) (name description : String) (db : Db) {d : Device} {db' : Db}
    → IsWellFormed db
    → ensure_identity now id name description db ≡ ok (d, db')
    → IsWellFormed db'
ensure_identity-WellFormed now id name description db {d} {db'} w e =
    Yields-ok (λ (made : Device × Db). IsWellFormed made.1) _ (d, db')
      (ensure_identity-Ensured now id name description db w) e
