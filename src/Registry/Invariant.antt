-- ===== src/Registry/Invariant.antt =====
-- The invariant of the device table, and the requests that act on it.
use mqtt_trust_gateway.Base.{
  String, ◌≡◌, refl, Bool, true, false, ◌||◌, some, List, [], ◌∷◌, ◌++◌, ◌===◌, any, modify, All,
  All-modify, All-append, All-find?, find?-sound, arith,
}
use mqtt_trust_gateway.Db.{Db, Device, Tombstone}
use mqtt_trust_gateway.Broker.{allowed_device_id, is_active}
use mqtt_trust_gateway.Registry.{device_record}

-- Only an active device is enabled, `trusted` goes with `enabled`, and the identifier is allowed.
pub record DeviceOk (d : Device) : Type 0 where
  pub idle : is_active d.status ≡ false → d.enabled ≡ false
  pub paired : d.trusted ≡ d.enabled
  pub named : allowed_device_id d.id ≡ true

abbrev pub has_id : String → List Device → Bool
has_id id ds = any (λ (d : Device). d.id === id) ds

abbrev pub is_buried : String → List Tombstone → Bool
is_buried id ts = any (λ (t : Tombstone). t.id === id) ts

abbrev pub DistinctIds : List Device → Type 0
DistinctIds [] = Unit
DistinctIds (d ∷ ds) = (has_id d.id ds ≡ false) × DistinctIds ds

-- No identifier is registered twice, and none that has a tombstone.
pub record WellFormed (ds : List Device) (ts : List Tombstone) : Type 0 where
  pub devices : All DeviceOk ds
  pub distinct : DistinctIds ds
  pub unburied : All (λ (d : Device). is_buried d.id ts ≡ false) ds

abbrev pub IsWellFormed : Db → Type 0
IsWellFormed db = WellFormed db.devices db.deleted_identities

module _ (id : String) (d' : Device) (same : d'.id ≡ id) where
  abbrev updated : List Device → List Device
  updated ds = modify (λ (d : Device). d.id === id) (λ _. d') ds

  has_id-updated : (k : String) (ds : List Device) → has_id k (updated ds) ≡ has_id k ds
  has_id-updated k [] = refl
  has_id-updated k (d ∷ ds) = ground (arith, has_id-updated k ds)

  updated-DistinctIds : (ds : List Device) → DistinctIds ds → DistinctIds (updated ds)
  updated-DistinctIds [] h = tt
  updated-DistinctIds (d ∷ ds) h =
      ground (arith, updated-DistinctIds ds h.1, has_id-updated d.id ds)

  updated-unburied :
      (ts : List Tombstone) (ds : List Device)
      → All (λ (d : Device). is_buried d.id ts ≡ false) ds
      → All (λ (d : Device). is_buried d.id ts ≡ false) (updated ds)
  updated-unburied ts [] h = tt
  updated-unburied ts (d ∷ ds) h = ground (arith, updated-unburied ts ds h.1)

  pub updated-WellFormed :
      (ds : List Device) (ts : List Tombstone)
      → WellFormed ds ts
      → DeviceOk d'
      → WellFormed (updated ds) ts
  updated-WellFormed ds ts w k = record {
    devices = All-modify DeviceOk (λ (d : Device). d.id === id) (λ _. d') ds (λ _ _. k) w.devices;
    distinct = updated-DistinctIds ds w.distinct;
    unburied = updated-unburied ts ds w.unburied;
  }

-- The device that a route finds.
pub found_ok :
    (db : Db) (id : String) (d : Device)
    → IsWellFormed db
    → device_record db id ≡ some d
    → DeviceOk d × (d.id ≡ id)
found_ok db id d w e =
    let h = find?-sound (λ (d : Device). d.id === id) db.devices d e in
    (All-find? DeviceOk (λ (d : Device). d.id === id) db.devices d w.devices e, ground arith)

has_id-append :
    (k : String) (d : Device) (ds : List Device)
    → has_id k (ds ++ d ∷ []) ≡ (has_id k ds || (d.id === k))
has_id-append k d [] = ground arith
has_id-append k d (e ∷ ds) = ground (arith, has_id-append k d ds)

append-DistinctIds :
    (d : Device) (ds : List Device)
    → DistinctIds ds
    → has_id d.id ds ≡ false
    → DistinctIds (ds ++ d ∷ [])
append-DistinctIds d [] h k = ground arith
append-DistinctIds d (e ∷ ds) h k =
    ground (arith, append-DistinctIds d ds h.1, has_id-append e.id d ds)

pub append-WellFormed :
    (d : Device) (ds : List Device) (ts : List Tombstone)
    → WellFormed ds ts
    → DeviceOk d
    → has_id d.id ds ≡ false
    → is_buried d.id ts ≡ false
    → WellFormed (ds ++ d ∷ []) ts
append-WellFormed d ds ts w k fresh free = record {
  devices = All-append DeviceOk ds (d ∷ []) w.devices (k, tt);
  distinct = append-DistinctIds d ds w.distinct fresh;
  unburied =
      All-append (λ (d : Device). is_buried d.id ts ≡ false) ds (d ∷ []) w.unburied (free, tt);
}
