-- ===== src/Registry/Access.antt =====
-- Which devices have access: `enabled`, and what it takes to be in the access list.
use mqtt_trust_gateway.Base.{
  ℕ, String, ◌≡◌, refl, Bool, true, false, ◌&&◌, some, List, [], ◌∷◌, ◌++◌, ◌===◌, any, modify,
  filter, find?, arith,
}
use mqtt_trust_gateway.Db.{Db, Device}
use mqtt_trust_gateway.Broker.{is_authorized, authorized_devices}
use mqtt_trust_gateway.Registry.{device_record, remove_first}
use mqtt_trust_gateway.Registry.Invariant.{has_id}

abbrev pub enabled_in : String → List Device → Bool
enabled_in k ds = any (λ (d : Device). (d.id === k) && d.enabled) ds

-- A device without access gets no entry in the access list, at any time.
pub authorized-enabled :
    (now : ℕ) (k : String) (db : Db)
    → enabled_in k db.devices ≡ false
    → has_id k (authorized_devices now db) ≡ false
unfolding authorized_devices is_authorized
authorized-enabled now k db = go db.devices
  where
    go :
        (ds : List Device)
        → enabled_in k ds ≡ false
        → has_id k (filter (is_authorized now db) ds) ≡ false
    go [] h = refl
    go (d ∷ ds) h = ground (arith, go ds)

pub found_disabled :
    (k : String) (db : Db) (d : Device)
    → enabled_in k db.devices ≡ false
    → device_record db k ≡ some d
    → d.enabled ≡ false
found_disabled k db d = go db.devices
  where
    go :
        (ds : List Device)
        → enabled_in k ds ≡ false
        → find? (λ (e : Device). e.id === k) ds ≡ some d
        → d.enabled ≡ false
    go [] h e = ground arith
    go (e' ∷ ds) h e = ground (arith, go ds)

-- What a change to one device does to the access of any.
pub enabled_in-update :
    (id k : String) (d' : Device) (ds : List Device)
    → d'.id ≡ id
    → enabled_in k ds ≡ false
    → (enabled_in k (modify (λ (d : Device). d.id === id) (λ _. d') ds) ≡ true)
    → (id ≡ k) × (d'.enabled ≡ true)
enabled_in-update id k d' [] same h e = absurd (ground arith)
enabled_in-update id k d' (d ∷ ds) same h e = ground (arith, enabled_in-update id k d' ds same)

pub enabled_in-modify :
    (id k : String) (f : Device → Device) (ds : List Device)
    → ((d : Device) → ((f d).id ≡ d.id) × ((f d).enabled ≡ false))
    → enabled_in k ds ≡ false
    → enabled_in k (modify (λ (d : Device). d.id === id) f ds) ≡ false
enabled_in-modify id k f [] low h = refl
enabled_in-modify id k f (d ∷ ds) low h = ground (arith, enabled_in-modify id k f ds low, low d)

pub enabled_in-append :
    (k : String) (d : Device) (ds : List Device)
    → d.enabled ≡ false
    → enabled_in k ds ≡ false
    → enabled_in k (ds ++ d ∷ []) ≡ false
enabled_in-append k d [] off h = ground arith
enabled_in-append k d (e ∷ ds) off h = ground (arith, enabled_in-append k d ds off)

pub enabled_in-remove_first :
    (k : String) (p : Device → Bool) (ds : List Device)
    → enabled_in k ds ≡ false
    → enabled_in k (remove_first p ds) ≡ false
enabled_in-remove_first k p [] h = refl
enabled_in-remove_first k p (d ∷ ds) h = ground (arith, enabled_in-remove_first k p ds)
