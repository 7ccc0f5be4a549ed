-- ===== src/Registry/Expiry.antt =====
-- The archive timer: `purgeExpiredArchives` of admin-web/src/services/identity-service.js deletes every
-- device that is due, and no other.
use mqtt_trust_gateway.Base.{
  ℕ, ◌+◌, String, ◌≡◌, refl, ap, sym, ◌∙◌, Bool, false, not, List, [], ◌∷◌, ◌===◌, filter,
  Bool-cases, inl, inr, arith,
}
use mqtt_trust_gateway.Db.{Device}
use mqtt_trust_gateway.Broker.{Gateway, Context}
use mqtt_trust_gateway.Registry.{Openssl, remove_first, permanently_delete_device}
use mqtt_trust_gateway.Registry.Routes.{purge, purge_expired_archives, is_due}
use mqtt_trust_gateway.Registry.Invariant.{IsWellFormed, DistinctIds, has_id}
use mqtt_trust_gateway.Registry.Removal.{permanently_delete_device-db}

abbrev remove_each : List Device → List Device → List Device
remove_each [] es = es
remove_each (d ∷ ds) es = remove_each ds (remove_first (λ (e : Device). e.id === d.id) es)

remove_first-absent :
    (id : String) (es : List Device)
    → has_id id es ≡ false
    → remove_first (λ (e : Device). e.id === id) es ≡ es
remove_first-absent id [] h = refl
remove_first-absent id (e ∷ es) h = ground (arith, h, remove_first-absent id es)

remove_first-head :
    (d : Device) (es : List Device) → remove_first (λ (e : Device). e.id === d.id) (d ∷ es) ≡ es
remove_first-head d es = ground arith

permanently_delete_device-devices :
    (x : Context) (ssl : Openssl) (revision id actor : String) (defer : Bool) (g : Gateway)
    → (permanently_delete_device x ssl revision id actor defer g).1.db.devices
      ≡ remove_first (λ (e : Device). e.id === id) g.db.devices
permanently_delete_device-devices x ssl revision id actor defer g =
    rw (permanently_delete_device-db x ssl revision id actor defer g)
      (elim (Bool-cases (has_id id g.db.devices)) [
        | inl here ↦ rw here refl
        | inr away ↦ rw away (sym (remove_first-absent id g.db.devices away))
      ])

purge-devices :
    (x : Context) (ssl : Openssl) (i : ℕ) (ds : List Device) (g : Gateway)
    → (purge x ssl i ds g).db.devices ≡ remove_each ds g.db.devices
unfolding purge
purge-devices x ssl i [] g = refl
purge-devices x ssl i (d ∷ ds) g =
    purge-devices x ssl (i + 1) ds _
    ∙ ap (remove_each ds)
        (permanently_delete_device-devices x ssl (x.uuid i) d.id "system:archive-expiry" false g)

remove_each-skip :
    (d : Device) (ds es : List Device)
    → has_id d.id ds ≡ false
    → remove_each ds (d ∷ es) ≡ d ∷ remove_each ds es
remove_each-skip d [] es h = refl
remove_each-skip d (e ∷ ds) es h =
    let other : (d.id === e.id) ≡ false = ground (arith, h) in
    rw other (remove_each-skip d ds _ (ground (arith, h)))

has_id-filter :
    (id : String) (p : Device → Bool) (ds : List Device)
    → has_id id ds ≡ false
    → has_id id (filter p ds) ≡ false
has_id-filter id p [] h = refl
has_id-filter id p (d ∷ ds) h = ground (arith, h, has_id-filter id p ds)

remove_each-filter :
    (p : Device → Bool) (es : List Device)
    → DistinctIds es
    → remove_each (filter p es) es ≡ filter (λ d. not (p d)) es
remove_each-filter p [] h = refl
remove_each-filter p (d ∷ es) (new, h) = elim (Bool-cases (p d)) [
  | inl due ↦
      rw due (ap (remove_each (filter p es)) (remove_first-head d es) ∙ remove_each-filter p es h)
  | inr kept ↦ rw kept (
      remove_each-skip d (filter p es) es (has_id-filter d.id p es new)
      ∙ ap (λ rest. d ∷ rest) (remove_each-filter p es h))
]

-- From a well-formed table, the timer leaves just the devices whose deletion was not due, in their order:
-- every archive that has expired is gone after one run, and no other device is touched.
pub purge_expired_archives-devices :
    (x : Context) (ssl : Openssl) (g : Gateway)
    → IsWellFormed g.db
    → (purge_expired_archives x ssl g).db.devices ≡ filter (λ d. not (is_due x.now d)) g.db.devices
unfolding purge_expired_archives
purge_expired_archives-devices x ssl g w =
    purge-devices x ssl 0 (filter (is_due x.now) g.db.devices) g
    ∙ remove_each-filter (is_due x.now) g.db.devices w.distinct
