-- ===== src/Keys.antt =====
-- The one-time delivery of generated private keys in admin-web/src/services/certificate-service.js:
-- the map `pendingPrivateKeys` and the set `deliveredPrivateKeys`.
pub mod Delivery
mod Tests
use mqtt_trust_gateway.Base.{
  ℕ, ◌+◌, ◌*◌, String, Bool, true, false, ◌||◌, not, Option, none, some, List, [], ◌∷◌, leb, ltb,
  ◌===◌, if◌then◌else◌, any, filter, lookup, insert, erase, keep,
}

pub record PendingKey : Type 0 where
  pub device_id : String
  pub private_key : String
  pub expires : ℕ

pub record Keys : Type 0 where
  pub pending : List (String × PendingKey)
  pub delivered : List String

abbrev pub no_keys : Keys
no_keys = record { pending = []; delivered = [] }

abbrev pub is_delivered : Keys → String → Bool
is_delivered k id = any (λ (s : String). s === id) k.delivered

abbrev pub is_empty {ℓ} : {A : Type ℓ} → List A → Bool
is_empty [] = true
is_empty (x ∷ xs) = false

-- The timer `pendingKeyCleanup`, and the loop of `hasPendingProvisioningDelivery`.
unfoldable pub cleanup : ℕ → Keys → Keys
cleanup now k = record k { pending = keep (λ (p : PendingKey). not (leb p.expires now)) k.pending }

unfoldable pub has_pending_provisioning_delivery : ℕ → Keys → Bool × Keys
unfolding cleanup
has_pending_provisioning_delivery now k =
    let k' = cleanup now k in (not (is_empty k'.pending) || not (is_empty k'.delivered), k')

-- The entry that `generateExternalCsr` makes.
unfoldable pub put_pending : (now : ℕ) (pending_id device_id private_key : String) → Keys → Keys
put_pending now pending_id device_id private_key k =
    let entry : PendingKey = record {
      device_id = device_id;
      private_key = private_key;
      expires = now + 15 * 60_000;
    } in
    record k { pending = insert pending_id entry k.pending }

-- A set holds an item once.
abbrev pub add_delivered : String → List String → List String
add_delivered id ds = if any (λ (s : String). s === id) ds then ds else id ∷ ds

abbrev pub drop_delivered : String → List String → List String
drop_delivered id = filter (λ (s : String). not (s === id))

unfoldable pub take_pending_private_key :
    (now : ℕ) (pending_id device_id : String) → Keys → Option String × Keys
take_pending_private_key now pending_id device_id k = elim (lookup pending_id k.pending) [
  | none ↦ (none, k)
  | some p ↦
      if not (p.device_id === device_id)
      then (none, k)
      else if ltb p.expires now
      then (none, record k { pending = erase pending_id k.pending })
      else (
        some p.private_key,
        record {
          pending = erase pending_id k.pending;
          delivered = add_delivered pending_id k.delivered;
        },
      )
]

unfoldable pub confirm_pending_private_key : String → Keys → Bool × Keys
confirm_pending_private_key id k =
    (is_delivered k id, record k { delivered = drop_delivered id k.delivered })

abbrev pub is_pending : Keys → String → Bool
is_pending k id = elim (lookup id k.pending) [ none ↦ false | some p ↦ true ]

unfoldable pub discard_pending_private_key : String → Keys → Bool × Keys
discard_pending_private_key id k = (
  is_pending k id || is_delivered k id,
  record { pending = erase id k.pending; delivered = drop_delivered id k.delivered },
)
