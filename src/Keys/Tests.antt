-- ===== src/Keys/Tests.antt =====
-- The theorems on the delivery of private keys at a small table.
use mqtt_trust_gateway.Base.{
  ℕ, ◌+◌, ◌≤◌, ◌≡◌, refl, true, some, none, List, [], ◌∷◌, if◌then◌else◌, dec_text, lookup,
}
use mqtt_trust_gateway.Keys.{PendingKey, Keys, take_pending_private_key, is_pending, is_delivered}
use mqtt_trust_gateway.Keys.Delivery.{
  Call, takes, generates, cleans, deliveries, generations, deliveries-le, take_once,
}

abbrev waiting_key : PendingKey
waiting_key = record { device_id = "pump"; private_key = "KEY"; expires = 900 }

abbrev one_key : Keys
one_key = record { pending = ("p1", waiting_key) ∷ []; delivered = [] }

abbrev calls : List (ℕ × Call)
calls =
    (10, takes "p1" "pump")
    ∷ (20, takes "p1" "pump")
    ∷ (30, generates "p1" "pump" "NEW")
    ∷ (40, cleans)
    ∷ []

deliveries-le_example :
    deliveries "p1" calls one_key
    ≤ generations "p1" calls + (if is_pending one_key "p1" then 1 else 0)
unfolding lookup
deliveries-le_example = deliveries-le "p1" calls one_key (refl, tt)

taken_now : (take_pending_private_key 10 "p1" "pump" one_key).0 ≡ some "KEY"
unfolding take_pending_private_key lookup dec_text
taken_now = refl

take_once_example :
    (p : PendingKey) × (lookup "p1" one_key.pending ≡ some p)
    × (p.device_id ≡ "pump")
    × (p.private_key ≡ "KEY")
    × (10 ≤ p.expires)
    × (is_delivered (take_pending_private_key 10 "p1" "pump" one_key).1 "p1" ≡ true)
    × ((take_pending_private_key 20 "p1" "valve"
          (take_pending_private_key 10 "p1" "pump" one_key).1).0
        ≡ none)
take_once_example = take_once 10 20 "p1" "pump" "valve" "KEY" one_key taken_now
