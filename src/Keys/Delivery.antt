-- ===== src/Keys/Delivery.antt =====
-- A generated private key is handed out once at most, to its device, before it expires.
use mqtt_trust_gateway.Base.{
  ℕ, ◌+◌, ◌≤◌, String, ◌≡◌, true, not, none, some, List, [], ◌∷◌, leb, ◌===◌, if◌then◌else◌, lookup,
  Distinct, lookup-insert, lookup-erase, lookup-keep, insert-Distinct, erase-Distinct,
  keep-Distinct, Option-cases, inl, inr, arith,
}
use mqtt_trust_gateway.Keys.{
  PendingKey, Keys, cleanup, put_pending, take_pending_private_key, confirm_pending_private_key,
  discard_pending_private_key, is_pending, is_delivered,
}

pub data Call : Type 0 where
  cleans : Call
  generates : (pending_id device_id private_key : String) → Call
  takes : (pending_id device_id : String) → Call
  confirms : String → Call
  discards : String → Call

unfoldable pub step : ℕ × Call → Keys → Keys
step (now, cleans) k = cleanup now k
step (now, generates id device key) k = put_pending now id device key k
step (now, takes id device) k = (take_pending_private_key now id device k).1
step (now, confirms id) k = (confirm_pending_private_key id k).1
step (now, discards id) k = (discard_pending_private_key id k).1

-- whether the call hands out the key under `id`
abbrev hands_out : String → ℕ × Call → Keys → ℕ
hands_out id (now, takes j device) k =
    if j === id
    then (elim (take_pending_private_key now j device k).0 [ none ↦ 0 | some key ↦ 1 ])
    else 0
hands_out id (now, cleans) k = 0
hands_out id (now, generates j device key) k = 0
hands_out id (now, confirms j) k = 0
hands_out id (now, discards j) k = 0

-- whether the call generates a key under `id`
abbrev makes : String → ℕ × Call → ℕ
makes id (now, generates j device key) = if j === id then 1 else 0
makes id (now, cleans) = 0
makes id (now, takes j device) = 0
makes id (now, confirms j) = 0
makes id (now, discards j) = 0

abbrev pub deliveries : String → List (ℕ × Call) → Keys → ℕ
deliveries id [] k = 0
deliveries id (c ∷ cs) k = hands_out id c k + deliveries id cs (step c k)

abbrev pub generations : String → List (ℕ × Call) → ℕ
generations id [] = 0
generations id (c ∷ cs) = makes id c + generations id cs

abbrev waiting : String → Keys → ℕ
waiting id k = if is_pending k id then 1 else 0

step-Distinct : (c : ℕ × Call) (k : Keys) → Distinct k.pending → Distinct (step c k).pending
unfolding step cleanup put_pending take_pending_private_key confirm_pending_private_key
    discard_pending_private_key
step-Distinct (now, cleans) k d = keep-Distinct _ k.pending d
step-Distinct (now, generates id device key) k d = insert-Distinct id _ k.pending d
step-Distinct (now, takes id device) k d = ground (arith, erase-Distinct id k.pending d)
step-Distinct (now, confirms id) k d = d
step-Distinct (now, discards id) k d = erase-Distinct id k.pending d

step-waiting :
    (id : String) (c : ℕ × Call) (k : Keys)
    → Distinct k.pending
    → hands_out id c k + waiting id (step c k) ≤ makes id c + waiting id k
unfolding step cleanup put_pending take_pending_private_key confirm_pending_private_key
    discard_pending_private_key
step-waiting id (now, cleans) k d =
    ground (arith, lookup-keep (λ (p : PendingKey). not (leb p.expires now)) id k.pending d)
step-waiting id (now, generates j device key) k d = ground (
  arith,
  lookup-insert j id (record { device_id = device; private_key = key; expires = now + 900_000 })
      k.pending,
)
step-waiting id (now, takes j device) k d = ground (arith, lookup-erase j id k.pending)
step-waiting id (now, confirms j) k d = ground arith
step-waiting id (now, discards j) k d = ground (arith, lookup-erase j id k.pending)

-- Over any sequence of calls, a key is handed out under an identifier at most as often as one was
-- generated under it, and once more if one was waiting at the start.
pub deliveries-le :
    (id : String) (cs : List (ℕ × Call)) (k : Keys)
    → Distinct k.pending
    → deliveries id cs k ≤ generations id cs + (if is_pending k id then 1 else 0)
deliveries-le id [] k d = ground arith
deliveries-le id (c ∷ cs) k d =
    omega (arith, step-waiting id c k d, deliveries-le id cs (step c k) (step-Distinct c k d))

-- A call that hands out a key found it waiting under the identifier, for the device that was named,
-- and not past its expiry. The identifier is then marked as delivered, and an immediate second call
-- hands out nothing, at any time and for any device.
pub take_once :
    (now later : ℕ) (id device other key : String) (k : Keys)
    → (take_pending_private_key now id device k).0 ≡ some key
    → let taken = take_pending_private_key now id device k in
      (p : PendingKey) × (lookup id k.pending ≡ some p)
      × (p.device_id ≡ device)
      × (p.private_key ≡ key)
      × (now ≤ p.expires)
      × (is_delivered taken.1 id ≡ true)
      × ((take_pending_private_key later id other taken.1).0 ≡ none)
unfolding take_pending_private_key
take_once now later id device other key k h = elim (Option-cases (lookup id k.pending)) [
  | inl missing ↦ absurd (ground arith)
  | inr (p, found) ↦ (
    p,
    found,
    ground arith,
    ground arith,
    ground arith,
    ground arith,
    ground (arith, lookup-erase id id k.pending),
  )
]
