-- ===== src/Traffic.antt =====
-- Traffic figures: admin-web/src/services/traffic-metrics.js and the table of traffic-store.js, which
-- holds the samples that were saved. Times are in milliseconds since 1970.
pub mod Window
mod Tests
use mqtt_trust_gateway.Base.{
  ℕ, zero, ◌+◌, ◌-◌, ◌*◌, ◌/◌, String, Bool, true, false, ◌&&◌, not, Option, none, some, List, [],
  ◌∷◌, leb, ltb, ◌==◌, if◌then◌else◌, codes, length, all, filter, trim, ◌===◌,
}

pub data Metric : Type 0 where
  received sent dropped : Metric

pub record Sample : Type 0 where
  pub timestamp : ℕ
  pub received : ℕ
  pub sent : ℕ
  pub dropped : ℕ
  pub publication_failures : ℕ

pub record Counters : Type 0 where
  pub received : Option ℕ
  pub sent : Option ℕ
  pub dropped : Option ℕ

-- `capacity` and `intervalMs`
pub record Settings : Type 0 where
  pub capacity : ℕ
  pub interval_ms : ℕ

abbrev pub production : Settings
production = record { capacity = 168; interval_ms = 3_600_000 }

pub record Traffic : Type 0 where
  pub settings : Settings
  pub counters : Counters
  pub updated : Counters
  pub buckets : List Sample
  pub stored : List Sample

-- The start of the interval, and that of the oldest interval that is kept.
abbrev pub interval_start : Settings → ℕ → ℕ
interval_start s now = (now / s.interval_ms) * s.interval_ms

abbrev pub cutoff : Settings → ℕ → ℕ
cutoff s now = interval_start s now - (s.capacity - 1) * s.interval_ms

abbrev pub has_bucket : ℕ → List Sample → Bool
has_bucket t [] = false
has_bucket t (b ∷ bs) = if b.timestamp == t then true else has_bucket t bs

abbrev pub new_sample : ℕ → Sample
new_sample t = record {
  timestamp = t;
  received = 0;
  sent = 0;
  dropped = 0;
  publication_failures = 0;
}

abbrev pub append_sample : List Sample → Sample → List Sample
append_sample [] s = s ∷ []
append_sample (b ∷ bs) s = b ∷ append_sample bs s

abbrev pub fresh : ℕ → Sample → Bool
fresh first b = not (ltb b.timestamp first)

-- `bucket`, which makes the sample of the present interval and drops the ones that are too old
unfoldable pub bucket : Settings → ℕ → List Sample → List Sample
bucket s now bs =
    let t = interval_start s now in
    let made = if has_bucket t bs then bs else append_sample bs (new_sample t) in
    filter (fresh (cutoff s now)) made

abbrev pub change_at : ℕ → (Sample → Sample) → List Sample → List Sample
change_at t f [] = []
change_at t f (b ∷ bs) = if b.timestamp == t then f b ∷ bs else b ∷ change_at t f bs

-- The upsert of traffic-store.js, in the order of the timestamps.
abbrev pub upsert : Sample → List Sample → List Sample
upsert s [] = s ∷ []
upsert s (b ∷ bs) =
    let rest = upsert s bs in
    if b.timestamp == s.timestamp
    then s ∷ bs
    else if ltb s.timestamp b.timestamp
    then s ∷ b ∷ bs
    else b ∷ rest

abbrev pub sample_at : ℕ → List Sample → Option Sample
sample_at t [] = none
sample_at t (b ∷ bs) = if b.timestamp == t then some b else sample_at t bs

-- `save(bucket())`
unfoldable pub save_bucket : ℕ → Traffic → Traffic
unfolding bucket
save_bucket now m =
    let bs = bucket m.settings now m.buckets in
    elim (sample_at (interval_start m.settings now) bs) [
      | none ↦ record m { buckets = bs }
      | some b ↦ record m {
        buckets = bs;
        stored = filter (fresh (cutoff m.settings now)) (upsert b m.stored);
      }
    ]

abbrev pub metric_of : String → Option Metric
metric_of s =
    if s === "received"
    then some Metric.received
    else if s === "sent"
    then some Metric.sent
    else if s === "dropped"
    then some Metric.dropped
    else none

abbrev pub is_digit : ℕ → Bool
is_digit c = leb b'0' c && leb c b'9'

abbrev pub decimal : ℕ → List ℕ → ℕ
decimal acc [] = acc
decimal acc (c ∷ cs) = decimal (acc * 10 + (c - b'0')) cs

abbrev pub max_safe_integer : ℕ
max_safe_integer = 9_007_199_254_740_991

-- `/^\d+$/` on the trimmed text, `Number` and `Number.isSafeInteger`
unfoldable pub counter_value : String → Option ℕ
counter_value payload =
    let cs = codes (trim payload) in
    if leb 1 (length cs) && all is_digit cs && leb (decimal 0 cs) max_safe_integer
    then some (decimal 0 cs)
    else none

abbrev pub counter : Metric → Counters → Option ℕ
counter Metric.received c = c.received
counter Metric.sent c = c.sent
counter Metric.dropped c = c.dropped

abbrev pub set_counter : Metric → ℕ → Counters → Counters
set_counter Metric.received v c = record c { received = some v }
set_counter Metric.sent v c = record c { sent = some v }
set_counter Metric.dropped v c = record c { dropped = some v }

abbrev pub add_to : Metric → ℕ → Sample → Sample
add_to Metric.received v b = record b { received = b.received + v }
add_to Metric.sent v b = record b { sent = b.sent + v }
add_to Metric.dropped v b = record b { dropped = b.dropped + v }

-- What a reading adds: nothing at the first, and nothing after a reset of the broker's counter.
abbrev pub growth : Option ℕ → ℕ → ℕ
growth none value = 0
growth (some previous) value = if leb previous value then value - previous else 0

-- `update`, for a metric and a value that were recognised
unfoldable pub count : ℕ → Metric → ℕ → Traffic → Traffic
unfolding bucket save_bucket
count now k value m =
    let added = growth (counter k m.counters) value in
    let bs = bucket m.settings now m.buckets in
    save_bucket now (record m {
      counters = set_counter k value m.counters;
      updated = set_counter k now m.updated;
      buckets = change_at (interval_start m.settings now) (add_to k added) bs;
    })

unfoldable pub update : ℕ → (metric payload : String) → Traffic → Bool × Traffic
unfolding count counter_value
update now metric payload m = elim (metric_of metric) [
  | none ↦ (false, m)
  | some k ↦ elim (counter_value payload) [
    | none ↦ (false, m)
    | some value ↦ (true, count now k value m)
  ]
]

abbrev pub failed_once : Sample → Sample
failed_once b = record b { publication_failures = b.publication_failures + 1 }

unfoldable pub publication_failed : ℕ → Traffic → Traffic
unfolding bucket save_bucket
publication_failed now m =
    let bs = bucket m.settings now m.buckets in
    save_bucket now
      (record m { buckets = change_at (interval_start m.settings now) failed_once bs })
