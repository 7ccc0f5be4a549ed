-- ===== src/Traffic/Window.antt =====
-- The samples in memory never outgrow the window of the configured number of intervals.
use mqtt_trust_gateway.Base.{
  ℕ, ◌+◌, ◌-◌, ◌*◌, ◌/◌, ◌≤◌, ◌<◌, max, ◌≡◌, refl, false, List, [], ◌∷◌, ◌==◌, length, filter,
  arith, String, Option-cases, Bool-cases, inl, inr,
}
use native.Mathlib.Nat.{mul_comm, mul-le-mul_left, le_of_mul-le-mul_left, add-mul}
use mqtt_trust_gateway.Traffic.{
  Sample, Settings, Metric, Traffic, interval_start, has_bucket, new_sample, append_sample, fresh,
  bucket, change_at, add_to, save_bucket, metric_of, counter_value, counter, growth, count, update,
  publication_failed, failed_once,
}

-- The samples are those of intervals between `low` and `high`, in order, one for each at most.
abbrev pub Spaced : (step low high : ℕ) → List Sample → Type 0
Spaced step low high [] = Unit
Spaced step low high (b ∷ bs) =
    (i : ℕ) × (b.timestamp ≡ i * step) × (low ≤ i) × (i ≤ high) × Spaced step (i + 1) high bs

mul_mono : (step i j : ℕ) → i ≤ j → i * step ≤ j * step
mul_mono step i j h = rw (mul_comm i step, mul_comm j step) (mul-le-mul_left step h)

module _ (step : ℕ) where
  Spaced-weaken :
      (low low' high high' : ℕ) (bs : List Sample)
      → low' ≤ low
      → high ≤ high'
      → Spaced step low high bs
      → Spaced step low' high' bs
  Spaced-weaken low low' high high' [] l h s = tt
  Spaced-weaken low low' high high' (b ∷ bs) l h (i, e, p, q, s) = (
    i,
    e,
    omega (arith, p),
    omega (arith, q),
    Spaced-weaken (i + 1) (i + 1) high high' bs (omega arith) h s,
  )

  length-Spaced :
      (low high : ℕ) (bs : List Sample) → Spaced step low high bs → length bs ≤ high + 1 - low
  length-Spaced low high [] s = omega arith
  length-Spaced low high (b ∷ bs) (i, e, p, q, s) =
      omega (arith, p, q, length-Spaced (i + 1) high bs s)

  Spaced-append :
      (low j : ℕ) (bs : List Sample)
      → low ≤ j
      → Spaced step low j bs
      → has_bucket (j * step) bs ≡ false
      → Spaced step low j (append_sample bs (new_sample (j * step)))
  Spaced-append low j [] l s h = (j, refl, l, omega arith, tt)
  Spaced-append low j (b ∷ bs) l (i, e, p, q, s) h =
      let here : (i ≡ j) → ⊥ = λ same. ground (arith, e, h, same) in
      (i, e, p, q, Spaced-append (i + 1) j bs (ground (arith, here, q)) s (ground (arith, h)))

  Spaced-change_at :
      (t low high : ℕ) (f : Sample → Sample) (bs : List Sample)
      → ((b : Sample) → (f b).timestamp ≡ b.timestamp)
      → Spaced step low high bs
      → Spaced step low high (change_at t f bs)
  Spaced-change_at t low high f [] k s = tt
  Spaced-change_at t low high f (b ∷ bs) k (i, e, p, q, s) = elim (Bool-cases (b.timestamp == t)) [
    | inl here ↦ rw here (i, rw (k b) e, p, q, s)
    | inr away ↦ rw away (i, e, p, q, Spaced-change_at t (i + 1) high f bs k s)
  ]

  module _ (capacity : ℕ) (positive : 0 < step) (some_room : 0 < capacity) where
    in_window : (i j : ℕ) → j * step - (capacity - 1) * step ≤ i * step → j + 1 - capacity ≤ i
    in_window i j h =
        let sum : (i + (capacity - 1)) * step ≡ i * step + (capacity - 1) * step =
          add-mul i (capacity - 1) step in
        let wide : j * step ≤ (i + (capacity - 1)) * step = omega (arith, h, sum) in
        let turned : step * j ≤ step * (i + (capacity - 1)) =
          rw (mul_comm step j, mul_comm step (i + (capacity - 1))) wide in
        omega (arith, le_of_mul-le-mul_left turned positive, some_room)

    -- Dropping what is too old leaves the last intervals.
    Spaced-filter :
        (low j : ℕ) (bs : List Sample)
        → Spaced step low j bs
        → Spaced step
            (max low (j + 1 - capacity))
            j
            (filter (fresh (j * step - (capacity - 1) * step)) bs)
    Spaced-filter low j [] s = tt
    Spaced-filter low j (b ∷ bs) (i, e, p, q, s) =
        let rest = filter (fresh (j * step - (capacity - 1) * step)) bs in
        let tail = Spaced-filter (i + 1) j bs s in
        elim (Bool-cases (fresh (j * step - (capacity - 1) * step) b)) [
          | inr old ↦ rw old (
              Spaced-weaken (max (i + 1) (j + 1 - capacity)) (max low (j + 1 - capacity)) j j rest
                (omega (arith, p)) (omega arith) tail)
          | inl young ↦
              let inside : j + 1 - capacity ≤ i = in_window i j (ground (arith, young, e)) in
              rw young (
                i,
                e,
                omega (arith, p, inside),
                q,
                Spaced-weaken (max (i + 1) (j + 1 - capacity)) (i + 1) j j rest (omega arith)
                    (omega arith) tail,
              )
        ]

-- The samples of a traffic record, after a call in the interval `j`.
pub record Window (j : ℕ) (m : Traffic) : Type 0 where
  pub positive : 0 < m.settings.interval_ms
  pub roomy : 0 < m.settings.capacity
  pub spaced : Spaced m.settings.interval_ms (j + 1 - m.settings.capacity) j m.buckets

bucket-Spaced :
    (s : Settings) (now j : ℕ) (bs : List Sample)
    → 0 < s.interval_ms
    → 0 < s.capacity
    → j ≤ now / s.interval_ms
    → Spaced s.interval_ms (j + 1 - s.capacity) j bs
    → Spaced s.interval_ms
        (now / s.interval_ms + 1 - s.capacity)
        (now / s.interval_ms)
        (bucket s now bs)
unfolding bucket
bucket-Spaced s now j bs positive roomy later h =
    let k = now / s.interval_ms in
    let low = j + 1 - s.capacity in
    let wide : Spaced s.interval_ms low k bs =
      Spaced-weaken s.interval_ms low low j k bs (omega arith) later h in
    let cut = λ (made : List Sample) (v : Spaced s.interval_ms low k made).
      Spaced-weaken s.interval_ms (max low (k + 1 - s.capacity)) (k + 1 - s.capacity) k k _
        (omega arith) (omega arith)
        (Spaced-filter s.interval_ms s.capacity positive roomy low k made v) in
    elim (Bool-cases (has_bucket (k * s.interval_ms) bs)) [
      | inl here ↦ rw here (cut bs wide)
      | inr away ↦ rw away (
          cut (append_sample bs (new_sample (k * s.interval_ms)))
            (Spaced-append s.interval_ms low k bs (omega (arith, later, roomy)) wide away))
    ]

save_bucket-same :
    (now : ℕ) (m : Traffic)
    → ((save_bucket now m).settings ≡ m.settings)
      × ((save_bucket now m).buckets ≡ bucket m.settings now m.buckets)
unfolding save_bucket
save_bucket-same now m = ground arith

save_bucket-Window :
    (now j : ℕ) (m : Traffic)
    → Window j m
    → j ≤ now / m.settings.interval_ms
    → Window (now / m.settings.interval_ms) (save_bucket now m)
save_bucket-Window now j m w later =
    let (same, e) = save_bucket-same now m in
    record {
      positive = rw same w.positive;
      roomy = rw same w.roomy;
      spaced =
          rw (same, e) (bucket-Spaced m.settings now j m.buckets w.positive w.roomy later w.spaced);
    }

-- The calls that change the samples: a reading of a counter, and a publication that failed.
pub data Call : Type 0 where
  reads : (metric payload : String) → Call
  fails : Call

unfoldable pub step : ℕ × Call → Traffic → Traffic
step (now, reads metric payload) m = (update now metric payload m).1
step (now, fails) m = publication_failed now m

unfoldable pub run : List (ℕ × Call) → Traffic → Traffic
run [] m = m
run (c ∷ cs) m = run cs (step c m)

add_to-timestamp : (k : Metric) (v : ℕ) (b : Sample) → (add_to k v b).timestamp ≡ b.timestamp
add_to-timestamp Metric.received v b = refl
add_to-timestamp Metric.sent v b = refl
add_to-timestamp Metric.dropped v b = refl

module _ (now j : ℕ) (m : Traffic) (w : Window j m) (later : j ≤ now / m.settings.interval_ms) where
  abbrev present : ℕ
  present = now / m.settings.interval_ms

  abbrev low : ℕ
  low = present + 1 - m.settings.capacity

  changed-Spaced :
      (f : Sample → Sample)
      → ((b : Sample) → (f b).timestamp ≡ b.timestamp)
      → Spaced m.settings.interval_ms low present
          (change_at (interval_start m.settings now) f (bucket m.settings now m.buckets))
  changed-Spaced f k =
      Spaced-change_at m.settings.interval_ms (interval_start m.settings now) low present f _ k
        (bucket-Spaced m.settings now j m.buckets w.positive w.roomy later w.spaced)

  count-Window : (k : Metric) (value : ℕ) → Window present (count now k value m)
  unfolding count
  count-Window k value =
      save_bucket-Window now present _
        (record {
          positive = w.positive;
          roomy = w.roomy;
          spaced =
              changed-Spaced (add_to k (growth (counter k m.counters) value))
                (add_to-timestamp k (growth (counter k m.counters) value));
        })
        (omega arith)

  publication_failed-Window : Window present (publication_failed now m)
  unfolding publication_failed
  publication_failed-Window =
      save_bucket-Window now present _
        (record {
          positive = w.positive;
          roomy = w.roomy;
          spaced = changed-Spaced failed_once (λ b. refl);
        })
        (omega arith)

-- The clock never goes back to an earlier interval.
abbrev pub InOrder : (step j : ℕ) → List (ℕ × Call) → Type 0
InOrder iv j [] = Unit
InOrder iv j ((now, c) ∷ cs) = (j ≤ now / iv) × InOrder iv (now / iv) cs

step-Window :
    (now : ℕ) (c : Call) (j : ℕ) (m : Traffic)
    → Window j m
    → j ≤ now / m.settings.interval_ms
    → (i : ℕ) × (i ≤ now / m.settings.interval_ms) × Window i (step (now, c) m)
unfolding step update
step-Window now fails j m w later =
    (now / m.settings.interval_ms, omega arith, publication_failed-Window now j m w later)
step-Window now (reads metric payload) j m w later = elim (Option-cases (metric_of metric)) [
  | inl unknown ↦ (j, later, rw (unknown, step, update) w)
  | inr (k, e) ↦ elim (Option-cases (counter_value payload)) [
    | inl bad ↦ (j, later, rw (e, bad, step, update) w)
    | inr (value, f) ↦ (
      now / m.settings.interval_ms,
      omega arith,
      rw (e, f, step, update) (count-Window now j m w later k value),
    )
  ]
]

step-settings : (c : ℕ × Call) (m : Traffic) → (step c m).settings ≡ m.settings
unfolding step update publication_failed count save_bucket
step-settings (now, fails) m = ground arith
step-settings (now, reads metric payload) m = ground arith

InOrder-weaken : (iv i j : ℕ) (cs : List (ℕ × Call)) → i ≤ j → InOrder iv j cs → InOrder iv i cs
InOrder-weaken iv i j [] l h = tt
InOrder-weaken iv i j ((now, c) ∷ cs) l (p, h) = (omega (arith, p), h)

-- Whatever the broker reports and however often publications fail, the samples in memory are never
-- more than the configured capacity, as long as the clock does not go back to an earlier interval.
pub run-buckets-le :
    (cs : List (ℕ × Call)) (j : ℕ) (m : Traffic)
    → Window j m
    → InOrder m.settings.interval_ms j cs
    → length (run cs m).buckets ≤ m.settings.capacity
unfolding run
run-buckets-le [] j m w h = omega (
  arith,
  length-Spaced m.settings.interval_ms (j + 1 - m.settings.capacity) j m.buckets w.spaced,
  w.roomy,
)
run-buckets-le ((now, c) ∷ cs) j m w (p, h) =
    let (i, l, v) = step-Window now c j m w p in
    let same = step-settings (now, c) m in
    let rest =
      run-buckets-le cs i (step (now, c) m) v
        (rw same (InOrder-weaken m.settings.interval_ms i (now / m.settings.interval_ms) cs l h)) in
    ground (arith, rest, same)
