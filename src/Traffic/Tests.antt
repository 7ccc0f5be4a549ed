-- ===== src/Traffic/Tests.antt =====
-- The theorem on the samples, at two intervals of a minute.
use mqtt_trust_gateway.Base.{ℕ, ◌≤◌, none, List, [], ◌∷◌, length, arith}
use mqtt_trust_gateway.Traffic.{Traffic, Counters}
use mqtt_trust_gateway.Traffic.Window.{Call, reads, fails, run, run-buckets-le, InOrder, Window}

abbrev unread : Counters
unread = record { received = none; sent = none; dropped = none }

abbrev two_minutes : Traffic
two_minutes = record {
  settings = record { capacity = 2; interval_ms = 60_000 };
  counters = unread;
  updated = unread;
  buckets = [];
  stored = [];
}

abbrev calls : List (ℕ × Call)
calls =
    (60_000, reads "received" "10")
    ∷ (120_500, fails)
    ∷ (180_000, reads "received" "25")
    ∷ (240_000, fails)
    ∷ []

empty-Window : Window 0 two_minutes
empty-Window = record { positive = omega arith; roomy = omega arith; spaced = tt }

calls-InOrder : InOrder 60_000 0 calls
calls-InOrder = (omega arith, (omega arith, (omega arith, (omega arith, tt))))

run-buckets-le_example : length (run calls two_minutes).buckets ≤ 2
run-buckets-le_example = run-buckets-le calls 0 two_minutes empty-Window calls-InOrder
