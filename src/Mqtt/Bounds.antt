-- ===== src/Mqtt/Bounds.antt =====
-- What the message console keeps, and what a publication leaves.
use mqtt_trust_gateway.Base.{
  ℕ, ◌+◌, ◌-◌, ◌≤◌, ◌<◌, String, ◌≡◌, Bool, true, false, ◌&&◌, not, Option, none, some, List, [],
  ◌∷◌, ◌++◌, ◌===◌, if◌then◌else◌, length, All, All-append, lookup, lookup-insert, lookup-erase,
  length-insert-le, length-erase-le, length-drop, length-append, ok, Bool-cases, inl, inr, arith,
}
use mqtt_trust_gateway.Mqtt.{
  Message, Console, Buffers, Packet, Publication, Published, Subscribed, keep_retained,
  remove_oldest, slice_last, is_statistic, store_message, on_message, received_message, on_connect,
  clear_history, valid_filter, has_text, add_text, subscribe, valid_publication, publish_message,
  body_of, published_message,
}

-- The bounds of the console: at most `room` retained messages, at most `limit` in the history, and at
-- most twenty subscriptions, each with a valid filter.
pub record Bounded (b : Buffers) (limit room : ℕ) (s : Console) : Type 0 where
  pub retained : length s.retained ≤ room
  pub history : length s.messages ≤ limit
  pub subscribed : length s.subscriptions ≤ 20
  pub filters : All (λ (f : String). valid_filter b f ≡ true) s.subscriptions

length-slice_last-le :
    (limit : ℕ) (ms : List Message) → 0 < limit → length (slice_last limit ms) ≤ limit
length-slice_last-le limit ms h = ground (arith, h, length-drop (length ms - limit) ms)

length-keep_retained-le :
    (r : Bool) (body : List ℕ) (m : Message) (rs : List (String × Message))
    → length (keep_retained r body m rs) ≤ length rs + 1
length-keep_retained-le false body m rs = omega arith
length-keep_retained-le true [] m rs = omega (arith, length-erase-le m.topic rs)
length-keep_retained-le true (c ∷ cs) m rs = length-insert-le m.topic m rs

length-remove_oldest-le : (rs : List (String × Message)) → length (remove_oldest rs) ≤ length rs - 1
length-remove_oldest-le [] = omega arith
length-remove_oldest-le (r ∷ rs) = omega arith

store_message-Bounded :
    (b : Buffers) (limit room : ℕ) (payload : List ℕ) (m : Message) (s : Console)
    → 0 < limit
    → 1000 ≤ room
    → Bounded b limit room s
    → Bounded b limit room (store_message limit payload m s)
unfolding store_message
store_message-Bounded b limit room payload m s h big w =
    let kept = keep_retained m.retain payload m s.retained in
    let more = length-keep_retained-le m.retain payload m s.retained in
    record {
      retained = ground (arith, big, w.retained, more, length-remove_oldest-le kept);
      history = length-slice_last-le limit (s.messages ++ m ∷ []) h;
      subscribed = w.subscribed;
      filters = w.filters;
    }

length-add_text-le : (f : String) (fs : List String) → length (add_text f fs) ≤ length fs + 1
length-add_text-le f fs = ground (arith, length-append fs (f ∷ []))

known-add_text : (f : String) (fs : List String) → has_text f fs ≡ true → add_text f fs ≡ fs
known-add_text f fs h = ground (arith, h)

has_text-append : (f : String) (fs : List String) → has_text f (fs ++ f ∷ []) ≡ true
has_text-append f [] = ground arith
has_text-append f (t ∷ ts) = ground (arith, has_text-append f ts)

has_text-add_text : (f : String) (fs : List String) → has_text f (add_text f fs) ≡ true
has_text-add_text f fs = ground (arith, has_text-append f fs)

add_text-All :
    (P : String → Type 0) (f : String) (fs : List String) → P f → All P fs → All P (add_text f fs)
add_text-All P f fs p h = ground (arith, p, h, All-append P fs (f ∷ []) h (p, tt))

subscribe-Bounded :
    (b : Buffers) (limit room : ℕ) (connected : Bool) (answer : Subscribed) (f : String)
    (s : Console)
    → Bounded b limit room s
    → Bounded b limit room (subscribe b connected answer f s).1
unfolding subscribe
subscribe-Bounded b limit room connected answer f s w = elim (Bool-cases (valid_filter b f)) [
  | inr bad ↦ rw (bad, subscribe) w
  | inl good ↦
      let fs = s.subscriptions in
      let filters = add_text-All (λ (t : String). valid_filter b t ≡ true) f fs good w.filters in
      ground (arith, good, w, filters, length-add_text-le f fs, known-add_text f fs)
]

-- A subscription that is accepted has a valid filter, came while the broker was connected, and is then
-- in the set.
pub subscribe_ok :
    (b : Buffers) (connected : Bool) (answer : Subscribed) (f : String) (s : Console)
    → (subscribe b connected answer f s).0 ≡ ok tt
    → (valid_filter b f ≡ true)
      × (connected ≡ true)
      × (has_text f (subscribe b connected answer f s).1.subscriptions ≡ true)
unfolding subscribe
subscribe_ok b connected answer f s h = elim (Bool-cases (valid_filter b f)) [
  | inr bad ↦ absurd (ground (arith, bad, h))
  | inl good ↦ ground (arith, good, h, has_text-add_text f s.subscriptions)
]

publish_message-Bounded :
    (b : Buffers) (limit room : ℕ) (enabled connected : Bool) (now : ℕ) (answer : Published)
    (p : Publication) (s : Console)
    → Bounded b limit room s
    → Bounded b limit (room + 1) (publish_message b enabled connected now answer p s).1
unfolding publish_message
publish_message-Bounded b limit room enabled connected now answer p s w = ground (
  arith,
  w,
  length-keep_retained-le p.retain (body_of b p) (published_message b now p) s.retained,
)

-- A call of the console, with the number of publications that it makes.
pub data Call : Type 0 where
  connects clears : Call
  arrives : (now : ℕ) → (uuid : String) → Packet → Call
  subscribes : Bool → Subscribed → String → Call
  publishes : (enabled connected : Bool) → (now : ℕ) → Published → Publication → Call

unfoldable pub step : Buffers → (limit : ℕ) → Call → Console → Console
step b limit connects s = on_connect s
step b limit clears s = clear_history s
step b limit (arrives now uuid p) s = on_message b now limit uuid p s
step b limit (subscribes connected answer f) s = (subscribe b connected answer f s).1
step b limit (publishes enabled connected now answer p) s =
    (publish_message b enabled connected now answer p s).1

unfoldable pub run : Buffers → (limit : ℕ) → List Call → Console → Console
run b limit [] s = s
run b limit (c ∷ cs) s = run b limit cs (step b limit c s)

abbrev pub is_publication : Call → ℕ
is_publication (publishes enabled connected now answer p) = 1
is_publication _ = 0

abbrev pub publications : List Call → ℕ
publications [] = 0
publications (c ∷ cs) = is_publication c + publications cs

Bounded-more :
    (b : Buffers) (limit room more : ℕ) (s : Console)
    → room ≤ more
    → Bounded b limit room s
    → Bounded b limit more s
Bounded-more b limit room more s h w = record {
  retained = omega (arith, w.retained);
  history = w.history;
  subscribed = w.subscribed;
  filters = w.filters;
}

step-Bounded :
    (b : Buffers) (limit room : ℕ) (c : Call) (s : Console)
    → 0 < limit
    → 1000 ≤ room
    → Bounded b limit room s
    → Bounded b limit (room + is_publication c) (step b limit c s)
unfolding step on_connect clear_history on_message
step-Bounded b limit room connects s h big w = record {
  retained = omega arith;
  history = w.history;
  subscribed = w.subscribed;
  filters = w.filters;
}
step-Bounded b limit room clears s h big w = record {
  retained = omega (arith, w.retained);
  history = omega arith;
  subscribed = w.subscribed;
  filters = w.filters;
}
step-Bounded b limit room (arrives now uuid p) s h big w =
    Bounded-more b limit room (room + 0) _ (omega arith) (elim (Bool-cases (is_statistic p.topic)) [
      | inl counted ↦
          rw (counted, on_message)
            (record {
              retained = w.retained;
              history = w.history;
              subscribed = w.subscribed;
              filters = w.filters;
            })
      | inr kept ↦
          rw (kept, on_message)
            (store_message-Bounded b limit room p.payload (received_message b now uuid p) s h big w)
    ])
step-Bounded b limit room (subscribes connected answer f) s h big w =
    Bounded-more b limit room (room + 0) _ (omega arith)
      (subscribe-Bounded b limit room connected answer f s w)
step-Bounded b limit room (publishes enabled connected now answer p) s h big w =
    publish_message-Bounded b limit room enabled connected now answer p s w

-- Whatever arrives, is subscribed to, published or cleared, the history stays within its limit, the
-- subscriptions are at most twenty and have valid filters, and the retained messages stay within any
-- room of at least a thousand that held them, and one more for each publication.
pub run-Bounded :
    (b : Buffers) (limit room : ℕ) (cs : List Call) (s : Console)
    → 0 < limit
    → 1000 ≤ room
    → Bounded b limit room s
    → Bounded b limit (room + publications cs) (run b limit cs s)
unfolding run
run-Bounded b limit room [] s h big w = Bounded-more b limit room (room + 0) s (omega arith) w
run-Bounded b limit room (c ∷ cs) s h big w =
    Bounded-more b limit (room + is_publication c + publications cs) _ _ (omega arith) (
      run-Bounded b limit (room + is_publication c) cs (step b limit c s) h (omega (arith, big))
        (step-Bounded b limit room c s h big w))

abbrev pub retained_after : Bool → List ℕ → Message → Option Message → Option Message
retained_after false body m old = old
retained_after true [] m old = none
retained_after true (c ∷ cs) m old = some m

-- A publication that is accepted was valid, was allowed to be retained if it was to be, and had at most
-- 16384 bytes; the history, the subscriptions and the figures stay as they were, and of the retained
-- messages it changes just that of its topic, and that only if it is to be retained: an empty body takes
-- it away, any other replaces it.
pub publish_message_ok :
    (b : Buffers) (enabled connected : Bool) (now : ℕ) (answer : Published) (p : Publication)
    (s : Console) (topic : String)
    → (publish_message b enabled connected now answer p s).0 ≡ ok tt
    → (valid_publication b p ≡ true)
      × ((p.retain && not enabled) ≡ false)
      × (length (body_of b p) ≤ 16384)
      × ((publish_message b enabled connected now answer p s).1
          ≡ record s { retained = (publish_message b enabled connected now answer p s).1.retained })
      × (lookup topic (publish_message b enabled connected now answer p s).1.retained ≡ (
          if p.topic === topic
          then retained_after p.retain
              (body_of b p)
              (published_message b now p)
              (lookup topic s.retained)
          else lookup topic s.retained))
unfolding publish_message
publish_message_ok b enabled connected now answer p s topic h = ground (
  arith,
  h,
  lookup-insert p.topic topic (published_message b now p) s.retained,
  lookup-erase p.topic topic s.retained,
)
