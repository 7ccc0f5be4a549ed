-- ===== src/Mqtt/Tests.antt =====
-- The theorems on the message console at a small one.
use mqtt_trust_gateway.Base.{
  ◌+◌, ◌≤◌, true, false, ◌&&◌, not, ◌≡◌, refl, none, some, List, [], ◌∷◌, ◌===◌, if◌then◌else◌,
  codes, length, lookup, dec_text, ok, arith,
}
use mqtt_trust_gateway.Traffic.{Traffic, production}
use mqtt_trust_gateway.Mqtt.{
  Buffers, Console, Packet, Publication, plain, granted, valid_filter, valid_publication, subscribe,
  publish_message, body_of, published_message,
}
use mqtt_trust_gateway.Mqtt.Bounds.{
  Bounded, Call, arrives, subscribes, publishes, clears, publications, run, run-Bounded,
  retained_after, publish_message_ok,
}

abbrev buffers : Buffers
buffers = record { bytes = λ base64 s. codes s; utf8 = λ bs. "text"; base64 = λ bs. "dGV4dA==" }

abbrev quiet : Traffic
quiet = record {
  settings = production;
  counters = record { received = none; sent = none; dropped = none };
  updated = record { received = none; sent = none; dropped = none };
  buckets = [];
  stored = [];
}

abbrev console : Console
console = record { messages = []; retained = []; subscriptions = []; traffic = quiet }

abbrev packet : Packet
packet = record { topic = "pump/state"; payload = 111 ∷ 110 ∷ []; qos = 1; retain = true }

abbrev publication : Publication
publication = record {
  topic = "pump/set";
  payload = "on";
  qos = 1;
  retain = true;
  encoding = some false;
}

abbrev calls : List Call
calls =
    subscribes true (granted (2 ∷ [])) "pump/+"
    ∷ arrives 10 "m1" packet
    ∷ publishes true true 20 plain publication
    ∷ clears
    ∷ []

console-Bounded : Bounded buffers 10 1000 console
console-Bounded = record {
  retained = omega arith;
  history = omega arith;
  subscribed = omega arith;
  filters = tt;
}

run-Bounded_example : Bounded buffers 10 (1000 + publications calls) (run buffers 10 calls console)
run-Bounded_example =
    run-Bounded buffers 10 1000 calls console (omega arith) (omega arith) console-Bounded

subscribed : (subscribe buffers true (granted (2 ∷ [])) "pump/+" console).0 ≡ ok tt
unfolding subscribe valid_filter dec_text
subscribed = refl

published : (publish_message buffers true true 20 plain publication console).0 ≡ ok tt
unfolding publish_message valid_publication dec_text
published = refl

publish_message_ok_example :
    (valid_publication buffers publication ≡ true)
    × ((true && not true) ≡ false)
    × (length (body_of buffers publication) ≤ 16384)
    × ((publish_message buffers true true 20 plain publication console).1 ≡ record console {
      retained = (publish_message buffers true true 20 plain publication console).1.retained;
    })
    × (lookup "pump/set" (publish_message buffers true true 20 plain publication console).1.retained
        ≡ (if "pump/set" === "pump/set"
            then retained_after true
                (body_of buffers publication)
                (published_message buffers 20 publication)
                (lookup "pump/set" console.retained)
            else lookup "pump/set" console.retained))
publish_message_ok_example =
    publish_message_ok buffers true true 20 plain publication console "pump/set" published
