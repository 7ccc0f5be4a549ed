-- ===== src/Mqtt.antt =====
-- The message console: admin-web/src/services/mqtt-service.js. The client of the package `mqtt` and
-- Node's `Buffer` are parameters: what they answer is an argument.
pub mod Routes
pub mod Bounds
mod Tests
use mqtt_trust_gateway.Base.{
  ℕ, ◌+◌, ◌-◌, String, Bool, true, false, ◌&&◌, ◌||◌, not, Option, none, some, List, [], ◌∷◌, ◌++◌,
  leb, ltb, ◌==◌, ◌===◌, if◌then◌else◌, codes, length, any, drop, take, take_text, split_text,
  insert, erase, Result, ok, err,
}
use mqtt_trust_gateway.Traffic.{Traffic, update, publication_failed}

-- A message kept by `publishMessage` has no identifier and no mark of truncation.
pub record Message : Type 0 where
  pub id : Option String
  pub topic : String
  pub text : String
  pub base64 : String
  pub bytes : ℕ
  pub truncated : Option Bool
  pub qos : ℕ
  pub retain : Bool
  pub timestamp : ℕ

pub record Console : Type 0 where
  pub messages : List Message
  pub retained : List (String × Message)
  pub subscriptions : List String
  pub traffic : Traffic

-- `Buffer`: the bytes of a text in an encoding (`true` for base64), and the texts of bytes.
pub record Buffers : Type 0 where
  pub bytes : Bool → String → List ℕ
  pub utf8 : List ℕ → String
  pub base64 : List ℕ → String

pub record Packet : Type 0 where
  pub topic : String
  pub payload : List ℕ
  pub qos : ℕ
  pub retain : Bool

abbrev pub payload_limit : ℕ
payload_limit = 16_384

abbrev pub is_empty {ℓ} : {A : Type ℓ} → List A → Bool
is_empty [] = true
is_empty (x ∷ xs) = false

abbrev pub starts_with : List ℕ → List ℕ → Bool
starts_with [] cs = true
starts_with (p ∷ ps) [] = false
starts_with (p ∷ ps) (c ∷ cs) = (p == c) && starts_with ps cs

abbrev pub last_text : String → List String → String
last_text s [] = s
last_text s (t ∷ ts) = last_text t ts

-- `messages.slice(-limit)`
abbrev pub slice_last {ℓ} : {A : Type ℓ} → ℕ → List A → List A
slice_last limit xs = if limit == 0 then xs else drop (length xs - limit) xs

abbrev pub remove_oldest {ℓ} : {A : Type ℓ} → List A → List A
remove_oldest [] = []
remove_oldest (x ∷ xs) = xs

-- What an empty or a full retained message does to the map.
abbrev pub keep_retained :
    Bool → List ℕ → Message → List (String × Message) → List (String × Message)
keep_retained false body m rs = rs
keep_retained true [] m rs = erase m.topic rs
keep_retained true (b ∷ bs) m rs = insert m.topic m rs

-- `topic.startsWith('$SYS/broker/publish/messages/')`
unfoldable pub is_statistic : String → Bool
is_statistic topic = starts_with (codes "$SYS/broker/publish/messages/") (codes topic)

-- `topic.split('/').at(-1)`
abbrev pub metric_name : String → String
metric_name topic = last_text "" (split_text b'/' topic)

abbrev pub received_message : Buffers → (now : ℕ) → (uuid : String) → Packet → Message
received_message b now uuid p = record {
  id = some uuid;
  topic = p.topic;
  text = take_text payload_limit (b.utf8 p.payload);
  base64 = b.base64 (take payload_limit p.payload);
  bytes = length p.payload;
  truncated = some (ltb payload_limit (length p.payload));
  qos = p.qos;
  retain = p.retain;
  timestamp = now;
}

-- The messages that are kept after `m` came in with this payload.
unfoldable pub store_message : (limit : ℕ) → List ℕ → Message → Console → Console
store_message limit payload m s =
    let retained = keep_retained m.retain payload m s.retained in
    record s {
      retained = if ltb 1000 (length retained) then remove_oldest retained else retained;
      messages = slice_last limit (s.messages ++ m ∷ []);
    }

-- the handler of `message`
unfoldable pub on_message : Buffers → (now limit : ℕ) → (uuid : String) → Packet → Console → Console
on_message b now limit uuid p s =
    if is_statistic p.topic
    then record s { traffic = (update now (metric_name p.topic) (b.utf8 p.payload) s.traffic).1 }
    else store_message limit p.payload (received_message b now uuid p) s

-- the handler of `connect`
unfoldable pub on_connect : Console → Console
on_connect s = record s { retained = [] }

unfoldable pub clear_history : Console → Console
clear_history s = record s { messages = [] }

abbrev pub has_code : ℕ → String → Bool
has_code c s = any (λ d. d == c) (codes s)

-- A level that uses a wildcard against the rules.
abbrev pub bad_level : Bool → String → Bool
bad_level last l =
    (has_code b'#' l && (not (l === "#") || not last)) || (has_code b'+' l && not (l === "+"))

abbrev pub bad_levels : List String → Bool
bad_levels [] = false
bad_levels (l ∷ ls) = bad_level (is_empty ls) l || bad_levels ls

unfoldable pub valid_filter : Buffers → String → Bool
valid_filter b filter =
    not (filter === "")
    && not (ltb 256 (length (b.bytes false filter)))
    && not (has_code 0 filter)
    && not (bad_levels (split_text b'/' filter))

-- What the client answers to `subscribe`: an error, or the granted levels.
pub data Subscribed : Type 0 where
  failed : String → Subscribed
  granted : List ℕ → Subscribed

abbrev pub has_text : String → List String → Bool
has_text s ts = any (λ t. t === s) ts

abbrev pub add_text : String → List String → List String
add_text s ts = if has_text s ts then ts else ts ++ s ∷ []

unfoldable pub subscribe :
    Buffers → (connected : Bool) → Subscribed → String → Console → Result (Unit {0}) × Console
subscribe b connected answer filter s =
    if not (valid_filter b filter)
    then (err 400 "Invalid subscription filter", s)
    else if not connected
    then (err 503 "Broker is unavailable", s)
    else if leb 20 (length s.subscriptions) && not (has_text filter s.subscriptions)
    then (err 400 "Subscription limit reached", s)
    else elim answer [
      | failed m ↦ (err 500 m, s)
      | granted levels ↦
          if any (λ q. q == 128) levels
          then (err 500 "Subscription denied", s)
          else (ok tt, record s { subscriptions = add_text filter s.subscriptions })
    ]

-- A publication, with `encoding` true for base64 and `none` for one that is neither of the two.
pub record Publication : Type 0 where
  pub topic : String
  pub payload : String
  pub qos : ℕ
  pub retain : Bool
  pub encoding : Option Bool

-- What the client answers to `publish`: an error, a reason code, no reason code, or nothing in time.
pub data Published : Type 0 where
  broken : String → Published
  reason : ℕ → Published
  plain : Published
  late : Published

abbrev pub outcome : Published → Result (Unit {0})
outcome (broken m) = err 500 m
outcome (reason c) = if leb 128 c then err 502 "Publication rejected by broker" else ok tt
outcome plain = ok tt
outcome late = err 504 "Publication timed out"

abbrev pub is_base64 : Option Bool → Bool
is_base64 none = false
is_base64 (some e) = e

abbrev pub has_encoding : Option Bool → Bool
has_encoding none = false
has_encoding (some e) = true

unfoldable pub valid_publication : Buffers → Publication → Bool
valid_publication b p =
    not (p.topic === "")
    && not (ltb 256 (length (b.bytes false p.topic)))
    && not (has_code b'#' p.topic)
    && not (has_code b'+' p.topic)
    && not (has_code 0 p.topic)
    && leb p.qos 2
    && has_encoding p.encoding

abbrev pub body_of : Buffers → Publication → List ℕ
body_of b p = b.bytes (is_base64 p.encoding) p.payload

-- What is kept of a retained publication.
abbrev pub published_message : Buffers → (now : ℕ) → Publication → Message
published_message b now p = record {
  id = none;
  topic = p.topic;
  text = b.utf8 (body_of b p);
  base64 = b.base64 (body_of b p);
  bytes = length (body_of b p);
  truncated = none;
  qos = p.qos;
  retain = true;
  timestamp = now;
}

unfoldable pub publish_message :
    Buffers
    → (retained_enabled connected : Bool) → (now : ℕ) → Published
    → Publication
    → Console
    → Result (Unit {0}) × Console
publish_message b retained_enabled connected now answer p s =
    let body = body_of b p in
    let failure : Console = record s { traffic = publication_failed now s.traffic } in
    if not (valid_publication b p)
    then (err 400 "Invalid publication", s)
    else if p.retain && not retained_enabled
    then (err 403 "Retained publication is disabled", s)
    else if ltb payload_limit (length body)
    then (err 400 "Payload limit is 16 KiB", s)
    else if not connected
    then (err 503 "Broker is unavailable", failure)
    else elim (outcome answer) [
      | err c m ↦ (err c m, failure)
      | ok _ ↦
          let m = published_message b now p in
          (ok tt, record s { retained = keep_retained p.retain body m s.retained })
    ]
