-- ===== src/Mqtt/Routes.antt =====
-- The routes of admin-web/src/routes/mqtt-routes.js, for a user who is signed in: what they answer, the
-- console that they leave, and the action and detail that they write to the audit table.
use mqtt_trust_gateway.Base.{
  ℕ, String, Bool, true, false, ◌&&◌, not, Option, none, some, List, map, leb, ◌===◌, if◌then◌else◌,
  Result, ok, err,
}
use mqtt_trust_gateway.Mqtt.{
  Message, Console, Buffers, Subscribed, Published, Publication, subscribe, publish_message,
  clear_history,
}

pub data Answer : Type 0 where
  done : Answer
  refused : ℕ → String → Answer

pub record Routed : Type 0 where
  pub answer : Answer
  pub console : Console
  pub audited : Option (String × String)

abbrev pub answer_of : Result (Unit {0}) → Answer
answer_of (ok _) = done
answer_of (err status message) = refused status message

-- `messageMetadata`
pub record Metadata : Type 0 where
  pub id : Option String
  pub timestamp : ℕ
  pub qos : ℕ
  pub retain : Bool
  pub bytes : ℕ

abbrev pub message_metadata : Message → Metadata
message_metadata m = record {
  id = m.id;
  timestamp = m.timestamp;
  qos = m.qos;
  retain = m.retain;
  bytes = m.bytes;
}

-- What `GET /api/mqtt/history` shows: all with a grant for the scope, and without one the metadata alone.
pub data History : Type 0 where
  full : List Message → List (String × Message) → List String → History
  hidden : List Metadata → History

unfoldable pub history : (granted : Bool) → Console → History
history true s = full s.messages s.retained s.subscriptions
history false s = hidden (map message_metadata s.messages)

unfoldable pub subscribe_route : Buffers → Bool → Subscribed → String → Console → Routed
subscribe_route b connected reply filter s =
    let r = subscribe b connected reply filter s in
    record { answer = answer_of r.0; console = r.1; audited = none }

unfoldable pub publish_route :
    Buffers → (enabled connected : Bool) → (now : ℕ) → Published → Publication → Console → Routed
publish_route b enabled connected now reply p s =
    let r = publish_message b enabled connected now reply p s in
    record {
      answer = answer_of r.0;
      console = r.1;
      audited = elim r.0 [ ok _ ↦ some ("mqtt.publish", p.topic) | err c m ↦ none ];
    }

-- `DELETE /api/mqtt/retained`, which publishes an empty retained message
unfoldable pub delete_retained :
    Buffers
    → (enabled connected : Bool) → (now : ℕ) → Published
    → (topic confirm : String) → Console
    → Routed
delete_retained b enabled connected now reply topic confirm s =
    let p : Publication = record {
      topic = topic;
      payload = "";
      qos = 1;
      retain = true;
      encoding = some false;
    } in
    let r = publish_message b enabled connected now reply p s in
    if not (confirm === topic)
    then record { answer = refused 400 "Confirm the exact topic"; console = s; audited = none }
    else record {
      answer = answer_of r.0;
      console = r.1;
      audited = elim r.0 [ ok _ ↦ some ("mqtt.retained.deleted", topic) | err c m ↦ none ];
    }

unfoldable pub delete_history : Console → Routed
delete_history s = record { answer = done; console = clear_history s; audited = none }

-- `PATCH /api/mqtt/settings`: the limit that is saved. `none` is a value that is no whole number.
unfoldable pub change_settings : Option ℕ → (saved : ℕ) → Answer × ℕ
change_settings none saved = (refused 400 "History limit must be 10–2000", saved)
change_settings (some limit) saved =
    if leb 10 limit && leb limit 2000
    then (done, limit)
    else (refused 400 "History limit must be 10–2000", saved)
