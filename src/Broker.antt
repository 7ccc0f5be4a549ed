-- ===== src/Broker.antt =====
-- The broker configuration that admin-web/src/services/certificate-service.js writes: `syncBroker`,
-- `stageBroker`, `submitBrokerRevision` and `applyBrokerChanges`. The files of the broker's directory
-- are the fields of `Broker`.
pub mod Staging
use Prim.Native.String.{◌++◌}
use mqtt_trust_gateway.Base.{
  ℕ, String, Bool, true, false, ◌&&◌, ◌||◌, not, Option, none, some, List, [], ◌∷◌, map, ltb, leb,
  ◌==◌, ◌===◌, if◌then◌else◌, codes, length, any, all, filter,
}
pub use mqtt_trust_gateway.State.{Broker, Gateway, Context}
use mqtt_trust_gateway.Db.{Db, Device, DeviceStatus, Certificate, CertificateStatus}
use mqtt_trust_gateway.Db.Audit.{Entry, audit, max_id}

abbrev pub admin_mqtt_client_id : String
admin_mqtt_client_id = "mqtt-trust-admin"

-- /[A-Za-z0-9._-]/
abbrev pub is_id_char : ℕ → Bool
is_id_char c =
    (leb b'A' c && leb c b'Z')
    || (leb b'a' c && leb c b'z')
    || (leb b'0' c && leb c b'9')
    || (c == b'.')
    || (c == b'_')
    || (c == b'-')

-- /^[A-Za-z0-9._-]{1,64}$/
unfoldable pub valid_device_id : String → Bool
valid_device_id id =
    leb 1 (length (codes id)) && leb (length (codes id)) 64 && all is_id_char (codes id)

-- `… || id === env.adminMqttClientId` makes an identifier invalid or reserved.
unfoldable pub allowed_device_id : String → Bool
unfolding valid_device_id
allowed_device_id id = valid_device_id id && not (id === admin_mqtt_client_id)

abbrev pub is_active : DeviceStatus → Bool
is_active DeviceStatus.active = true
is_active _ = false

abbrev pub is_archived : DeviceStatus → Bool
is_archived DeviceStatus.archived = true
is_archived _ = false

abbrev pub is_deleted : DeviceStatus → Bool
is_deleted DeviceStatus.deleted = true
is_deleted _ = false

abbrev pub is_active_certificate : CertificateStatus → Bool
is_active_certificate CertificateStatus.active = true
is_active_certificate _ = false

-- `Date.parse(c.validTo) > now`
abbrev pub ends_after : Option ℕ → ℕ → Bool
ends_after none now = false
ends_after (some t) now = ltb now t

-- `c.status === 'active' && c.brokerTrusted !== false && Date.parse(c.validTo) > now`
abbrev pub is_usable : ℕ → Certificate → Bool
is_usable now c = is_active_certificate c.status && c.broker_trusted && ends_after c.valid_to now

-- The devices that get an entry, by the conditions of the loop of `syncBroker`.
abbrev pub has_credential : ℕ → List Certificate → String → Bool
has_credential now cs id = any (λ (c : Certificate). (c.device_id === id) && is_usable now c) cs

unfoldable pub is_authorized : ℕ → Db → Device → Bool
is_authorized now db d =
    d.enabled
    && not (is_archived d.status)
    && not (is_deleted d.status)
    && d.trusted
    && allowed_device_id d.id
    && has_credential now db.certificates d.id

unfoldable pub authorized_devices : ℕ → Db → List Device
authorized_devices now db = filter (is_authorized now db) db.devices

unfoldable pub device_entry : String → String → String
device_entry prefix id =
    "\nuser " ++ id ++ "\ntopic readwrite " ++ id ++ "/#\ntopic readwrite " ++ prefix ++ "/" ++ id
    ++ "/#\n"

unfoldable pub entries : String → List Device → String
unfolding device_entry
entries prefix [] = ""
entries prefix (d ∷ ds) = device_entry prefix d.id ++ entries prefix ds

abbrev pub admin_entry : String
admin_entry = "user mqtt-trust-admin\ntopic readwrite #\ntopic read $SYS/#\n"

abbrev pub health_entry : Bool → String
health_entry true = "\nuser mqtt-trust:health\ntopic readwrite gateway:update:health/#\n"
health_entry false = ""

unfoldable pub acl_text : Context → Db → String
acl_text x db =
    admin_entry
    ++ health_entry x.has_health_certificate
    ++ entries x.topic_prefix (authorized_devices x.now db)

-- `<` on texts: by code units.
unfoldable pub codes_lt : List ℕ → List ℕ → Bool
codes_lt [] [] = false
codes_lt [] (d ∷ ds) = true
codes_lt (c ∷ cs) [] = false
codes_lt (c ∷ cs) (d ∷ ds) = if ltb c d then true else if ltb d c then false else codes_lt cs ds

unfoldable pub sort_insert : String → List String → List String
sort_insert s [] = s ∷ []
sort_insert s (t ∷ ts) = if codes_lt (codes t) (codes s) then t ∷ sort_insert s ts else s ∷ t ∷ ts

unfoldable pub sort : List String → List String
unfolding sort_insert
sort [] = []
sort (s ∷ ss) = sort_insert s (sort ss)

unfoldable pub policy : ℕ → Db → List String
policy now db = sort (map (λ (c : Certificate). c.serial) (filter (is_usable now) db.certificates))

abbrev pub same_texts : List String → List String → Bool
same_texts [] [] = true
same_texts (s ∷ ss) (t ∷ ts) = (s === t) && same_texts ss ts
same_texts _ _ = false

-- a missing file reads as the empty text, which no policy is
abbrev pub same_policy : List String → Option (List String) → Bool
same_policy p none = false
same_policy p (some q) = same_texts p q

unfoldable pub submit_broker_revision : String → List Entry → Broker → Broker
submit_broker_revision revision log b = record b {
  audit_cursor = some (revision, max_id log);
  revision = some revision;
}

unfoldable pub sync_broker :
    Context → (force defer : Bool) → (revision : String) → Gateway → Gateway
unfolding submit_broker_revision
sync_broker x force defer revision g =
    let acl = acl_text x g.db in
    let serials = policy x.now g.db in
    if force || not (acl === g.broker.acl) || not (same_policy serials g.broker.policy_state)
    then (let b : Broker = record g.broker { acl = acl; policy_state = some serials } in
        if defer
        then record g { broker = record b { pending_revision = some revision } }
        else record g {
          broker = record (submit_broker_revision revision g.audit_log b) {
            pending_revision = none;
          };
        })
    else g

unfoldable pub stage_broker : Context → Bool → String → Gateway → Gateway
unfolding sync_broker
stage_broker x force revision g = sync_broker x force true revision g

-- An empty file counts as no pending revision.
unfoldable pub apply_broker_changes : Gateway → Bool × Gateway
unfolding submit_broker_revision
apply_broker_changes g = elim g.broker.pending_revision [
  | none ↦ (false, g)
  | some pending ↦ if pending === "" then (false, g) else (
    true,
    record g {
      broker = record (submit_broker_revision pending g.audit_log g.broker) {
        pending_revision = none;
      };
    },
  )
]

unfoldable pub log_action : Context → String → String → Gateway → Gateway
log_action x action detail g = record g {
  audit_log = audit x.now x.audit_days x.actor action detail g.audit_log;
}
