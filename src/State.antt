-- ===== src/State.antt =====
-- The state that the routes act on: the saved document of admin-web/src/db.js, the broker's files,
-- the audit table, the local authority's files and the private keys kept in memory.
use mqtt_trust_gateway.Base.{ℕ, String, Bool, Option, List}
use mqtt_trust_gateway.Db.{Db}
use mqtt_trust_gateway.Db.Audit.{Entry}
use mqtt_trust_gateway.Keys.{Keys}

pub record Broker : Type 0 where
  pub acl : String
  pub policy_state : Option (List String)
  pub audit_cursor : Option (String × ℕ)
  pub revision : Option String
  pub pending_revision : Option String
  pub ca_bundle : String

-- `crl` holds the serial numbers that the revocation list of the local authority names, `ca_serial` the
-- number in the file `serial`, and `keys` the private keys that wait for delivery.
pub record Gateway : Type 0 where
  pub db : Db
  pub broker : Broker
  pub audit_log : List Entry
  pub crl : List String
  pub ca_serial : ℕ
  pub keys : Keys

-- What a request reads: the clock, the user, a supply of random identifiers, the lower case of a text
-- in the runtime's locale, the settings of config.js, and whether the certificate of the update probe is there.
pub record Context : Type 0 where
  pub now : ℕ
  pub actor : String
  pub uuid : ℕ → String
  pub lower : String → String
  pub audit_days : ℕ
  pub topic_prefix : String
  pub has_health_certificate : Bool
