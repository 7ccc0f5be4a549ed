-- ===== src/Db.antt =====
-- admin-web/src/db.js: the state that is loaded and saved as one document, and the audit table.
-- Fields that `loadDb` fills in with a default have it from the start; a time is in milliseconds.
pub mod Audit
use mqtt_trust_gateway.Base.{ℕ, String, Bool, Option, List, []}

pub data DeviceStatus : Type 0 where
  active archived deleted : DeviceStatus

pub record Label : Type 0 where
  pub name : String
  pub color : String

pub record Device : Type 0 where
  pub id : String
  pub name : String
  pub description : String
  pub labels : List Label
  pub enabled : Bool
  pub trusted : Bool
  pub status : DeviceStatus
  pub created_at : ℕ
  pub archived_at : Option ℕ
  pub scheduled_deletion_at : Option ℕ
  pub approved_at : Option ℕ
  pub approved_by : Option String

pub data CertificateStatus : Type 0 where
  active revoked blocked completed pending_external_signature : CertificateStatus

pub data Issuer : Type 0 where
  local legacy external : Issuer

-- `valid_to` is `none` where `Date.parse` gives NaN, with which every comparison is false.
pub record Certificate : Type 0 where
  pub id : String
  pub device_id : String
  pub certificate : Option String
  pub chain : String
  pub csr : String
  pub public_key : Option String
  pub status : CertificateStatus
  pub provisioning_method : String
  pub serial : String
  pub fingerprint : String
  pub valid_to : Option ℕ
  pub issuer : Issuer
  pub issuer_fingerprint : Option String
  pub broker_trusted : Bool
  pub issued_at : ℕ
  pub issued_by : String
  pub renewed_from : String
  pub revoked_at : Option ℕ
  pub revoked_by : Option String
  pub block_reason : Option String
  pub license_archived_at : Option ℕ
  pub license_deleted_at : Option ℕ
  pub private_key_received : Bool
  pub completed_at : Option ℕ

pub record TrustedCa : Type 0 where
  pub id : String
  pub certificate : String
  pub fingerprint : String
  pub enabled : Bool
  pub added_at : ℕ

pub record TombstoneCertificate : Type 0 where
  pub serial : String
  pub fingerprint : String
  pub issuer : Issuer
  pub status : CertificateStatus

pub record Tombstone : Type 0 where
  pub id : String
  pub deleted_at : ℕ
  pub deleted_by : String
  pub fingerprints : List String
  pub certificates : List TombstoneCertificate

pub record Session : Type 0 where
  pub user_id : String
  pub expires_at : ℕ

pub record Challenge : Type 0 where
  pub challenge : String
  pub expires_at : ℕ

pub record Credential : Type 0 where
  pub id : String
  pub public_key : String
  pub counter : ℕ
  pub name : String
  pub created_at : ℕ

pub record Totp : Type 0 where
  pub encrypted : String
  pub last_step : Option ℕ

pub record PendingTotp : Type 0 where
  pub encrypted : String
  pub last_step : Option ℕ
  pub expires_at : ℕ
  pub session_id : String

pub record SensitivePreferences : Type 0 where
  pub timeout_seconds : ℕ
  pub require_authentication : Bool

-- the credential fields of an account that was migrated from the first version
pub record LegacyCredential : Type 0 where
  pub id : String
  pub public_key : String
  pub counter : Option ℕ

pub record User : Type 0 where
  pub id : String
  pub username : String
  pub password_hash : Option String
  pub credentials : List Credential
  pub legacy_credential : Option LegacyCredential
  pub totp : Option Totp
  pub pending_totp : Option PendingTotp
  pub sensitive_preferences : Option SensitivePreferences
  pub created_at : ℕ

-- A device whose identifier is no text: what `String` makes of it, and whether it is a list, which is
-- equal to no other. It stands under an identifier that no text names.
pub record Untyped : Type 0 where
  pub device : Device
  pub shown : String
  pub is_list : Bool

-- The devices whose identifier is a text, and the others.
pub record Db : Type 0 where
  pub users : List User
  pub sessions : List (String × Session)
  pub challenges : List (String × Challenge)
  pub certificates : List Certificate
  pub devices : List Device
  pub untyped : List Untyped
  pub trusted_cas : List TrustedCa
  pub deleted_identities : List Tombstone

-- `empty`
abbrev pub empty : Db
empty = record {
  users = [];
  sessions = [];
  challenges = [];
  certificates = [];
  devices = [];
  untyped = [];
  trusted_cas = [];
  deleted_identities = [];
}
