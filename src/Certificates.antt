-- ===== src/Certificates.antt =====
-- Certificates: the helpers of admin-web/src/routes/certificate-routes.js, and issuing and renewal in
-- admin-web/src/services/certificate-service.js. OpenSSL and the X.509 reader are the fields of `Pki`.
pub mod Routes
pub mod External
pub mod Identities
pub mod Preservation
pub mod Pem
pub mod Blocks
pub mod Import
pub mod Authorities
pub mod Chains
pub mod Acceptance
pub mod Imports
pub mod Trust
use Prim.Native.String.{◌++◌ as ◌<>◌}
use text.Mathlib.Text.{find?}
use mqtt_trust_gateway.Base.{
  ℕ, ◌+◌, ◌*◌, String, Bool, true, false, ◌&&◌, ◌||◌, not, Option, none, some, List, [], ◌∷◌, ◌++◌,
  ltb, leb, ◌==◌, ◌===◌, if◌then◌else◌, codes, any, map, find? as find_in, modify, take_text,
  Result, ok, err, ◌>>=◌, ◌>>◌, require,
}
use mqtt_trust_gateway.Db.{
  Db, Device, Untyped, DeviceStatus, Certificate, CertificateStatus, Issuer,
}
use mqtt_trust_gateway.Broker.{
  Context, valid_device_id, allowed_device_id, is_active, is_active_certificate,
}
use mqtt_trust_gateway.Registry.{device_record, is_tombstoned}

pub data PublicKey : Type 0 where
  rsa : ℕ → PublicKey
  ec : String → PublicKey
  other : PublicKey

pub record X509 : Type 0 where
  pub subject : String
  pub serial : String
  pub fingerprint : String
  pub valid_to : ℕ
  pub is_ca : Bool
  pub issued_by_local_ca : Bool

pub record Pki : Type 0 where
  pub ca_valid_to : ℕ
  pub cert_days : ℕ
  pub max_cert_days : ℕ
  -- the key of a request whose signature verifies
  pub csr_key : String → Option PublicKey
  -- `openssl ca`: a certificate and the next serial number
  pub sign : (serial : ℕ) (device_id csr : String) (days : ℕ) → Option (String × ℕ)
  -- `openssl verify`, with the revocation list
  pub verifies : (crl : List String) → String → Bool
  -- `openssl x509 -new` and `openssl ca -valid`
  pub reissue : (serial : ℕ) (device_id certificate : String) (days : ℕ) → Option String
  pub x509 : String → Option X509

-- An identifier as a body or a record holds it: a text, a list, or a number or nothing, each of these
-- with what `String` makes of it.
pub data Identifier : Type 0 where
  text_id list_id value_id : String → Identifier

abbrev pub shown : Identifier → String
shown (text_id s) = s
shown (list_id s) = s
shown (value_id s) = s

-- The regular expression reads what is shown; `===` holds for texts only.
abbrev pub allowed_identifier : Identifier → Bool
allowed_identifier (text_id s) = allowed_device_id s
allowed_identifier i = valid_device_id (shown i)

-- The identifier under which a device stands: of a text the text itself, and otherwise one that no text
-- is that is allowed.
abbrev pub stored_id : Identifier → String
stored_id (text_id s) = s
stored_id (list_id s) = "=[" <> s
stored_id (value_id s) = "=" <> s

abbrev pub identifier_of : Db → String → Identifier
identifier_of db id = elim (find_in (λ (u : Untyped). u.device.id === id) db.untyped) [
  | none ↦ text_id id
  | some u ↦ if u.is_list then list_id u.shown else value_id u.shown
]

abbrev pub shown_id : Db → String → String
shown_id db id = shown (identifier_of db id)

-- A device whose identifier is a number or nothing, found by an equal one.
abbrev pub find_untyped : Db → String → Option Device
find_untyped db id =
    elim (find_in (λ (u : Untyped). not u.is_list && (u.device.id === id)) db.untyped) [
      | none ↦ none
      | some u ↦ some u.device
    ]

-- `deviceRecord`, for the identifier that a certificate holds
abbrev pub owner : Db → String → Option Device
owner db id = elim (device_record db id) [ none ↦ find_untyped db id | some d ↦ some d ]

-- What the request says of the validity: nothing, a whole number of days, or anything else.
pub data Days : Type 0 where
  unset not_integer : Days
  days : ℕ → Days

abbrev pub approved_key : PublicKey → Bool
approved_key (rsa bits) = leb 2048 bits
approved_key (ec curve) =
    (curve === "prime256v1") || (curve === "secp384r1") || (curve === "secp521r1")
approved_key other = false

abbrev pub day_ms : ℕ
day_ms = 86_400_000

abbrev pub requested_days : Pki → Days → Result ℕ
requested_days pki not_integer = err 500 "Validity must be in days"
requested_days pki unset =
    if leb 1 pki.cert_days && leb pki.cert_days pki.max_cert_days
    then ok pki.cert_days
    else err 500 "Validity must be in days"
requested_days pki (days n) =
    if leb 1 n && leb n pki.max_cert_days then ok n else err 500 "Validity must be in days"

abbrev pub from_option {ℓ} : {A : Type ℓ} → String → Option A → Result A
from_option m none = err 500 m
from_option m (some a) = ok a

-- `signDeviceCsr`: the certificate and the next serial number.
unfoldable pub sign_device_csr :
    Pki → (now serial : ℕ) → Identifier → (csr : String) → Days → Result (String × ℕ)
sign_device_csr pki now serial device_id csr asked = do
  require (allowed_identifier device_id) 500 "Invalid or reserved device identifier"
  n ← requested_days pki asked
  require (ltb (now + n * day_ms) pki.ca_valid_to) 500 "Requested validity exceeds CA validity"
  key ← from_option "openssl" (pki.csr_key csr)
  require (approved_key key) 500 "CSR requires RSA >=2048 or an approved EC curve"
  from_option "openssl" (pki.sign serial (shown device_id) csr n)

-- Serial numbers are compared without leading zeros and without regard to case.
abbrev pub strip_zeros : List ℕ → List ℕ
strip_zeros [] = []
strip_zeros (c ∷ cs) = let rest = strip_zeros cs in if c == b'0' then rest else c ∷ cs

abbrev pub upper : ℕ → ℕ
upper c = if leb b'a' c && leb c b'z' then mqtt_trust_gateway.Base.◌-◌ c 32 else c

abbrev pub same_codes : List ℕ → List ℕ → Bool
same_codes [] [] = true
same_codes (c ∷ cs) (d ∷ ds) = (c == d) && same_codes cs ds
same_codes _ _ = false

unfoldable pub same_serial : String → String → Bool
same_serial s t = same_codes (map upper (strip_zeros (codes s))) (map upper (strip_zeros (codes t)))

unfoldable pub certificate_is_in_crl : List String → String → Bool
unfolding same_serial
certificate_is_in_crl crl serial = any (λ (s : String). same_serial s serial) crl

-- `renewDeviceCertificate`: the result, and the number that the file `serial` then holds. It is moved on
-- before signing, so it moves also when signing fails.
unfoldable pub renew_checks :
    Pki → (now : ℕ) → (crl : List String) → Identifier → (certificate : String) → Days → Result ℕ
renew_checks pki now crl device_id certificate asked = do
  require (allowed_identifier device_id) 500 "Invalid or reserved device identifier"
  n ← requested_days pki asked
  current ← from_option "X509" (pki.x509 certificate)
  require
      (not current.is_ca
        && (current.subject === ("CN=" <> shown device_id))
        && current.issued_by_local_ca)
      500 "Only certificates issued by the current local CA can be renewed here"
  require (not (certificate_is_in_crl crl current.serial)) 500
      "Revoked certificates cannot be renewed"
  require (ltb (now + n * day_ms) pki.ca_valid_to) 500 "Requested validity exceeds CA validity"
  require (pki.verifies crl certificate) 500 "openssl verify"
  ok n

unfoldable pub renew_device_certificate :
    Pki
    → (now : ℕ) → (crl : List String) → (serial : ℕ) → Identifier
    → (certificate : String) → Days
    → Result String × ℕ
renew_device_certificate pki now crl serial device_id certificate asked =
    elim (renew_checks pki now crl device_id certificate asked) [
      | err c m ↦ (err c m, serial)
      | ok n ↦
          (from_option "openssl" (pki.reissue serial (shown device_id) certificate n), serial + 1)
    ]

-- The status that is shown (`state` and `publicCertificate`).
pub data Shown : Type 0 where
  untrusted expired expiring : Shown
  stored : CertificateStatus → Shown

-- NaN is neither `<=` nor `<` anything.
abbrev pub at_or_before : Option ℕ → ℕ → Bool
at_or_before none t = false
at_or_before (some v) t = leb v t

abbrev pub before : Option ℕ → ℕ → Bool
before none t = false
before (some v) t = ltb v t

unfoldable pub state : ℕ → Certificate → Shown
state now c =
    if not (is_active_certificate c.status)
    then stored c.status
    else if at_or_before c.valid_to now
    then expired
    else if before c.valid_to (now + 30 * day_ms)
    then expiring
    else stored CertificateStatus.active

unfoldable pub public_status : ℕ → Certificate → Shown
unfolding state
public_status now c =
    if is_active_certificate c.status && not c.broker_trusted then untrusted else state now c

-- `find`
abbrev pub find_certificate : Db → String → Option Certificate
find_certificate db id = find_in (λ (c : Certificate). c.id === id) db.certificates

abbrev pub update_certificate : String → (Certificate → Certificate) → Db → Db
update_certificate id f db = record db {
  certificates = modify (λ (c : Certificate). c.id === id) f db.certificates;
}

abbrev pub new_identity : (now : ℕ) (id name description : String) → Device
new_identity now id name description = record {
  id = id;
  name = take_text 100 (if name === "" then id else name);
  description = take_text 1000 description;
  labels = [];
  enabled = false;
  trusted = false;
  status = DeviceStatus.active;
  created_at = now;
  archived_at = none;
  scheduled_deletion_at = none;
  approved_at = none;
  approved_by = none;
}

abbrev pub add_untyped :
    (now : ℕ) → Identifier → (is_list : Bool) → (name description : String) → Db → Device × Db
add_untyped now i is_list name description db =
    let device : Device = record (new_identity now (shown i) name description) {
      id = stored_id i;
    } in
    let u : Untyped = record { device = device; shown = shown i; is_list = is_list } in
    (device, record db { untyped = db.untyped ++ u ∷ [] })

-- `ensureIdentity`: the device, and the database in which it is registered. A tombstone is that of a
-- text, so an identifier of another type is not compared with any.
unfoldable pub ensure_identity :
    (now : ℕ) → Identifier → (name description : String) → Db → Result (Device × Db)
ensure_identity now (text_id id) name description db =
    if not (allowed_device_id id)
    then err 400 "Invalid or reserved device identifier"
    else if is_tombstoned db id
    then err 409 "This identity was permanently deleted and cannot be reused"
    else elim (device_record db id) [
      | some d ↦
          if is_active d.status
          then ok (d, db)
          else err 409 "Only active device identities can be provisioned"
      | none ↦
          let device = new_identity now id name description in
          ok (device, record db { devices = db.devices ++ device ∷ [] })
    ]
ensure_identity now (list_id s) name description db =
    if not (valid_device_id s)
    then err 400 "Invalid or reserved device identifier"
    else ok (add_untyped now (list_id s) true name description db)
ensure_identity now (value_id s) name description db =
    if not (valid_device_id s)
    then err 400 "Invalid or reserved device identifier"
    else elim (find_untyped db (stored_id (value_id s))) [
      | some d ↦
          if is_active d.status
          then ok (d, db)
          else err 409 "Only active device identities can be provisioned"
      | none ↦ ok (add_untyped now (value_id s) false name description db)
    ]

-- What differs between the records that `addIssuedRecord` makes.
pub record Issued : Type 0 where
  pub device_id : String
  pub certificate : String
  pub method : String
  pub issuer : Issuer
  pub broker_trusted : Bool
  pub csr : String
  pub renewed_from : String

abbrev pub issued_record : Context → (id : String) → X509 → Issued → Certificate
issued_record x id meta i = record {
  id = id;
  device_id = i.device_id;
  certificate = some i.certificate;
  chain = "";
  csr = i.csr;
  public_key = none;
  status = CertificateStatus.active;
  provisioning_method = i.method;
  serial = meta.serial;
  fingerprint = meta.fingerprint;
  valid_to = some meta.valid_to;
  issuer = i.issuer;
  issuer_fingerprint = none;
  broker_trusted = i.broker_trusted;
  issued_at = x.now;
  issued_by = x.actor;
  renewed_from = i.renewed_from;
  revoked_at = none;
  revoked_by = none;
  block_reason = none;
  license_archived_at = none;
  license_deleted_at = none;
  private_key_received = false;
  completed_at = none;
}

-- `addIssuedRecord`: the newest record stands first.
unfoldable pub add_issued_record :
    Context → Pki → (id : String) → Issued → Db → Result (Certificate × Db)
add_issued_record x pki id i db = do
  meta ← from_option "X509" (pki.x509 i.certificate)
  let c = issued_record x id meta i
  ok (c, record db { certificates = c ∷ db.certificates })

abbrev pub includes_pem_csr : String → Bool
includes_pem_csr s = elim (find? s "BEGIN CERTIFICATE REQUEST") [ none ↦ false | some i ↦ true ]
