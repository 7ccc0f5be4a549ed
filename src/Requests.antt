-- ===== src/Requests.antt =====
-- The requests of admin-web/src/routes/certificate-routes.js and status-routes.js that change the
-- state, with the archive timer of admin-web/src/server.js, and a run of them. A history is a
-- list: `exclusive` of admin-web/src/db.js queues the requests. It goes on early where a client
-- disconnects, and requests that then overlap are not modelled.
pub mod Access
pub mod Authorization
pub mod Burial
pub mod Quiet
pub mod Invariant
mod Tests
use mqtt_trust_gateway.Base.{if◌then◌else◌, ℕ, String, Bool, List, [], ◌∷◌}
use mqtt_trust_gateway.Broker.{Gateway, Context, log_action, apply_broker_changes}
use mqtt_trust_gateway.Registry.{Openssl}
use mqtt_trust_gateway.Registry.Routes.{
  DeviceBody, PatchBody, create_device, patch_device, archive_device, restore_device,
  approve_device, delete_device, purge_expired_archives,
}
use mqtt_trust_gateway.Certificates.{Pki}
use mqtt_trust_gateway.Certificates.Routes.{
  IssueBody, sign_certificate, renew_certificate, revoke_route, remove_license,
}
use mqtt_trust_gateway.Certificates.External.{
  KeyPair, GenerateBody, generate_certificate, external_csr, cancel_pending, private_key_once,
  private_key_received,
}
use mqtt_trust_gateway.Certificates.Import.{Reader}
use mqtt_trust_gateway.Certificates.Authorities.{
  ImportBody, import_certificate, trust_ca, untrust_ca,
}

pub data Request : Type 0 where
  create : DeviceBody → Request
  patch : String → PatchBody → Request
  archive restored approve delete : (id confirm : String) → Request
  purges : Request
  sign : IssueBody → Request
  renew : String → IssueBody → Request
  generate external : KeyPair → GenerateBody → Request
  cancel key_once key_received revoke : String → Request
  license : Bool → (id confirm : String) → Request
  apply : Request
  imports : ImportBody → Request
  trust : (confirm certificate : String) → Request
  untrust : String → Request

-- What OpenSSL does and the certificate settings, for a run.
pub record Tools : Type 0 where
  pub ssl : Openssl
  pub pki : Pki
  pub reader : Reader

-- `POST /api/broker/apply`
unfoldable pub apply_route : Context → Gateway → Gateway
apply_route x g =
    let (changed, g') = apply_broker_changes g in
    if changed
    then log_action x "broker.changes_applied" "Pending broker configuration submitted" g'
    else g'

unfoldable pub handle : Tools → Context → Request → Gateway → Gateway
handle t x (create body) g = (create_device x body g).1
handle t x (patch id body) g = (patch_device x id body g).1
handle t x (archive id confirm) g = (archive_device x t.ssl id confirm g).1
handle t x (restored id confirm) g = (restore_device x id g).1
handle t x (approve id confirm) g = (approve_device x id confirm g).1
handle t x (delete id confirm) g = (delete_device x t.ssl id confirm g).1
handle t x purges g = purge_expired_archives x t.ssl g
handle t x (sign body) g = (sign_certificate x t.pki body g).1
handle t x (renew id body) g = (renew_certificate x t.pki id body g).1
handle t x (generate pair body) g = (generate_certificate x t.pki pair body g).1
handle t x (external pair body) g = (external_csr x pair body g).1
handle t x (cancel id) g = (cancel_pending x id g).1
handle t x (key_once id) g = (private_key_once x id g).2
handle t x (key_received id) g = (private_key_received x id g).1
handle t x (revoke id) g = (revoke_route x t.ssl id g).1
handle t x (license permanent id confirm) g = (remove_license x t.ssl permanent id confirm g).1
handle t x apply g = apply_route x g
handle t x (imports body) g = (import_certificate x t.pki t.reader body g).1
handle t x (trust confirm certificate) g = (trust_ca x t.pki t.reader confirm certificate g).1
handle t x (untrust id) g = (untrust_ca x t.reader id g).1

-- A history, each request with what it reads.
unfoldable pub run : Tools → List (Context × Request) → Gateway → Gateway
run t [] g = g
run t ((x, r) ∷ rs) g = run t rs (handle t x r g)
