-- ===== src/Certificates/Import.antt =====
-- A certificate that another authority issued: `importClientCertificate` of
-- admin-web/src/services/certificate-service.js and `POST /api/certificates/import`.
use mqtt_trust_gateway.Base.{
  ℕ, String, Bool, true, false, ◌&&◌, ◌||◌, not, Option, none, some, List, [], ◌∷◌, ◌++◌, ltb,
  ◌===◌, if◌then◌else◌, any, filter, map, split_text, Result, ok, ◌>>=◌, ◌>>◌, require,
}
use mqtt_trust_gateway.Db.{TrustedCa}
use mqtt_trust_gateway.Certificates.{Pki, X509, PublicKey, approved_key, from_option}
use mqtt_trust_gateway.Certificates.Pem.{pem_certificates, strip_prefix, join_lines}

-- What else the X.509 reader says of a certificate.
pub record Details : Type 0 where
  pub valid_from : ℕ
  pub key : PublicKey
  pub spki : String
  pub is_self_signed : Bool

-- OpenSSL and the reader, for imports: the text of the local authority's certificate (`none` where its
-- files are missing or do not fit), the key in a text, whether a private key fits a certificate, the
-- test of its purpose, the printed form of a certificate, and `openssl verify` with an anchor.
pub record Reader : Type 0 where
  pub details : String → Option Details
  pub local_ca : Option String
  pub public_key : String → Option String
  pub private_key_fits : (certificate key : String) → Option Bool
  pub is_client : String → Bool
  pub printed : String → String
  pub verify : (anchor : String) (intermediates : List String) (certificate : String) → Bool

pub record Anchor : Type 0 where
  pub certificate : String
  pub fingerprint : String
  pub is_internal : Bool

abbrev pub anchor_of : TrustedCa → Anchor
anchor_of t = record {
  certificate = t.certificate;
  fingerprint = t.fingerprint;
  is_internal = false;
}

-- The local authority, and the trusted ones that are enabled.
unfoldable pub anchors : String → X509 → List TrustedCa → List Anchor
anchors ca meta cas =
    record { certificate = ca; fingerprint = meta.fingerprint; is_internal = true }
    ∷ map anchor_of (filter (λ (t : TrustedCa). t.enabled) cas)

-- The roots in the supplied chain, as further candidates; the rest are intermediates.
unfoldable pub roots : Pki → Reader → List String → Result (List Anchor × List String)
roots pki r [] = ok ([], [])
roots pki r (pem ∷ pems) = do
  meta ← from_option "X509" (pki.x509 pem)
  more ← from_option "X509" (r.details pem)
  (found, rest) ← roots pki r pems
  let root : Anchor = record {
    certificate = r.printed pem;
    fingerprint = meta.fingerprint;
    is_internal = false;
  }
  ok (if meta.is_ca && more.is_self_signed then (root ∷ found, rest) else (found, pem ∷ rest))

abbrev pub has_fingerprint : String → List Anchor → Bool
has_fingerprint f as' = any (λ (a : Anchor). a.fingerprint === f) as'

-- The state of the loop over the candidates.
pub record Search : Type 0 where
  pub seen : List String
  pub trusted : Bool
  pub issuer : String

unfoldable pub try_anchor : (check : String → Bool) → List Anchor → Anchor → Search → Search
try_anchor check known a c =
    if any (λ f. f === a.fingerprint) c.seen
    then c
    else let c' : Search = record c { seen = a.fingerprint ∷ c.seen } in
      if not (check a.certificate)
      then c'
      else let is_known = has_fingerprint a.fingerprint known in
        record c' {
          trusted = c.trusted || is_known;
          issuer = if (c.issuer === "") || is_known then a.fingerprint else c.issuer;
        }

unfoldable pub search : (check : String → Bool) → (known candidates : List Anchor) → Search → Search
search check known [] c = c
search check known (a ∷ rest) c = search check known rest (try_anchor check known a c)

abbrev pub no_search : Search
no_search = record { seen = []; trusted = false; issuer = "" }

-- /(?:^|\n)CN=([^\n]+)/
unfoldable pub first_cn : List String → String
unfolding strip_prefix
first_cn [] = ""
first_cn (line ∷ lines) = elim (strip_prefix "CN=" line) [
  | none ↦ first_cn lines
  | some name ↦ if name === "" then first_cn lines else name
]

pub record Imported : Type 0 where
  pub certificate : String
  pub chain : String
  pub meta : X509
  pub common_name : String
  pub trusted : Bool
  pub issuer_fingerprint : String
  pub is_internal : Bool

abbrev pub first {ℓ} : {A : Type ℓ} → List A → Option A
first [] = none
first (x ∷ xs) = some x

-- An empty text asks for nothing.
abbrev pub fits_request : Reader → (expected : String) → Details → Result (Unit {0})
fits_request r expected leaf = if expected === "" then ok tt else do
  spki ← from_option "createPublicKey" (r.public_key expected)
  require (leaf.spki === spki) 500 "Certificate public key does not match the pending CSR"

abbrev pub fits_key : Reader → (pem key : String) → Result (Unit {0})
fits_key r pem key = if key === "" then ok tt else do
  fits ← from_option "createPrivateKey" (r.private_key_fits pem key)
  require fits 500 "Certificate and private key do not match"

-- The end of `importClientCertificate`, with the anchors and the roots at hand.
unfoldable pub finish_import :
    Reader
    → (pem chain : String) → X509
    → (known found : List Anchor) → (intermediates : List String) → Result Imported
finish_import r pem chain meta known found intermediates =
    let end =
      search (λ anchor. r.verify anchor intermediates pem) known (known ++ found) no_search in
    do
      require (not (end.issuer === "")) 500
          "A complete, cryptographically valid issuer chain is required"
      ok record {
        certificate = pem;
        chain = join_lines (pem_certificates chain);
        meta = meta;
        common_name = first_cn (split_text 10 meta.subject);
        trusted = end.trusted;
        issuer_fingerprint = end.issuer;
        is_internal = any (λ (a : Anchor). a.is_internal && (a.fingerprint === end.issuer)) known;
      }

-- The checks on the certificate itself.
unfoldable pub check_leaf :
    Pki → Reader → (now : ℕ) → (pem private_key expected : String) → Result X509
check_leaf pki r now pem private_key expected = do
  meta ← from_option "X509" (pki.x509 pem)
  leaf ← from_option "X509" (r.details pem)
  require (not (ltb now leaf.valid_from) && ltb now meta.valid_to) 500
      "Certificate is not currently valid"
  require (approved_key leaf.key) 500 "Certificate requires RSA >=2048 or an approved EC curve"
  fits_request r expected leaf
  fits_key r pem private_key
  require (r.is_client pem) 500 "Certificate is not valid for TLS client authentication"
  ok meta

-- `importClientCertificate`, for the authorities that are trusted
unfoldable pub import_client_certificate :
    Pki
    → Reader
    → (now : ℕ) → List TrustedCa
    → (value chain private_key expected : String) → Result Imported
import_client_certificate pki r now cas value chain private_key expected = do
  pem ← from_option "A PEM X.509 client certificate is required" (first (pem_certificates value))
  meta ← check_leaf pki r now pem private_key expected
  ca ← from_option "ENOENT" r.local_ca
  ca_meta ← from_option "X509" (pki.x509 ca)
  (found, intermediates) ← roots pki r (pem_certificates chain)
  finish_import r pem chain meta (anchors ca ca_meta cas) found intermediates
