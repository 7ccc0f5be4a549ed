-- ===== src/Certificates/Acceptance.antt =====
-- What an import that is accepted has shown.
use mqtt_trust_gateway.Base.{
  ℕ, ◌≤◌, ◌<◌, String, ◌≡◌, refl, Bool, true, ◌&&◌, not, Option, none, some, List, ◌++◌, ltb, ◌===◌,
  split_text, Bool-cases, inl, inr, ok, Yields, Yields->>=, Yields-ok, require, require_ok, arith,
}
use mqtt_trust_gateway.Db.{TrustedCa}
use mqtt_trust_gateway.Certificates.{Pki, X509, approved_key, from_option}
use mqtt_trust_gateway.Certificates.Pem.{pem_certificates}
use mqtt_trust_gateway.Certificates.Import.{
  Reader, Details, Imported, Anchor, anchors, roots, search, no_search, first, first_cn,
  fits_request, fits_key, finish_import, check_leaf, import_client_certificate,
}
use mqtt_trust_gateway.Certificates.Chains.{passes, search-passes}

from_option_ok {ℓ} :
    {A : Type ℓ} (message : String) (o : Option A) (a : A)
    → from_option message o ≡ ok a
    → o ≡ some a
from_option_ok message none a h = absurd (ground (arith, h))
from_option_ok message (some b) a h = ground (arith, h)

-- A certificate that the reader shows to be in force and of an approved kind.
pub record InForce (pki : Pki) (r : Reader) (now : ℕ) (pem : String) (meta : X509) : Type 0 where
  pub leaf : Details
  pub read : pki.x509 pem ≡ some meta
  pub known : r.details pem ≡ some leaf
  pub begun : leaf.valid_from ≤ now
  pub lasting : now < meta.valid_to
  pub strong : approved_key leaf.key ≡ true
  pub for_clients : r.is_client pem ≡ true

-- The local authority, or one that is trusted and enabled, vouches for the certificate.
pub record Vouched (pki : Pki) (r : Reader) (cas : List TrustedCa) (pem : String) : Type 0 where
  pub ca : String
  pub meta : X509
  pub intermediates : List String
  pub local : r.local_ca ≡ some ca
  pub read : pki.x509 ca ≡ some meta
  pub vouches : passes (λ anchor. r.verify anchor intermediates pem) (anchors ca meta cas) ≡ true

not_before : (now from to : ℕ) → (not (ltb now from) && ltb now to) ≡ true → from ≤ now
not_before now from to h = ground (arith, h)

not_after : (now from to : ℕ) → (not (ltb now from) && ltb now to) ≡ true → now < to
not_after now from to h = ground (arith, h)

abbrev pub Shown : Pki → Reader → ℕ → List TrustedCa → Imported → Type 0
Shown pki r now cas i =
    InForce pki r now i.certificate i.meta
    × (i.common_name ≡ first_cn (split_text 10 i.meta.subject))
    × (i.trusted ≡ true → Vouched pki r cas i.certificate)

module _ (pki : Pki) (r : Reader) (now : ℕ) (cas : List TrustedCa) where
  -- The end of the import, where the search is made.
  search-Shown :
      (pem chain : String) (meta ca_meta : X509) (ca : String) (known found : List Anchor)
      (intermediates : List String)
      → InForce pki r now pem meta
      → known ≡ anchors ca ca_meta cas
      → r.local_ca ≡ some ca
      → pki.x509 ca ≡ some ca_meta
      → Yields (Shown pki r now cas) (finish_import r pem chain meta known found intermediates)
  unfolding finish_import
  search-Shown pem chain meta ca_meta ca known found inter f k l m =
      let check : String → Bool = λ anchor. r.verify anchor inter pem in
      let end = search check known (known ++ found) no_search in
      let name = first_cn (split_text 10 meta.subject) in
      let shown : InForce pki r now pem meta
          × (name ≡ name)
          × (end.trusted ≡ true → Vouched pki r cas pem) =
        (
          f,
          refl,
          λ t. record {
            ca = ca;
            meta = ca_meta;
            intermediates = inter;
            local = l;
            read = m;
            vouches = rw⁻¹ k (search-passes check known found t);
          },
        ) in
      elim (Bool-cases (not (end.issuer === ""))) [
        | inr b ↦ rw (finish_import, b) tt
        | inl b ↦ rw (finish_import, b) shown
      ]

  check_leaf-InForce :
      (pem private_key expected : String)
      → Yields (InForce pki r now pem) (check_leaf pki r now pem private_key expected)
  unfolding check_leaf
  check_leaf-InForce pem private_key expected =
      let P = InForce pki r now pem in
      Yields->>= P (from_option _ (pki.x509 pem)) _ λ meta m.
        Yields->>= P (from_option _ (r.details pem)) _ λ leaf l.
          Yields->>= P (require _ 500 _) _ λ _ v. Yields->>= P (require _ 500 _) _ λ _ strong.
            Yields->>= P (fits_request r expected leaf) _ λ _ _.
              Yields->>= P (fits_key r pem private_key) _ λ _ _.
                Yields->>= P (require _ 500 _) _ λ _ client.
                  let v' = require_ok _ 500 _ _ v in
                  let shown : InForce pki r now pem meta = record {
                    leaf = leaf;
                    read = from_option_ok _ _ _ m;
                    known = from_option_ok _ _ _ l;
                    begun = not_before now leaf.valid_from meta.valid_to v';
                    lasting = not_after now leaf.valid_from meta.valid_to v';
                    strong = require_ok _ 500 _ _ strong;
                    for_clients = require_ok _ 500 _ _ client;
                  } in
                  shown

  pub import_client_certificate-Shown :
      (value chain private_key expected : String)
      → Yields
          (Shown pki r now cas)
          (import_client_certificate pki r now cas value chain private_key expected)
  unfolding import_client_certificate
  import_client_certificate-Shown value chain private_key expected =
      let P = Shown pki r now cas in
      Yields->>= P (from_option _ (first (pem_certificates value))) _ λ pem _.
        Yields->>= P (check_leaf pki r now pem private_key expected) _ λ meta good.
          Yields->>= P (from_option _ r.local_ca) _ λ ca c.
            Yields->>= P (from_option _ (pki.x509 ca)) _ λ ca_meta m.
              Yields->>= P (roots pki r (pem_certificates chain)) _ λ found _.
                search-Shown pem chain meta ca_meta ca (anchors ca ca_meta cas) found.0 found.1
                  (Yields-ok (InForce pki r now pem) _ meta
                    (check_leaf-InForce pem private_key expected) good)
                  refl (from_option_ok _ _ _ c) (from_option_ok _ _ _ m)
