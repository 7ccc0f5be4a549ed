-- ===== src/Certificates/Chains.antt =====
-- What the search for an issuer has found: the loop of `importClientCertificate`.
use mqtt_trust_gateway.Base.{
  String, ◌≡◌, refl, Bool, true, List, [], ◌∷◌, ◌++◌, any, Bool-cases, inl, inr, ◌===◌, arith,
}
use mqtt_trust_gateway.Certificates.Import.{
  Anchor, Search, no_search, has_fingerprint, try_anchor, search,
}

abbrev is_seen : String → Search → Bool
is_seen f c = any (λ g. g === f) c.seen

-- the candidates that pass the check
abbrev pub passes : (String → Bool) → List Anchor → Bool
passes check known = any (λ (a : Anchor). check a.certificate) known

module _ (check : String → Bool) (known : List Anchor) where
  search-append :
      (us vs : List Anchor) (c : Search)
      → search check known (us ++ vs) c ≡ search check known vs (search check known us c)
  unfolding search
  search-append [] vs c = refl
  search-append (a ∷ us) vs c = search-append us vs (try_anchor check known a c)

  try_anchor-seen :
      (f : String) (a : Anchor) (c : Search)
      → is_seen f c ≡ true
      → is_seen f (try_anchor check known a c) ≡ true
  unfolding try_anchor
  try_anchor-seen f a c h = ground (arith, h)

  try_anchor-own :
      (a : Anchor) (c : Search) → is_seen a.fingerprint (try_anchor check known a c) ≡ true
  unfolding try_anchor
  try_anchor-own a c = ground arith

  search-seen :
      (f : String) (us : List Anchor) (c : Search)
      → is_seen f c ≡ true
      → is_seen f (search check known us c) ≡ true
  unfolding search
  search-seen f [] c h = h
  search-seen f (a ∷ us) c h =
      search-seen f us (try_anchor check known a c) (try_anchor-seen f a c h)

  search-covers :
      (f : String) (us : List Anchor) (c : Search)
      → has_fingerprint f us ≡ true
      → is_seen f (search check known us c) ≡ true
  unfolding search
  search-covers f [] c h = absurd (ground (arith, h))
  search-covers f (a ∷ us) c h = elim (Bool-cases (a.fingerprint === f)) [
    | inr other ↦ search-covers f us (try_anchor check known a c) (ground (arith, other, h))
    | inl own ↦
        search-seen f us (try_anchor check known a c) (ground (arith, own, try_anchor-own a c))
  ]

  -- Over the anchors themselves.
  search-known :
      (us : List Anchor) (c : Search)
      → (passes check us ≡ true → passes check known ≡ true)
      → (c.trusted ≡ true → passes check known ≡ true)
      → (search check known us c).trusted ≡ true
      → passes check known ≡ true
  unfolding search try_anchor
  search-known [] c sub old h = old h
  search-known (a ∷ us) c sub old h =
      search-known us (try_anchor check known a c) (λ p. sub (ground (arith, p)))
        (λ t. elim (Bool-cases (check a.certificate)) [
          | inl right ↦ sub (ground (arith, right))
          | inr wrong ↦ old (ground (arith, wrong, t))
        ])
        h

  -- Over further candidates, once every anchor was tried.
  search-further :
      (us : List Anchor) (c : Search)
      → ((f : String) → has_fingerprint f known ≡ true → is_seen f c ≡ true)
      → (search check known us c).trusted ≡ true
      → c.trusted ≡ true
  unfolding search try_anchor
  search-further [] c tried h = h
  search-further (a ∷ us) c tried h =
      let before =
        search-further us (try_anchor check known a c) (λ f k. try_anchor-seen f a c (tried f k))
          h in
      ground (arith, before, tried a.fingerprint)

  -- A certificate is taken for trusted only if one of the anchors passes the check: roots that came with
  -- the request do not count.
  pub search-passes :
      (found : List Anchor)
      → (search check known (known ++ found) no_search).trusted ≡ true
      → passes check known ≡ true
  search-passes found h =
      let end = search check known known no_search in
      let split : (search check known found end).trusted ≡ true =
        rw⁻¹ (search-append known found no_search) h in
      search-known known no_search (λ p. p) (λ t. absurd (ground (arith, t)))
        (search-further found end (λ f k. search-covers f known no_search k) split)
