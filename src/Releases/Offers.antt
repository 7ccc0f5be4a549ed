-- ===== src/Releases/Offers.antt =====
-- What stands behind a release that `verifyCandidate` offers, from the cache or not.
use mqtt_trust_gateway.Base.{
  ℕ, ◌≡◌, ◌∙◌, ◌⊎◌, inl, inr, refl, ap, true, ◌&&◌, Option, none, some, List, [], ◌∷◌, String, ltb,
  ◌===◌, All, Option-cases, Bool-cases, arith,
}
use mqtt_trust_gateway.Releases.{same_codes}
use mqtt_trust_gateway.Releases.Choice.{Manifest}
use mqtt_trust_gateway.Releases.Signing.{
  Signing, Shown, pinned_update_key, apply_verified_manifest, verify_fresh,
}
use mqtt_trust_gateway.Releases.Cache.{
  Reported, Entry, Call, get_entry, set_entry, shown_offline, verify_candidate, cache_after,
}
use mqtt_trust_gateway.Releases.Trusted.{
  Vetted, Fits, same_codes_ok, apply_verified_manifest-Fits, verify_fresh-Vetted,
  verify_fresh-installable, pinned_update_key-eq-some,
}

-- The call is one of them.
abbrev pub IsAmong : Call → List Call → Type 0
IsAmong y [] = ⊥
IsAmong y (x ∷ xs) = (y ≡ x) ⊎ IsAmong y xs

All-IsAmong : (xs : List Call) → All (λ (y : Call). IsAmong y xs) xs
All-IsAmong [] = tt
All-IsAmong (x ∷ xs) = (inl refl, later xs (All-IsAmong xs))
  where
    later :
        (ys : List Call)
        → All (λ (y : Call). IsAmong y xs) ys
        → All (λ (y : Call). IsAmong y (x ∷ xs)) ys
    later [] h = tt
    later (y ∷ ys) (here, hs) = (inr here, later ys hs)

module _ (k : Signing) (h : Reported) (pinned : Option (List ℕ)) (calls : List Call) where
  -- One of the calls was for the version, asked the network, and got a manifest that passed.
  abbrev pub IsVetted : (version : List ℕ) → Manifest → Type 0
  IsVetted version m =
      (y : Call) × IsAmong y calls
      × (y.allow_network ≡ true)
      × (y.version ≡ version)
      × Vetted k pinned y.assets version m

  -- Such a manifest fits what the report says.
  abbrev pub IsOffered : (version : List ℕ) → (report : String) → Type 0
  IsOffered version report =
      (m : Manifest) × IsVetted version m × Fits m (h.installed report) (h.controller report)

  record IsSound (e : Entry) : Type 0 where
    vetted : (m : Manifest) → e.verified_manifest ≡ some m → IsVetted e.version m
    offered : e.value.installable ≡ true → IsOffered e.version e.installed_key

  get_entry-IsSound :
      (version : List ℕ) (es : List Entry) (e : Entry)
      → All IsSound es
      → get_entry version es ≡ some e
      → IsSound e × (e.version ≡ version)
  unfolding get_entry
  get_entry-IsSound version [] e sound h = absurd (cc h)
  get_entry-IsSound version (f ∷ fs) e sound h = elim (Bool-cases (same_codes f.version version)) [
    | inl same ↦
        let is_first : f ≡ e = ground (arith, same, h) in
        rw⁻¹ is_first (sound.0, same_codes_ok f.version version same)
    | inr other ↦ get_entry-IsSound version fs e sound.1 (ground (arith, other, h))
  ]

  set_entry-IsSound :
      (e : Entry) (es : List Entry) → IsSound e → All IsSound es → All IsSound (set_entry e es)
  unfolding set_entry
  set_entry-IsSound e [] new sound = (new, tt)
  set_entry-IsSound e (f ∷ fs) new sound = elim (Bool-cases (same_codes f.version e.version)) [
    | inl same ↦ rw same (new, sound.1)
    | inr other ↦ rw other (sound.0, set_entry-IsSound e fs new sound.1)
  ]

  module _ (x : Call) (among : IsAmong x calls) (cache : List Entry)
      (sound : All IsSound cache) where
    -- What is shown without the network rests on an entry.
    shown_offline-IsOffered :
        (shown : Shown)
        → shown_offline h x (get_entry x.version cache) ≡ some shown
        → shown.installable ≡ true
        → IsOffered x.version x.installed_key
    unfolding shown_offline
    shown_offline-IsOffered shown e b = elim (Option-cases (get_entry x.version cache)) [
      | inl missing ↦ absurd (ground (arith, missing, e, b))
      | inr (f, got) ↦
          let (kept, same) = get_entry-IsSound x.version cache f sound got in
          elim (Bool-cases (ltb x.now f.expires_at && (f.installed_key === x.installed_key))) [
            | inl current ↦
                let is_value : f.value ≡ shown = ground (arith, got, current, e) in
                let is_report : f.installed_key ≡ x.installed_key = ground (arith, current) in
                rw⁻¹ (same, is_report)
                  (kept.offered (ap (λ (s : Shown). s.installable) is_value ∙ b))
            | inr stale ↦ elim (Bool-cases x.allow_network) [
              | inl asks ↦ absurd (ground (arith, got, stale, asks, e))
              | inr silent ↦ elim (Option-cases f.verified_manifest) [
                | inl unknown ↦ absurd (ground (arith, got, stale, silent, unknown, e, b))
                | inr (m, known) ↦
                    let is_applied : apply_verified_manifest m (h.installed x.installed_key)
                          (h.controller x.installed_key)
                        ≡ shown =
                      ground (arith, got, stale, silent, known, e) in
                    (
                      m,
                      rw⁻¹ same (kept.vetted m known),
                      apply_verified_manifest-Fits m (h.installed x.installed_key)
                          (h.controller x.installed_key)
                          (ap (λ (s : Shown). s.installable) is_applied ∙ b),
                    )
              ]
            ]
          ]
    ]

    shown_offline-network :
        shown_offline h x (get_entry x.version cache) ≡ none → x.allow_network ≡ true
    unfolding shown_offline
    shown_offline-network e = elim (Option-cases (get_entry x.version cache)) [
      | inl missing ↦ ground (arith, missing, e)
      | inr (f, got) ↦ elim (Option-cases f.verified_manifest) [
        | inl unknown ↦ ground (arith, got, unknown, e)
        | inr (m, known) ↦ ground (arith, got, known, e)
      ]
    ]

    module _ (asked : shown_offline h x (get_entry x.version cache) ≡ none) where
      verify_fresh-IsVetted :
          (m : Manifest)
          → (verify_fresh k pinned x.assets x.version
              (h.installed x.installed_key)
              (h.controller x.installed_key)).1
            ≡ some m
          → IsVetted x.version m
      verify_fresh-IsVetted m known = (
        x,
        among,
        shown_offline-network asked,
        refl,
        verify_fresh-Vetted k pinned x.assets x.version (h.installed x.installed_key)
            (h.controller x.installed_key) m known,
      )

      verify_fresh-IsOffered :
          (verify_fresh k pinned x.assets x.version
              (h.installed x.installed_key)
              (h.controller x.installed_key)).0.installable
            ≡ true
          → IsOffered x.version x.installed_key
      verify_fresh-IsOffered b =
          let (m, known, fits) =
            verify_fresh-installable k pinned x.assets x.version (h.installed x.installed_key)
              (h.controller x.installed_key) b in
          (m, verify_fresh-IsVetted m known, fits)

    verify_candidate-IsOffered :
        (verify_candidate k h pinned x cache).0.installable ≡ true
        → IsOffered x.version x.installed_key
    unfolding verify_candidate
    verify_candidate-IsOffered b = elim (Bool-cases x.signed_manifest_published) [
      | inr unsigned ↦ absurd (ground (arith, unsigned, b))
      | inl signed ↦ elim (Option-cases (shown_offline h x (get_entry x.version cache))) [
        | inl asked ↦ verify_fresh-IsOffered asked (ground (arith, signed, asked, b))
        | inr (shown, e) ↦ shown_offline-IsOffered shown e (ground (arith, signed, e, b))
      ]
    ]

    verify_candidate-IsSound : All IsSound (verify_candidate k h pinned x cache).1
    unfolding verify_candidate
    verify_candidate-IsSound = elim (Bool-cases x.signed_manifest_published) [
      | inr unsigned ↦ rw unsigned sound
      | inl signed ↦ elim (Option-cases (shown_offline h x (get_entry x.version cache))) [
        | inr (shown, e) ↦ rw (e, signed) sound
        | inl asked ↦
            rw (asked, signed)
              (set_entry-IsSound _ cache
                (record {
                  vetted = verify_fresh-IsVetted asked;
                  offered = verify_fresh-IsOffered asked;
                })
                sound)
      ]
    ]

  cache_after-IsSound :
      (xs : List Call) (cache : List Entry)
      → All (λ (x : Call). IsAmong x calls) xs
      → All IsSound cache
      → All IsSound (cache_after k h pinned xs cache)
  unfolding cache_after
  cache_after-IsSound [] cache among sound = sound
  cache_after-IsSound (x ∷ xs) cache (here, among) sound =
      cache_after-IsSound xs (verify_candidate k h pinned x cache).1 among
        (verify_candidate-IsSound x here cache sound)

-- After any calls from an empty cache, a release is offered for installation, from the cache or not,
-- only where the key of the environment is one of Ed25519 and is the pinned key; a call for the version,
-- one of these or the present one, asked the network and got a manifest and a signature of 64 bytes
-- that this key verifies; the manifest has at most 256,000 bytes and parses to the version of the
-- release, its channel, a schema version from 1 up that agrees with its migration, and the two images
-- of the gateway by a digest of 64 digits; and nothing that the gateway reports now speaks against it,
-- with its updater ready.
pub verify_candidate_ok :
    (k : Signing) (h : Reported) (encoded : List ℕ) (past : List Call) (x : Call)
    → (verify_candidate k h
        (pinned_update_key k encoded)
        x
        (cache_after k h (pinned_update_key k encoded) past [])).0.installable
      ≡ true
    → (pinned_update_key k encoded ≡ some encoded)
      × (k.create_key encoded ≡ some "ed25519")
      × IsOffered k h (pinned_update_key k encoded) (x ∷ past) x.version x.installed_key
verify_candidate_ok k h encoded past x b =
    let pinned = pinned_update_key k encoded in
    let among = All-IsAmong (x ∷ past) in
    let offered =
      verify_candidate-IsOffered k h pinned (x ∷ past) x among.0 (cache_after k h pinned past [])
        (cache_after-IsSound k h pinned (x ∷ past) past [] among.1 tt) b in
    let (m, (y, _, _, _, (manifest, signature, got, v, same, signed, described)), fits) = offered in
    let (is_encoded, type) = pinned_update_key-eq-some k encoded signed.key signed.is_key in
    (signed.is_key ∙ ap some is_encoded, type, offered)
