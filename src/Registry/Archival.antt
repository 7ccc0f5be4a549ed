-- ===== src/Registry/Archival.antt =====
-- Archiving a device takes its access and its certificates away, whatever OpenSSL answers.
use mqtt_trust_gateway.Base.{
  ℕ, ◌+◌, String, Bool, ◌≡◌, refl, true, false, ◌&&◌, none, some, List, [], ◌∷◌, map, ◌===◌, any,
  modify, All, Bool-cases, Option-cases, inl, inr, arith,
}
use mqtt_trust_gateway.Db.{Device, DeviceStatus, Certificate}
use mqtt_trust_gateway.Broker.{
  Gateway, Context, is_active, is_active_certificate, stage_broker, log_action,
}
use mqtt_trust_gateway.Broker.Staging.{stage_broker-db, stage_broker-crl}
use mqtt_trust_gateway.Registry.{
  Openssl, thrown, device_record, archive_device_record, archive_retention_ms,
}
use mqtt_trust_gateway.Registry.Routes.{
  archive_device, archived_db, finish_archive, revoke_archived, block_archived, to_revoke,
}
use mqtt_trust_gateway.Registry.Invariant.{IsWellFormed, DistinctIds, has_id, found_ok}
use mqtt_trust_gateway.Registry.Access.{enabled_in}

-- The certificate is no active one of the device.
abbrev pub IsIdle : String → Certificate → Type 0
IsIdle id c = ((c.device_id === id) && is_active_certificate c.status) ≡ false

blocked-IsIdle :
    (now : ℕ) (id : String) (cs : List Certificate)
    → All (IsIdle id) (map (block_archived now id) cs)
blocked-IsIdle now id [] = tt
blocked-IsIdle now id (c ∷ cs) = (ground arith, blocked-IsIdle now id cs)

revoked-IsIdle :
    (ssl : Openssl) (id : String) (cs : List Certificate) (crl : List String)
    → All (IsIdle id) cs
    → All (IsIdle id) (revoke_archived ssl id cs crl).certificates
unfolding revoke_archived
revoked-IsIdle ssl id [] crl h = tt
revoked-IsIdle ssl id (c ∷ cs) crl h = elim (Bool-cases (to_revoke id c)) [
  | inr skip ↦ rw (skip, revoke_archived) (h.0, revoked-IsIdle ssl id cs crl h.1)
  | inl due ↦ elim (Option-cases (ssl crl c)) [
    | inl refused ↦ rw (due, refused, revoke_archived) h
    | inr (l, e) ↦ rw (due, e, revoke_archived) (ground arith, revoked-IsIdle ssl id cs l h.1)
  ]
]

absent-enabled_in :
    (id : String) (ds : List Device) → has_id id ds ≡ false → enabled_in id ds ≡ false
absent-enabled_in id [] h = refl
absent-enabled_in id (d ∷ ds) h = ground (arith, absent-enabled_in id ds)

-- The device that stood under the identifier is replaced by one without access.
replaced-enabled_in :
    (id : String) (d' : Device) (ds : List Device)
    → d'.enabled ≡ false
    → DistinctIds ds
    → enabled_in id (modify (λ (d : Device). d.id === id) (λ _. d') ds) ≡ false
replaced-enabled_in id d' [] low h = refl
replaced-enabled_in id d' (d ∷ ds) low h =
    ground (arith, replaced-enabled_in id d' ds low h.1, absent-enabled_in id ds)

-- The revocation list holds the serial number.
abbrev pub is_listed : String → List String → Bool
is_listed serial crl = any (λ (s : String). s === serial) crl

-- A certificate that an earlier archive of the device blocked and revoked.
abbrev pub revoked_earlier : (id : String) → List String → Certificate → Bool
revoked_earlier id crl c = to_revoke id c && is_listed c.serial crl

module _ (x : Context) (ssl : Openssl) (id : String) where
  finish_archive-secures :
      (staged : Gateway)
      → enabled_in id staged.db.devices ≡ false
      → All (IsIdle id) staged.db.certificates
      → (enabled_in id (finish_archive x ssl id staged).1.db.devices ≡ false)
        × All (IsIdle id) (finish_archive x ssl id staged).1.db.certificates
  unfolding finish_archive log_action
  finish_archive-secures staged off idle =
      let r = revoke_archived ssl id staged.db.certificates staged.crl in
      let v = revoked-IsIdle ssl id staged.db.certificates staged.crl idle in
      let saved : Gateway = record staged {
        db = record (staged.db) { certificates = r.certificates };
        crl = r.crl;
      } in
      elim (Bool-cases r.finished) [
        | inl all ↦ rw (all, finish_archive, stage_broker-db x true (x.uuid 1) saved) (off, v)
        | inr part ↦ rw (part, finish_archive) (off, v)
      ]

  -- Archiving an active device, confirmed by its identifier, leaves it without access and without an
  -- active certificate, also where OpenSSL refuses a revocation and the route answers with an error.
  pub archive_device-secures :
      (g : Gateway) (d : Device)
      → IsWellFormed g.db
      → device_record g.db id ≡ some d
      → is_active d.status ≡ true
      → (enabled_in id (archive_device x ssl id id g).1.db.devices ≡ false)
        × All (IsIdle id) (archive_device x ssl id id g).1.db.certificates
  unfolding archive_device archive_device_record
  archive_device-secures g d w e active =
      let d' : Device = record d {
        status = DeviceStatus.archived;
        enabled = false;
        trusted = false;
        archived_at = some x.now;
        scheduled_deletion_at = some (x.now + archive_retention_ms);
      } in
      let saved : Gateway = record g { db = archived_db x.now id d' g.db } in
      let staged = stage_broker x true (x.uuid 0) saved in
      let (_, here) = found_ok g.db id d w e in
      let off : enabled_in id staged.db.devices ≡ false =
        rw (stage_broker-db x true (x.uuid 0) saved)
          (replaced-enabled_in id d' g.db.devices refl w.distinct) in
      let idle : All (IsIdle id) staged.db.certificates =
        rw (stage_broker-db x true (x.uuid 0) saved) (blocked-IsIdle x.now id g.db.certificates) in
      ground (arith, e, here, active, finish_archive-secures staged off idle)

  blocked-due :
      (now : ℕ) (crl : List String) (cs : List Certificate)
      → any (revoked_earlier id crl) cs ≡ true
      → any (revoked_earlier id crl) (map (block_archived now id) cs) ≡ true
  blocked-due now crl [] h = h
  blocked-due now crl (c ∷ cs) h = ground (arith, h, blocked-due now crl cs)

  -- `openssl ca -revoke` refuses a certificate that is revoked already, and takes none off the list.
  module _
      (refuses : (l : List String) (c : Certificate) → is_listed c.serial l ≡ true → ssl l c ≡ none)
      (keeps : (l l' : List String) (c : Certificate) (serial : String)
        → ssl l c ≡ some l'
        → is_listed serial l ≡ true
        → is_listed serial l' ≡ true) where
    kept_earlier :
        (l l' : List String) (c : Certificate) (cs : List Certificate)
        → ssl l c ≡ some l'
        → any (revoked_earlier id l) cs ≡ true
        → any (revoked_earlier id l') cs ≡ true
    kept_earlier l l' c [] e h = h
    kept_earlier l l' c (d ∷ ds) e h =
        ground (arith, h, keeps l l' c d.serial e, kept_earlier l l' c ds e)

    revoked_before :
        (cs : List Certificate) (crl : List String)
        → any (revoked_earlier id crl) cs ≡ true
        → (revoke_archived ssl id cs crl).finished ≡ false
    unfolding revoke_archived
    revoked_before [] crl h = cc
    revoked_before (c ∷ cs) crl h = elim (Bool-cases (to_revoke id c)) [
      | inr skip ↦ ground (arith, skip, h, revoked_before cs crl)
      | inl due ↦ elim (Option-cases (ssl crl c)) [
        | inl refused ↦ ground (arith, due, refused)
        | inr (l, e) ↦ elim (Bool-cases (is_listed c.serial crl)) [
          | inl listed ↦ absurd (ground (arith, e, refuses crl c listed))
          | inr fresh ↦
              let rest : any (revoked_earlier id crl) cs ≡ true = ground (arith, due, fresh, h) in
              ground (arith, due, e, revoked_before cs l (kept_earlier crl l c cs e rest))
        ]
      ]
    ]

    -- Where OpenSSL refuses to revoke a certificate twice and takes none off the list, archiving an
    -- active device answers with the error 500 if one of its internal certificates was blocked and
    -- revoked by an earlier archive.
    pub archive_device-again :
        (g : Gateway) (d : Device)
        → IsWellFormed g.db
        → device_record g.db id ≡ some d
        → is_active d.status ≡ true
        → any (revoked_earlier id g.crl) g.db.certificates ≡ true
        → (archive_device x ssl id id g).0 ≡ thrown 500 "revocation failed"
    unfolding archive_device archive_device_record finish_archive
    archive_device-again g d w e active due =
        let d' : Device = record d {
          status = DeviceStatus.archived;
          enabled = false;
          trusted = false;
          archived_at = some x.now;
          scheduled_deletion_at = some (x.now + archive_retention_ms);
        } in
        let saved : Gateway = record g { db = archived_db x.now id d' g.db } in
        let staged = stage_broker x true (x.uuid 0) saved in
        let (_, here) = found_ok g.db id d w e in
        let still : any (revoked_earlier id staged.crl) staged.db.certificates ≡ true =
          rw (stage_broker-db x true (x.uuid 0) saved, stage_broker-crl x true (x.uuid 0) saved)
            (blocked-due x.now g.crl g.db.certificates due) in
        ground (arith, e, here, active, revoked_before staged.db.certificates staged.crl still)
