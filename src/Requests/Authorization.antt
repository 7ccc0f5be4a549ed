-- ===== src/Requests/Authorization.antt =====
-- No request but an authorization gives a device access, over single requests and histories.
use mqtt_trust_gateway.Base.{
  ℕ, ◌+◌, String, ◌≡◌, true, false, some, Yields-intro, List, [], ◌∷◌, Bool-cases, inl, inr, All,
  arith,
}
use mqtt_trust_gateway.Db.{Device}
use mqtt_trust_gateway.Broker.{
  Gateway, Context, has_credential, apply_broker_changes, log_action, authorized_devices,
}
use mqtt_trust_gateway.Registry.{Openssl}
use mqtt_trust_gateway.Registry.Invariant.{IsWellFormed, has_id}
use mqtt_trust_gateway.Registry.Routes.{purge, purge_expired_archives, delete_device}
use mqtt_trust_gateway.Registry.Access.{enabled_in, authorized-enabled}
use mqtt_trust_gateway.Certificates.Preservation.{
  sign_certificate-SameTable, renew_certificate-SameTable, cancel_pending-SameTable,
  private_key_once-SameTable, private_key_received-SameTable,
}
use mqtt_trust_gateway.Requests.Access.{
  patch_device-enables, approve_device-enables, create_device-disabled, restore_device-disabled,
  archive_device-disabled, permanently_delete_device-disabled,
}
use mqtt_trust_gateway.Requests.Quiet.{
  Off, SameTable-Off, revoke_route-Off, remove_license-Off, generate_certificate-Off,
  external_csr-Off, ensure_identity-Off,
}
use mqtt_trust_gateway.Certificates.Trust.{
  import_certificate-Kept, trust_ca-SameTable, untrust_ca-SameTable,
}
use mqtt_trust_gateway.Requests.Invariant.{handle-WellFormed}
use mqtt_trust_gateway.Certificates.{text_id}
use mqtt_trust_gateway.Requests.{
  Request, create, patch, archive, restored, approve, delete, purges, sign, renew, generate,
  external, cancel, key_once, key_received, revoke, license, apply, imports, trust, untrust, Tools,
  apply_route, handle, run,
}

-- The request authorizes the device: a `PATCH` that enables it, or its approval.
abbrev pub Authorizes : String → Request → Type 0
Authorizes k (patch id body) = (id ≡ k) × (body.enabled ≡ some true)
Authorizes k (approve id confirm) = id ≡ k
Authorizes k _ = ⊥

purge-Off :
    (x : Context) (ssl : Openssl) (k : String) (i : ℕ) (ds : List Device) (g : Gateway)
    → Off k g.db
    → Off k (purge x ssl i ds g).db
unfolding purge
purge-Off x ssl k i [] g off = off
purge-Off x ssl k i (d ∷ ds) g off =
    purge-Off x ssl k (i + 1) ds _ (
      permanently_delete_device-disabled x g k off ssl (x.uuid i) d.id "system:archive-expiry"
        false)

delete_device-Off :
    (x : Context) (ssl : Openssl) (k id confirm : String) (g : Gateway)
    → Off k g.db
    → Off k (delete_device x ssl id confirm g).1.db
unfolding delete_device
delete_device-Off x ssl k id confirm g off =
    ground (arith, off, permanently_delete_device-disabled x g k off ssl (x.uuid 0) id x.actor true)

-- A device that had no access and has it after a request was authorized by that request, and it has
-- an active, trusted certificate that has not expired.
pub handle-Authorizes :
    (t : Tools) (x : Context) (r : Request) (g : Gateway) (k : String)
    → IsWellFormed g.db
    → enabled_in k g.db.devices ≡ false
    → enabled_in k (handle t x r g).db.devices ≡ true
    → Authorizes k r × (has_credential x.now g.db.certificates k ≡ true)
unfolding handle purge_expired_archives apply_route apply_broker_changes log_action
handle-Authorizes t x (patch id body) g k w off h =
    let (same, asked, usable) = patch_device-enables x g w k off id body h in
    ((same, asked), usable)
handle-Authorizes t x (approve id confirm) g k w off h =
    approve_device-enables x g w k off id confirm h
handle-Authorizes t x (create body) g k w off h = cc (create_device-disabled x g k off body)
handle-Authorizes t x (archive id confirm) g k w off h =
    cc (archive_device-disabled x g k off w t.ssl id confirm)
handle-Authorizes t x (restored id confirm) g k w off h =
    cc (restore_device-disabled x g k off w id)
handle-Authorizes t x (delete id confirm) g k w off h =
    cc (delete_device-Off x t.ssl k id confirm g off)
handle-Authorizes t x purges g k w off h = cc (purge-Off x t.ssl k 0 _ g off)
handle-Authorizes t x (sign body) g k w off h =
    cc (SameTable-Off k g.db _ (sign_certificate-SameTable x g t.pki body) off)
handle-Authorizes t x (renew id body) g k w off h =
    cc (SameTable-Off k g.db _ (renew_certificate-SameTable x g t.pki id body) off)
handle-Authorizes t x (generate pair body) g k w off h =
    cc (generate_certificate-Off x g k off t.pki pair body)
handle-Authorizes t x (external pair body) g k w off h = cc (external_csr-Off x g k off pair body)
handle-Authorizes t x (cancel id) g k w off h =
    cc (SameTable-Off k g.db _ (cancel_pending-SameTable x g id) off)
handle-Authorizes t x (key_once id) g k w off h =
    cc (SameTable-Off k g.db _ (private_key_once-SameTable x g id) off)
handle-Authorizes t x (key_received id) g k w off h =
    cc (SameTable-Off k g.db _ (private_key_received-SameTable x g id) off)
handle-Authorizes t x (revoke id) g k w off h = cc (revoke_route-Off x g k off t.ssl id)
handle-Authorizes t x (license permanent id confirm) g k w off h =
    cc (remove_license-Off x g k off t.ssl permanent id confirm)
handle-Authorizes t x apply g k w off h = ground (arith, off, h)
handle-Authorizes t x (imports body) g k w off h = cc (
    import_certificate-Kept (λ ds ts. enabled_in k ds ≡ false) x t.pki t.reader body g off
      (λ id. Yields-intro _ _ (λ made e.
        ensure_identity-Off x g k off x.now (text_id id) body.name "" {d = made.0} {db' = made.1}
          e)))
handle-Authorizes t x (trust confirm certificate) g k w off h =
    cc (SameTable-Off k g.db _ (trust_ca-SameTable x t.pki t.reader confirm certificate g) off)
handle-Authorizes t x (untrust id) g k w off h =
    cc (SameTable-Off k g.db _ (untrust_ca-SameTable x t.reader id g) off)

-- A device without access stays out of the access list, at every time, through any history in which
-- no request authorizes it.
pub run-unauthorized :
    (t : Tools) (rs : List (Context × Request)) (g : Gateway) (k : String) (now : ℕ)
    → IsWellFormed g.db
    → enabled_in k g.db.devices ≡ false
    → All (λ (c : Context × Request). ¬ Authorizes k c.1) rs
    → has_id k (authorized_devices now (run t rs g).db) ≡ false
unfolding run
run-unauthorized t [] g k now w off h = authorized-enabled now k g.db off
run-unauthorized t ((x, r) ∷ rs) g k now w off h =
    let still : enabled_in k (handle t x r g).db.devices ≡ false =
      elim (Bool-cases (enabled_in k (handle t x r g).db.devices)) [
        | inr e ↦ e
        | inl e ↦ absurd (h.0 (handle-Authorizes t x r g k w off e).0)
      ] in
    run-unauthorized t rs (handle t x r g) k now (handle-WellFormed t x r g w) still h.1
