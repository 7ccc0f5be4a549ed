-- ===== src/Requests/Invariant.antt =====
-- The device table stays well formed through every history of requests.
use mqtt_trust_gateway.Base.{List, [], ◌∷◌, arith}
use mqtt_trust_gateway.Broker.{Gateway, Context, log_action, apply_broker_changes}
use mqtt_trust_gateway.Registry.Invariant.{WellFormed, IsWellFormed}
use mqtt_trust_gateway.Registry.Removal.{purge_expired_archives-WellFormed}
use mqtt_trust_gateway.Registry.Preservation.{
  create_device-WellFormed, patch_device-WellFormed, archive_device-WellFormed,
  restore_device-WellFormed, approve_device-WellFormed, delete_device-WellFormed,
}
use mqtt_trust_gateway.Certificates.Preservation.{
  SameTable-WellFormed, sign_certificate-SameTable, renew_certificate-SameTable,
  cancel_pending-SameTable, private_key_once-SameTable, private_key_received-SameTable,
  generate_certificate-WellFormed, external_csr-WellFormed, revoke_route-WellFormed,
  remove_license-WellFormed,
}
use mqtt_trust_gateway.Certificates.Trust.{
  import_certificate-Kept, trust_ca-SameTable, untrust_ca-SameTable,
}
use mqtt_trust_gateway.Certificates.Identities.{ensure_identity-Ensured}
use mqtt_trust_gateway.Certificates.{text_id}
use mqtt_trust_gateway.Requests.{
  Request, create, patch, archive, restored, approve, delete, purges, sign, renew, generate,
  external, cancel, key_once, key_received, revoke, license, apply, imports, trust, untrust, Tools,
  apply_route, handle, run,
}

apply_route-WellFormed :
    (x : Context) (g : Gateway) → IsWellFormed g.db → IsWellFormed (apply_route x g).db
unfolding apply_route apply_broker_changes log_action
apply_route-WellFormed x g w = ground (arith, w)

pub handle-WellFormed :
    (t : Tools) (x : Context) (r : Request) (g : Gateway)
    → IsWellFormed g.db
    → IsWellFormed (handle t x r g).db
unfolding handle
handle-WellFormed t x (create body) g w = create_device-WellFormed x g w body
handle-WellFormed t x (patch id body) g w = patch_device-WellFormed x g w id body
handle-WellFormed t x (archive id confirm) g w = archive_device-WellFormed x g w t.ssl id confirm
handle-WellFormed t x (restored id confirm) g w = restore_device-WellFormed x g w id
handle-WellFormed t x (approve id confirm) g w = approve_device-WellFormed x g w id confirm
handle-WellFormed t x (delete id confirm) g w = delete_device-WellFormed x g w t.ssl id confirm
handle-WellFormed t x purges g w = purge_expired_archives-WellFormed x t.ssl g w
handle-WellFormed t x (sign body) g w =
    SameTable-WellFormed g.db _ (sign_certificate-SameTable x g t.pki body) w
handle-WellFormed t x (renew id body) g w =
    SameTable-WellFormed g.db _ (renew_certificate-SameTable x g t.pki id body) w
handle-WellFormed t x (generate pair body) g w =
    generate_certificate-WellFormed x g t.pki pair body w
handle-WellFormed t x (external pair body) g w = external_csr-WellFormed x g pair body w
handle-WellFormed t x (cancel id) g w =
    SameTable-WellFormed g.db _ (cancel_pending-SameTable x g id) w
handle-WellFormed t x (key_once id) g w =
    SameTable-WellFormed g.db _ (private_key_once-SameTable x g id) w
handle-WellFormed t x (key_received id) g w =
    SameTable-WellFormed g.db _ (private_key_received-SameTable x g id) w
handle-WellFormed t x (revoke id) g w = revoke_route-WellFormed x g t.ssl id w
handle-WellFormed t x (license permanent id confirm) g w =
    remove_license-WellFormed x g t.ssl permanent id confirm w
handle-WellFormed t x apply g w = apply_route-WellFormed x g w
handle-WellFormed t x (imports body) g w =
    import_certificate-Kept WellFormed x t.pki t.reader body g w
      (λ id. ensure_identity-Ensured x.now (text_id id) body.name "" g.db w)
handle-WellFormed t x (trust confirm certificate) g w =
    SameTable-WellFormed g.db _ (trust_ca-SameTable x t.pki t.reader confirm certificate g) w
handle-WellFormed t x (untrust id) g w =
    SameTable-WellFormed g.db _ (untrust_ca-SameTable x t.reader id g) w

-- After any history of requests, handled one after the other, that starts from a well-formed table of
-- the devices whose identifier is a text, no text is registered twice, none that has a tombstone is
-- registered, every one is allowed, only active devices are enabled, and a device is trusted exactly
-- when it is enabled.
pub run-WellFormed :
    (t : Tools) (rs : List (Context × Request)) (g : Gateway)
    → IsWellFormed g.db
    → IsWellFormed (run t rs g).db
unfolding run
run-WellFormed t [] g w = w
run-WellFormed t ((x, r) ∷ rs) g w =
    run-WellFormed t rs (handle t x r g) (handle-WellFormed t x r g w)
