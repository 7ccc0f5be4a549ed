-- ===== src/Reveal/Shown.antt =====
-- What a reveal has shown.
use mqtt_trust_gateway.Base.{ℕ, String, ◌≡◌, ◌⊎◌, true, false, arith}
use mqtt_trust_gateway.Grants.{allows}
use mqtt_trust_gateway.Guard.{Visitor, identity}
use mqtt_trust_gateway.Reauth.{Checks, Proof, verify_reauthentication}
use mqtt_trust_gateway.Reveal.{Reading, State, revealed, is_scope, requires_authentication, reveal}

-- A scope is revealed only if it is one of the sensitive scopes, and the user asked for no further
-- authentication, or carries a token of an earlier one that still holds, or has just given a proof that
-- passes with a code.
pub reveal_ok :
    (sha256 : String → String) (r : Reading) (v : Visitor) (checks : Checks) (proof : Proof)
    (scope token : String) (expires_at : ℕ) (s : State)
    → (reveal sha256 r v checks proof scope s).0 ≡ revealed token expires_at
    → (is_scope scope ≡ true)
      × ((requires_authentication s.user ≡ false)
          ⊎ (((allows sha256 r.now
                  (v.reveal_token "reveal-auth")
                  (identity s.user v "reveal-auth")
                  s.grants).0
                ≡ true)
              ⊎ ((verify_reauthentication checks r.now true r.challenge_key proof s.user
                    s.challenges).passed
                  ≡ true)))
unfolding reveal
reveal_ok sha256 r v checks proof scope token expires_at s h = ground (arith, h)
