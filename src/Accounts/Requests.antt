-- ===== src/Accounts/Requests.antt =====
-- The account routes that change the state, and a run of them.
use mqtt_trust_gateway.Base.{String, List, [], ◌∷◌, Result, ok}
use mqtt_trust_gateway.Reauth.{Proof}
use mqtt_trust_gateway.Sessions.{logout}
use mqtt_trust_gateway.Accounts.{Server, Packages, Visit, require_auth}
use mqtt_trust_gateway.Accounts.SignIn.{bootstrap, login_password, login_options, login_verify}
use mqtt_trust_gateway.Accounts.Codes.{change_password, totp_options, totp_verify, totp_delete}
use mqtt_trust_gateway.Accounts.Passkeys.{
  reauth_options, passkeys_options, passkeys_verify, passkeys_delete,
}

pub data Request : Type 0 where
  set_up : (setup_token username given : String) → Request
  sign_in : (username given code : String) → Request
  ask_sign_in : (username : String) → Request
  sign_in_passkey : (username id response : String) → Request
  sign_out : Request
  new_password : (given : String) → Proof → Request
  ask_codes : Proof → Request
  confirm_codes : (code : String) → Request
  drop_codes : Proof → Request
  ask_proof : (action target : String) → Request
  ask_passkey : Proof → Request
  add_passkey : (id response name : String) → Request
  drop_passkey : (id : String) → Proof → Request

-- POST /api/logout
unfoldable pub sign_out_route : Visit → Server → Result (Unit {0}) × Server
sign_out_route x s =
    require_auth x
      (λ u s.
        let left = logout x.session_key (s.grants, s.db) in
        (ok tt, record s { grants = left.0; db = left.1 }))
      s

unfoldable pub handle : Packages → Visit → Request → Server → Server
handle k x (set_up token username given) s = (bootstrap k x token username given s).1
handle k x (sign_in username given code) s = (login_password k x username given code s).1
handle k x (ask_sign_in username) s = (login_options x username s).1
handle k x (sign_in_passkey username id response) s = (login_verify k x username id response s).1
handle k x sign_out s = (sign_out_route x s).1
handle k x (new_password given proof) s = (change_password k x given proof s).1
handle k x (ask_codes proof) s = (totp_options k x proof s).1
handle k x (confirm_codes code) s = (totp_verify k x code s).1
handle k x (drop_codes proof) s = (totp_delete k x proof s).1
handle k x (ask_proof action target) s = (reauth_options k x action target s).1
handle k x (ask_passkey proof) s = (passkeys_options k x proof s).1
handle k x (add_passkey id response name) s = (passkeys_verify k x id response name s).1
handle k x (drop_passkey id proof) s = (passkeys_delete k x id proof s).1

unfoldable pub run : Packages → List (Visit × Request) → Server → Server
run k [] s = s
run k ((x, r) ∷ rs) s = run k rs (handle k x r s)
