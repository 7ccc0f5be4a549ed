-- ===== src/Guard/Tests.antt =====
-- The theorem on the guard at one user with one grant.
use mqtt_trust_gateway.Base.{
  String, ◌≡◌, refl, inl, true, none, some, [], ◌∷◌, ◌===◌, if◌then◌else◌, dec_text, lookup, keep,
}
use mqtt_trust_gateway.Db.{Db, User, empty}
use mqtt_trust_gateway.Grants.{Grants, allows}
use mqtt_trust_gateway.Sessions.{current_user}
use mqtt_trust_gateway.Guard.{
  is_ordinary, scope_of, passed, Visitor, identity, require_sensitive, guard_sensitive_api,
}
use mqtt_trust_gateway.Guard.Scopes.{audit_table, guard_sensitive_api_ok}

abbrev plain : String → String
plain s = s

abbrev ana : User
ana = record {
  id = "ana";
  username = "ana";
  password_hash = none;
  credentials = [];
  legacy_credential = none;
  totp = none;
  pending_totp = none;
  sensitive_preferences = none;
  created_at = 0;
}

abbrev db : Db
db = record empty {
  users = ana ∷ [];
  sessions = ("s1", record { user_id = "ana"; expires_at = 9000 }) ∷ [];
}

abbrev grants : Grants
grants =
    ("t1", record { user_id = "ana"; session_id = "s1"; scope = "audit"; expires_at = 5000 }) ∷ []

abbrev visitor : Visitor
visitor = record {
  session_key = "s1";
  reveal_token = λ scope. if scope === "audit" then some "t1" else none;
}

visitor_passes : (guard_sensitive_api plain 1000 visitor "GET" "/audit" (db, grants)).0 ≡ passed
unfolding guard_sensitive_api require_sensitive is_ordinary scope_of current_user allows lookup keep
    dec_text
visitor_passes = refl

guard_sensitive_api_ok_example :
    (u : User) × (current_user 1000 "s1" db ≡ some u)
    × ((allows plain 1000 (visitor.reveal_token "audit") (identity u visitor "audit") grants).0
        ≡ true)
guard_sensitive_api_ok_example =
    guard_sensitive_api_ok plain 1000 visitor "GET" "/audit" "audit" db grants
      (audit_table (inl refl)) visitor_passes
