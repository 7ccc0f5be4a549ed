-- ===== src/Guard/Scopes.antt =====
-- Who gets past the guard.
use mqtt_trust_gateway.Base.{
  ℕ, String, ◌≡◌, refl, ◌⊎◌, true, false, ◌&&◌, some, List, [], ◌∷◌, ◌++◌, ◌===◌, codes,
  Option-cases, Bool-cases, inl, inr, arith,
}
use mqtt_trust_gateway.Db.{Db, User}
use mqtt_trust_gateway.Grants.{Grants, allows}
use mqtt_trust_gateway.Sessions.{current_user}
use mqtt_trust_gateway.Guard.{
  below, is_below, is_ordinary, scope_of, passed, Visitor, identity, require_sensitive,
  guard_sensitive_api,
}

-- A path that is `prefix`, or goes on below it.
abbrev pub IsUnder : (prefix path : String) → Type 0
IsUnder prefix path =
    (codes path ≡ codes prefix) ⊎ ((rest : List ℕ) × (codes path ≡ codes prefix ++ b'/' ∷ rest))

-- The paths that are sensitive, with their scope: the audit table and the logs; what is read of the
-- messages, but for the history and the stream; the certificates, but for the public authority and the
-- list that is read; and the authorities that are trusted, but for the list that is read.
pub data IsSensitive : (method path scope : String) → Type 0 where
  audit_table : {method path : String} → IsUnder "/audit" path → IsSensitive method path "audit"
  log_lines : {method path : String} → IsUnder "/logs" path → IsSensitive method path "audit"
  message_read :
      {method path : String}
      → IsUnder "/mqtt" path
      → (method === "GET") ≡ true
      → ("/mqtt/history" === path) ≡ false
      → ("/mqtt/events" === path) ≡ false
      → IsSensitive method path "mqtt"
  certificate :
      {method path : String}
      → IsUnder "/certificates" path
      → (path === "/certificates/ca") ≡ false
      → ((method === "GET") && ("/certificates" === path)) ≡ false
      → IsSensitive method path "devices"
  authority :
      {method path : String}
      → IsUnder "/trusted-cas" path
      → ((method === "GET") && ("/trusted-cas" === path)) ≡ false
      → IsSensitive method path "devices"

below_self : (p : List ℕ) → below p p ≡ true
below_self [] = refl
below_self (c ∷ cs) = ground (arith, below_self cs)

below_more : (p rest : List ℕ) → below p (p ++ b'/' ∷ rest) ≡ true
below_more [] rest = refl
below_more (c ∷ cs) rest = ground (arith, below_more cs rest)

IsUnder-is_below : (prefix path : String) → IsUnder prefix path → is_below prefix path ≡ true
IsUnder-is_below prefix path (inl e) = rw e (below_self (codes prefix))
IsUnder-is_below prefix path (inr (rest, e)) = rw e (below_more (codes prefix) rest)

-- A path below one prefix is not a text that is outside of it.
is_below-other :
    (prefix text path : String)
    → is_below prefix path ≡ true
    → is_below prefix text ≡ false
    → (text === path) ≡ false
is_below-other prefix text path here outside = elim (Bool-cases (text === path)) [
  | inr other ↦ other
  | inl same ↦
      let is_text : text ≡ path = ground (arith, same) in absurd (cc (is_text, here, outside))
]

-- Two prefixes of which none goes on the other.
apart :
    (prefix away path : String)
    → below (codes away) (codes prefix) ≡ false
    → ((rest : List ℕ) → below (codes away) (codes prefix ++ b'/' ∷ rest) ≡ false)
    → IsUnder prefix path
    → is_below away path ≡ false
apart prefix away path h more (inl e) = rw e h
apart prefix away path h more (inr (rest, e)) = rw e (more rest)

-- The guard asks for the scope.
abbrev Asks : (method path scope : String) → Type 0
Asks method path scope = (is_ordinary method path ≡ false) × (scope_of method path ≡ some scope)

module _ (method path : String) where
  audit-Asks : IsUnder "/audit" path → Asks method path "audit"
  unfolding is_ordinary scope_of
  audit-Asks u =
      let here = IsUnder-is_below "/audit" path u in
      let others = is_below-other "/audit" in
      ground (
        arith,
        here,
        apart "/audit" "/devices" path refl (λ _. refl) u,
        others "/certificates" path here refl,
        others "/trusted-cas" path here refl,
        others "/mqtt/history" path here refl,
        others "/mqtt/events" path here refl,
      )

  logs-Asks : IsUnder "/logs" path → Asks method path "audit"
  unfolding is_ordinary scope_of
  logs-Asks u =
      let here = IsUnder-is_below "/logs" path u in
      let others = is_below-other "/logs" in
      ground (
        arith,
        here,
        apart "/logs" "/devices" path refl (λ _. refl) u,
        others "/certificates" path here refl,
        others "/trusted-cas" path here refl,
        others "/mqtt/history" path here refl,
        others "/mqtt/events" path here refl,
      )

  mqtt-Asks :
      IsUnder "/mqtt" path
      → (method === "GET") ≡ true
      → ("/mqtt/history" === path) ≡ false
      → ("/mqtt/events" === path) ≡ false
      → Asks method path "mqtt"
  unfolding is_ordinary scope_of
  mqtt-Asks u get history events =
      let here = IsUnder-is_below "/mqtt" path u in
      let others = is_below-other "/mqtt" in
      ground (
        arith,
        here,
        get,
        history,
        events,
        apart "/mqtt" "/devices" path refl (λ _. refl) u,
        apart "/mqtt" "/audit" path refl (λ _. refl) u,
        apart "/mqtt" "/logs" path refl (λ _. refl) u,
        others "/certificates" path here refl,
        others "/trusted-cas" path here refl,
      )

  certificates-Asks :
      IsUnder "/certificates" path
      → (path === "/certificates/ca") ≡ false
      → ((method === "GET") && ("/certificates" === path)) ≡ false
      → Asks method path "devices"
  unfolding is_ordinary scope_of
  certificates-Asks u public listed =
      let here = IsUnder-is_below "/certificates" path u in
      let others = is_below-other "/certificates" in
      ground (
        arith,
        here,
        public,
        listed,
        apart "/certificates" "/devices" path refl (λ _. refl) u,
        apart "/certificates" "/audit" path refl (λ _. refl) u,
        apart "/certificates" "/logs" path refl (λ _. refl) u,
        apart "/certificates" "/mqtt" path refl (λ _. refl) u,
        others "/trusted-cas" path here refl,
        others "/mqtt/history" path here refl,
        others "/mqtt/events" path here refl,
      )

  trusted-Asks :
      IsUnder "/trusted-cas" path
      → ((method === "GET") && ("/trusted-cas" === path)) ≡ false
      → Asks method path "devices"
  unfolding is_ordinary scope_of
  trusted-Asks u listed =
      let here = IsUnder-is_below "/trusted-cas" path u in
      let others = is_below-other "/trusted-cas" in
      ground (
        arith,
        here,
        listed,
        apart "/trusted-cas" "/devices" path refl (λ _. refl) u,
        apart "/trusted-cas" "/audit" path refl (λ _. refl) u,
        apart "/trusted-cas" "/logs" path refl (λ _. refl) u,
        apart "/trusted-cas" "/mqtt" path refl (λ _. refl) u,
        others "/certificates" path here refl,
        others "/mqtt/history" path here refl,
        others "/mqtt/events" path here refl,
      )

IsSensitive-Asks :
    (method path scope : String) → IsSensitive method path scope → Asks method path scope
IsSensitive-Asks method path _ (audit_table u) = audit-Asks method path u
IsSensitive-Asks method path _ (log_lines u) = logs-Asks method path u
IsSensitive-Asks method path _ (message_read u get history events) =
    mqtt-Asks method path u get history events
IsSensitive-Asks method path _ (certificate u public listed) =
    certificates-Asks method path u public listed
IsSensitive-Asks method path _ (authority u listed) = trusted-Asks method path u listed

-- A request that passes the guard to a sensitive path is one of a user who is signed in, and carries a
-- token that opens the scope of the path for that user and session.
pub guard_sensitive_api_ok :
    (sha256 : String → String) (now : ℕ) (v : Visitor) (method path scope : String) (db : Db)
    (grants : Grants)
    → IsSensitive method path scope
    → (guard_sensitive_api sha256 now v method path (db, grants)).0 ≡ passed
    → (u : User) × (current_user now v.session_key db ≡ some u)
      × ((allows sha256 now (v.reveal_token scope) (identity u v scope) grants).0 ≡ true)
unfolding guard_sensitive_api require_sensitive
guard_sensitive_api_ok sha256 now v method path scope db grants sensitive h =
    let (special, needs) = IsSensitive-Asks method path scope sensitive in
    elim (Option-cases (current_user now v.session_key db)) [
      | inl nobody ↦ absurd (ground (arith, special, needs, nobody, h))
      | inr (u, known) ↦
          elim (Bool-cases
            (allows sha256 now (v.reveal_token scope) (identity u v scope) grants).0) [
              | inl opens ↦ (u, known, opens)
              | inr shut ↦ absurd (ground (arith, special, needs, known, shut, h))
            ]
    ]
