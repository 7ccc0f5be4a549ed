-- ===== src/Grants/Tests.antt =====
-- The theorems on grants at a small table.
use mqtt_trust_gateway.Base.{
  ℕ, ◌≤◌, ◌<◌, String, ◌≡◌, ◌↔◌, refl, true, some, [], ◌∷◌, codes, length, lookup, Distinct, arith,
}
use mqtt_trust_gateway.Grants.{Identity, Grant, Grants, allows, grant_for}
use mqtt_trust_gateway.Grants.Laws.{IsFor, allows_iff}
use mqtt_trust_gateway.Grants.Bounds.{issues, asks, revokes_user, run, IsBounded, run-IsBounded}

abbrev plain : String → String
plain s = s

abbrev ana : Identity
ana = record { user_id = "ana"; session_id = "s1"; scope = "mqtt" }

abbrev token : String
token = "t2"

abbrev ends : ℕ
ends = 9000

abbrev table : Grants
table = ("t1", grant_for ana 5000) ∷ []

table-Distinct : Distinct table
unfolding lookup
table-Distinct = (refl, tt)

allows_iff_example : ((allows plain 1000 (some "t1") ana table).0 ≡ true) ↔ (
    (length (codes "t1") ≤ 128)
    × (g : Grant) × (lookup "t1" table ≡ some g)
    × (1000 < g.expires_at)
    × IsFor ana g)
allows_iff_example = allows_iff plain 1000 "t1" ana table table-Distinct

run-IsBounded_example : IsBounded (
    run plain
      ((1000, issues "t2" ana (some 9000) 60000)
        ∷ (2000, asks (some "t1") ana)
        ∷ (3000, revokes_user "ana")
        ∷ [])
      table)
run-IsBounded_example =
    run-IsBounded plain
      ((1000, issues "t2" ana (some 9000) 60000)
        ∷ (2000, asks (some "t1") ana)
        ∷ (3000, revokes_user "ana")
        ∷ [])
      table (record { distinct = table-Distinct; size = omega arith })
