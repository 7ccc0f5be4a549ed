-- ===== src/Migrations/Tests.antt =====
-- The theorems on schema upgrades, at two migrations.
use mqtt_trust_gateway.Base.{ℕ, ◌≡◌, ◌≢◌, refl, some, List, [], ◌∷◌, ok, arith}
use mqtt_trust_gateway.Migrations.{
  Migration, Database, Summary, plan, out_of_fuel, migrate_once, migrate_along, migrate_database,
}
use mqtt_trust_gateway.Migrations.Paths.{plan-fuel, migrate_database_ok}

abbrev registry : List (Migration ℕ)
registry =
    record { id = "0001"; from = 0; to = 1; change = λ n. some n }
    ∷ record { id = "0002"; from = 1; to = 2; change = λ n. some 7 }
    ∷ []

abbrev database : Database ℕ
database = record { user_version = 0; content = 3; log = [] }

abbrev upgraded : Summary
upgraded = record { from = 0; to = 2; applied = "0001" ∷ "0002" ∷ [] }

plan-fuel_example : plan 2 registry 2 0 ≢ out_of_fuel
plan-fuel_example = plan-fuel 50 2 registry database (omega arith)

upgraded_ok : (migrate_database 50 2 registry database).0 ≡ ok upgraded
unfolding migrate_database plan migrate_along migrate_once
upgraded_ok = refl

migrate_database_ok_example :
    ((migrate_database 50 2 registry database).1.user_version ≡ 2) × (upgraded.to ≡ 2)
migrate_database_ok_example = migrate_database_ok 50 2 registry database upgraded upgraded_ok
