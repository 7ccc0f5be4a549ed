-- ===== src/Migrations.antt =====
-- Schema upgrades: admin-web/src/migrations/index.js. A migration's `apply` is a partial change of the
-- content, `none` where it throws; a transaction that fails leaves the database as it was.
pub mod Paths
mod Tests
use mqtt_trust_gateway.Base.{
  ℕ, zero, suc, ◌-◌, String, Bool, true, false, ◌&&◌, ◌||◌, not, Option, none, some, List, [], ◌∷◌,
  ◌++◌, map, max, leb, ltb, ◌==◌, if◌then◌else◌, filter, Result, ok, err,
}

abbrev pub current_schema_version : ℕ
current_schema_version = 1

-- a row of the table `schema_migrations`
pub record Applied : Type 0 where
  pub id : String
  pub from : ℕ
  pub to : ℕ
  pub applied_at : ℕ

module _ (Content : Type 0) where
  pub record Migration : Type 0 where
    pub id : String
    pub from : ℕ
    pub to : ℕ
    pub change : Content → Option Content

  pub record Database : Type 0 where
    pub user_version : ℕ
    pub content : Content
    pub log : List Applied

  pub data Plan : Type 0 where
    path : List Migration → Plan
    ambiguous : Plan
    out_of_fuel : Plan

-- `from`, `to` and `applied` of the result
pub record Summary : Type 0 where
  pub from : ℕ
  pub to : ℕ
  pub applied : List String

module _ {Content : Type 0} where
  abbrev pub steps_from : (cursor target : ℕ) → List (Migration Content) → List (Migration Content)
  steps_from cursor target registry =
      filter (λ (m : Migration Content). m.from == cursor && leb m.to target) registry

  -- `next.length !== 1 || next[0].to <= cursor`
  abbrev pub single : ℕ → List (Migration Content) → Option (Migration Content)
  single cursor [] = none
  single cursor (m ∷ []) = if leb m.to cursor then none else some m
  single cursor (m ∷ n ∷ ms) = none

  abbrev pub before : Migration Content → Plan Content → Plan Content
  before m (path ms) = path (m ∷ ms)
  before m ambiguous = ambiguous
  before m out_of_fuel = out_of_fuel

  -- the `while` loop
  unfoldable pub plan : ℕ → List (Migration Content) → (target cursor : ℕ) → Plan Content
  plan zero registry target cursor = if cursor == target then path [] else out_of_fuel
  plan (suc fuel) registry target cursor =
      if cursor == target
      then path []
      else elim (single cursor (steps_from cursor target registry)) [
        | none ↦ ambiguous
        | some m ↦ before m (plan fuel registry target m.to)
      ]

  abbrev pub committed :
      (now : ℕ) → Migration Content → Content → Database Content → Database Content
  committed now m content db = record {
    user_version = m.to;
    content = content;
    log = db.log ++ record { id = m.id; from = m.from; to = m.to; applied_at = now } ∷ [];
  }

  -- One transaction: `false` where it was rolled back.
  unfoldable pub migrate_once :
      (now : ℕ) → Migration Content → Database Content → Bool × Database Content
  migrate_once now m db =
      if not (db.user_version == m.from) then (false, db) else elim (m.change db.content) [
        | none ↦ (false, db)
        | some content ↦ (true, committed now m content db)
      ]

  -- the `for` loop, which the first failure ends
  unfoldable pub migrate_along :
      (now : ℕ) → List (Migration Content) → Database Content → Bool × Database Content
  migrate_along now [] db = (true, db)
  migrate_along now (m ∷ ms) db =
      let r = migrate_once now m db in
      let rest = migrate_along now ms r.1 in if r.0 then rest else r

  abbrev pub greatest : ℕ → List (Migration Content) → ℕ
  greatest top [] = top
  greatest top (m ∷ ms) = greatest (max top m.to) ms

  abbrev pub first_from : ℕ → List (Migration Content) → ℕ
  first_from current [] = current
  first_from current (m ∷ ms) = m.from

  abbrev pub summary : ℕ → List (Migration Content) → Database Content → Summary
  summary current ms db = record {
    from = first_from current ms;
    to = db.user_version;
    applied = map (λ (m : Migration Content). m.id) ms;
  }

  -- `migrateDatabase`
  unfoldable pub migrate_database :
      (now target : ℕ)
      → List (Migration Content)
      → Database Content
      → Result Summary × Database Content
  migrate_database now target registry db =
      let current = db.user_version in
      if ltb (greatest current_schema_version registry) target
      then (err 500 "Requested schema version is not supported.", db)
      else if ltb target current
      then (err 500 "Database schema is newer than this Gateway supports.", db)
      else elim (plan (target - current) registry target current) [
        | ambiguous ↦ (err 500 "No unambiguous schema migration path exists.", db)
        | out_of_fuel ↦ (err 500 "out of fuel", db)
        | path ms ↦
            let r = migrate_along now ms db in
            if r.0 then (ok (summary current ms r.1), r.1) else (err 500 "migration failed", r.1)
      ]
