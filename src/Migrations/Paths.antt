-- ===== src/Migrations/Paths.antt =====
-- The path of a schema upgrade, and the version that it leaves.
use mqtt_trust_gateway.Base.{
  ℕ, zero, suc, ◌+◌, ◌-◌, ◌≤◌, ◌<◌, ◌≡◌, ◌≢◌, ◌⊎◌, max, refl, sym, subst, Bool, true, false, some,
  List, [], ◌∷◌, ltb, ◌==◌, All, Option-cases, Bool-cases, inl, inr, ok, arith,
}
use mqtt_trust_gateway.Migrations.{
  Migration, Database, Plan, path, ambiguous, out_of_fuel, steps_from, single, before, plan,
  migrate_once, migrate_along, migrate_database, Summary,
}

module _ {Content : Type 0} where
  -- Each migration starts where the one before it ended and goes up, and the last ends at `target`.
  abbrev pub Chain : (cursor target : ℕ) → List (Migration Content) → Type 0
  Chain cursor target [] = cursor ≡ target
  Chain cursor target (m ∷ ms) =
      (m.from ≡ cursor) × (cursor < m.to) × (m.to ≤ target) × Chain m.to target ms

  steps_from_sound :
      (cursor target : ℕ) (ms : List (Migration Content))
      → All
          (λ (m : Migration Content). (m.from ≡ cursor) × (m.to ≤ target))
          (steps_from cursor target ms)
  steps_from_sound cursor target [] = tt
  steps_from_sound cursor target (m ∷ ms) = ground (arith, steps_from_sound cursor target ms)

  single_sound :
      (cursor target : ℕ) (ms : List (Migration Content)) (m : Migration Content)
      → All (λ (m : Migration Content). (m.from ≡ cursor) × (m.to ≤ target)) ms
      → single cursor ms ≡ some m
      → (m.from ≡ cursor) × (cursor < m.to) × (m.to ≤ target)
  single_sound cursor target [] m h e = absurd (ground (arith, e))
  single_sound cursor target (n ∷ []) m h e = ground (arith, h, e)
  single_sound cursor target (n ∷ n' ∷ ns) m h e = absurd (ground (arith, e))

  -- What the search returns, with enough fuel: a chain, or the refusal.
  abbrev Settled : (cursor target : ℕ) → Plan Content → Type 0
  Settled cursor target (path ms) = Chain cursor target ms
  Settled cursor target ambiguous = Unit
  Settled cursor target out_of_fuel = ⊥

  before-Settled :
      (cursor target : ℕ) (m : Migration Content) (p : Plan Content)
      → (m.from ≡ cursor) × (cursor < m.to) × (m.to ≤ target)
      → Settled m.to target p
      → Settled cursor target (before m p)
  before-Settled cursor target m (path ms) (a, b, c) h = (a, b, c, h)
  before-Settled cursor target m ambiguous k h = tt
  before-Settled cursor target m out_of_fuel k h = h

  plan-Settled :
      (fuel : ℕ) (registry : List (Migration Content)) (target cursor : ℕ)
      → cursor ≤ target
      → target ≤ cursor + fuel
      → Settled cursor target (plan fuel registry target cursor)
  unfolding plan
  plan-Settled zero registry target cursor h enough =
      let same : (cursor == target) ≡ true = ground (arith, h, enough) in
      rw (same, plan) (ground (arith, same))
  plan-Settled (suc fuel) registry target cursor h enough = elim (Bool-cases (cursor == target)) [
    | inl there ↦ rw (there, plan) (ground (arith, there))
    | inr away ↦ elim (Option-cases (single cursor (steps_from cursor target registry))) [
      | inl none_fits ↦ rw (away, none_fits, plan) tt
      | inr (m, e) ↦
          let k =
            single_sound cursor target (steps_from cursor target registry) m
              (steps_from_sound cursor target registry) e in
          rw (away, e, plan)
            (before-Settled cursor target m (plan fuel registry target m.to) k
              (plan-Settled fuel registry target m.to (k.2) (omega (arith, k.1, enough))))
    ]
  ]

  migrate_once-version :
      (now : ℕ) (m : Migration Content) (db : Database Content)
      → db.user_version ≡ m.from
      → let r = migrate_once now m db in
        ((r.0 ≡ true) × (r.1.user_version ≡ m.to)) ⊎ ((r.0 ≡ false) × (r.1 ≡ db))
  unfolding migrate_once
  migrate_once-version now m db e = elim (Option-cases (m.change db.content)) [
    | inl thrown ↦ inr (ground (arith, e, thrown), ground (arith, e, thrown))
    | inr (content, f) ↦ inl (ground (arith, e, f), ground (arith, e, f))
  ]

  -- The version after a path was followed: the target where every migration went through, and in
  -- between where one failed.
  abbrev Along : (target : ℕ) → Database Content → Bool × Database Content → Type 0
  Along target db r =
      (db.user_version ≤ r.1.user_version)
      × (r.1.user_version ≤ target)
      × ((r.0 ≡ false) ⊎ (r.1.user_version ≡ target))

  migrate_along-version :
      (now target : ℕ) (ms : List (Migration Content)) (db : Database Content)
      → db.user_version ≤ target
      → Chain db.user_version target ms
      → Along target db (migrate_along now ms db)
  unfolding migrate_along migrate_once
  migrate_along-version now target [] db h c = (omega arith, h, inr c)
  migrate_along-version now target (m ∷ ms) db h (a, b, c, chain) =
      let r = migrate_once now m db in
      elim (migrate_once-version now m db (sym a)) [
        | inr (failed, same) ↦ rw (failed, migrate_along) (rw same (omega arith, h, inl failed))
        | inl (went, at) ↦
            let next : Chain r.1.user_version target ms = rw at chain in
            let rest = migrate_along-version now target ms r.1 (rw at c) next in
            rw (went, migrate_along) (omega (arith, rest.0, at, b), rest.1, rest.2)
      ]

  Plan-cases :
      (p : Plan Content)
      → ((ms : List (Migration Content)) × (p ≡ path ms)) ⊎ ((p ≡ ambiguous) ⊎ (p ≡ out_of_fuel))
  Plan-cases (path ms) = inl (ms, refl)
  Plan-cases ambiguous = inr (inl refl)
  Plan-cases out_of_fuel = inr (inr refl)

  module _ (now target : ℕ) (registry : List (Migration Content)) (db : Database Content) where
    abbrev searched : Plan Content
    searched = plan (target - db.user_version) registry target db.user_version

    searched-Settled : db.user_version ≤ target → Settled db.user_version target searched
    searched-Settled h =
        plan-Settled (target - db.user_version) registry target db.user_version h (omega (arith, h))

    -- The search for a path ends by itself, with as much fuel as `migrateDatabase` is given here: every
    -- migration on the path goes up and none goes past the target.
    pub plan-fuel :
        db.user_version ≤ target
        → plan (target - db.user_version) registry target db.user_version ≢ out_of_fuel
    plan-fuel h e =
        subst (λ (p : Plan Content). Settled db.user_version target p) e (searched-Settled h)

    -- An upgrade never lowers the version and never passes the target, on success and on failure.
    pub migrate_database-bounds :
        (db.user_version ≤ (migrate_database now target registry db).1.user_version)
        × ((migrate_database now target registry db).1.user_version ≤ max db.user_version target)
    unfolding migrate_database
    migrate_database-bounds = elim (Bool-cases (ltb target db.user_version)) [
      | inl newer ↦ ground (arith, newer)
      | inr fits ↦
          let v = searched-Settled (ground (arith, fits)) in
          elim (Plan-cases searched) [
            | inl (ms, e) ↦
                let chain : Chain db.user_version target ms =
                  subst (λ (p : Plan Content). Settled db.user_version target p) e v in
                let along = migrate_along-version now target ms db (ground (arith, fits)) chain in
                ground (arith, fits, e, along.0, along.1)
            | inr (inl e) ↦ ground (arith, fits, e)
            | inr (inr e) ↦ ground (arith, fits, e)
          ]
    ]

    -- An upgrade that succeeds leaves the database at the target version, and says so.
    pub migrate_database_ok :
        (s : Summary)
        → (migrate_database now target registry db).0 ≡ ok s
        → ((migrate_database now target registry db).1.user_version ≡ target) × (s.to ≡ target)
    unfolding migrate_database
    migrate_database_ok s h = elim (Bool-cases (ltb target db.user_version)) [
      | inl newer ↦ absurd (ground (arith, newer, h))
      | inr fits ↦
          let v = searched-Settled (ground (arith, fits)) in
          elim (Plan-cases searched) [
            | inl (ms, e) ↦
                let chain : Chain db.user_version target ms =
                  subst (λ (p : Plan Content). Settled db.user_version target p) e v in
                let along = migrate_along-version now target ms db (ground (arith, fits)) chain in
                ground (arith, fits, e, h, along.2)
            | inr (inl e) ↦ absurd (ground (arith, fits, e, h))
            | inr (inr e) ↦ absurd (ground (arith, fits, e, h))
          ]
    ]
