-- ===== src/Sessions/Attempts.antt =====
-- The limit on sign-in attempts.
use mqtt_trust_gateway.Base.{
  ℕ, ◌+◌, ◌-◌, ◌≤◌, String, ◌≡◌, refl, not, some, List, [], ◌∷◌, ltb, ◌===◌, if◌then◌else◌, length,
  All, lookup, insert, keep, Distinct, lookup-keep, lookup-insert, keep-Distinct, insert-Distinct,
  Bool-cases, inl, inr, arith,
}
use mqtt_trust_gateway.Sessions.{Attempt, or_first, rate_limit}

-- The requests of a history under `key` that go on.
abbrev pub passes : (key : String) → List (ℕ × String) → List (String × Attempt) → ℕ
passes key [] m = 0
passes key ((now, k) ∷ cs) m =
    let rest = passes key cs (rate_limit now k m).1 in
    if k === key then (if (rate_limit now k m).0 then 1 + rest else rest) else rest

abbrev pub after : (now : ℕ) (k : String) → List (String × Attempt) → List (String × Attempt)
after now k m =
    let live = keep (λ (a : Attempt). not (ltb a.until now)) m in
    let entry = or_first now (lookup k live) in
    insert k (record entry { count = entry.count + 1 }) live

-- The map never holds more than its ten thousand entries, with the one of each request put in.
abbrev pub HasRoom : List (ℕ × String) → List (String × Attempt) → Type 0
HasRoom [] m = Unit
HasRoom ((now, k) ∷ cs) m = (length (after now k m) ≤ 10000) × HasRoom cs (rate_limit now k m).1

-- As long as the map is not full, nothing is evicted.
rate_limit-after :
    (now : ℕ) (k : String) (m : List (String × Attempt))
    → length (after now k m) ≤ 10000
    → (rate_limit now k m).1 ≡ after now k m
unfolding rate_limit
rate_limit-after now k m h = ground (arith, h)

-- What a request does to the entry of `key` before it expires.
after-lookup :
    (now : ℕ) (k key : String) (m : List (String × Attempt)) (e : Attempt)
    → Distinct m
    → lookup key m ≡ some e
    → now ≤ e.until
    → lookup key (after now k m) ≡ some (if k === key then record e { count = e.count + 1 } else e)
after-lookup now k key m e d found h =
    let live = keep (λ (a : Attempt). not (ltb a.until now)) m in
    let entry = or_first now (lookup k live) in
    let counted : Attempt = record entry { count = entry.count + 1 } in
    let stays : lookup key live ≡ some e =
      rw (lookup-keep (λ (a : Attempt). not (ltb a.until now)) key m d, found)
        (ground (arith, h)) in
    elim (Bool-cases (k === key)) [
      | inl same ↦ ground (arith, same, stays, lookup-insert k key counted live)
      | inr other ↦ ground (arith, other, stays, lookup-insert k key counted live)
    ]

after-Distinct :
    (now : ℕ) (k : String) (m : List (String × Attempt)) → Distinct m → Distinct (after now k m)
after-Distinct now k m d =
    insert-Distinct k _ _ (keep-Distinct (λ (a : Attempt). not (ltb a.until now)) m d)

-- The answer to a request under a key that has an entry.
rate_limit-answer :
    (now : ℕ) (key : String) (m : List (String × Attempt)) (e : Attempt)
    → Distinct m
    → lookup key m ≡ some e
    → now ≤ e.until
    → (rate_limit now key m).0 ≡ not (ltb 10 (e.count + 1))
unfolding rate_limit
rate_limit-answer now key m e d found h =
    let live = keep (λ (a : Attempt). not (ltb a.until now)) m in
    let stays : lookup key live ≡ some e =
      rw (lookup-keep (λ (a : Attempt). not (ltb a.until now)) key m d, found)
        (ground (arith, h)) in
    rw stays refl

-- Until the entry of a key expires, at most ten requests under it are let through, those counted before
-- included, however many they are and however they are mixed with requests under other keys, as long
-- as the map does not outgrow its ten thousand entries.
pub passes-le :
    (key : String) (cs : List (ℕ × String)) (m : List (String × Attempt)) (e : Attempt)
    → Distinct m
    → lookup key m ≡ some e
    → All (λ (c : ℕ × String). c.0 ≤ e.until) cs
    → HasRoom cs m
    → passes key cs m ≤ 10 - e.count
passes-le key [] m e d found times room = omega arith
passes-le key ((now, k) ∷ cs) m e d found (h, times) (room, more) =
    let same = rate_limit-after now k m room in
    let e' = if k === key then record e { count = e.count + 1 } else e in
    let times' : All (λ (c : ℕ × String). c.0 ≤ e'.until) cs = elim (Bool-cases (k === key)) [
      | inl b ↦ rw b times
      | inr b ↦ rw b times
    ] in
    let rest : passes key cs (after now k m) ≤ 10 - e'.count =
      passes-le key cs (after now k m) e' (after-Distinct now k m d)
        (after-lookup now k key m e d found h) times' (rw⁻¹ same more) in
    elim (Bool-cases (k === key)) [
      | inr other ↦ rw (other, same) (ground (arith, other, rest))
      | inl mine ↦
          let answer = rate_limit-answer now key m e d found h in
          ground (arith, mine, same, rest, answer)
    ]
