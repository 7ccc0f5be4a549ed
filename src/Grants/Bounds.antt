-- ===== src/Grants/Bounds.antt =====
-- The size and the lifetimes of the grant table over any sequence of calls.
use mqtt_trust_gateway.Base.{
  ℕ, ◌+◌, ◌≤◌, ◌<◌, String, Bool, not, Option, none, some, List, [], ◌∷◌, leb, insert, keep, length,
  Distinct, keep-Distinct, insert-Distinct, erase-Distinct, length-keep-le, length-insert-le,
  length-erase-le, arith,
}
use mqtt_trust_gateway.Grants.{
  Identity, Grant, Grants, prune, issue, allows, revoke, revoke_user, revoke_session, deadline,
  grant_for,
}

-- the calls that the routes make
pub data Call : Type 0 where
  issues : String → Identity → Option ℕ → ℕ → Call
  asks : Option String → Identity → Call
  revokes : Option String → Call
  revokes_user : String → Call
  revokes_session : String → Call

pub step : (String → String) → ℕ × Call → Grants → Grants
step sha (now, issues token who expiry lifetime) m = (issue sha now token who expiry lifetime m).1
step sha (now, asks token who) m = (allows sha now token who m).1
step sha (now, revokes token) m = revoke sha token m
step sha (now, revokes_user user) m = revoke_user user m
step sha (now, revokes_session session) m = revoke_session session m

pub run : (String → String) → List (ℕ × Call) → Grants → Grants
run sha [] m = m
run sha (c ∷ cs) m = run sha cs (step sha c m)

-- one grant for a digest, at most 10000 of them
pub record IsBounded (m : Grants) : Type 0 where
  pub distinct : Distinct m
  pub size : length m ≤ 10000

keep-IsBounded : (p : Grant → Bool) (m : Grants) → IsBounded m → IsBounded (keep p m)
keep-IsBounded p m b = record {
  distinct = keep-Distinct p m b.distinct;
  size = omega (arith, length-keep-le p m, b.size);
}

insert-IsBounded :
    (k : String) (g : Grant) (m : Grants)
    → IsBounded m
    → length m < 10000
    → IsBounded (insert k g m)
insert-IsBounded k g m b h = record {
  distinct = insert-Distinct k g m b.distinct;
  size = omega (arith, length-insert-le k g m, h);
}

issue-IsBounded :
    (sha : String → String) (now : ℕ) (token : String) (who : Identity) (expiry : Option ℕ)
    (lifetime : ℕ) (m : Grants)
    → IsBounded m
    → IsBounded (issue sha now token who expiry lifetime m).1
unfolding issue
issue-IsBounded sha now token who expiry lifetime m b =
    let live = keep (λ (g : Grant). not (leb g.expires_at now)) m in
    ground (
      arith,
      b,
      keep-IsBounded (λ (g : Grant). not (leb g.expires_at now)) m b,
      insert-IsBounded (sha token) (grant_for who (deadline (now + lifetime) expiry)) live,
    )

-- Every call keeps at most one grant under a digest and at most 10000 grants.
pub step-IsBounded :
    (sha : String → String) (c : ℕ × Call) (m : Grants) → IsBounded m → IsBounded (step sha c m)
unfolding step prune allows revoke revoke_user revoke_session
step-IsBounded sha (now, issues token who expiry lifetime) m b =
    issue-IsBounded sha now token who expiry lifetime m b
step-IsBounded sha (now, asks none who) m b = keep-IsBounded _ m b
step-IsBounded sha (now, asks (some token) who) m b =
    ground (arith, keep-IsBounded (λ (g : Grant). not (leb g.expires_at now)) m b)
step-IsBounded sha (now, revokes none) m b = b
step-IsBounded sha (now, revokes (some token)) m b = record {
  distinct = erase-Distinct (sha token) m b.distinct;
  size = omega (arith, length-erase-le (sha token) m, b.size);
}
step-IsBounded sha (now, revokes_user user) m b = keep-IsBounded _ m b
step-IsBounded sha (now, revokes_session session) m b = keep-IsBounded _ m b

-- After any sequence of calls on a new table, there is at most one grant under a digest and there
-- are at most 10000 grants.
pub run-IsBounded :
    (sha : String → String) (cs : List (ℕ × Call)) (m : Grants)
    → IsBounded m
    → IsBounded (run sha cs m)
unfolding run
run-IsBounded sha [] m b = b
run-IsBounded sha (c ∷ cs) m b = run-IsBounded sha cs (step sha c m) (step-IsBounded sha c m b)
