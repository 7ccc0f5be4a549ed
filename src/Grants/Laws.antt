-- ===== src/Grants/Laws.antt =====
-- What a token opens after each method of the grant table.
use mqtt_trust_gateway.Base.{
  ℕ, ◌+◌, ◌≤◌, ◌<◌, String, ◌≡◌, ◌↔◌, refl, Bool, true, ◌&&◌, not, Option, none, some, leb, ◌===◌,
  codes, length, lookup, Distinct, kept, lookup-keep, keep-Distinct, ok, arith,
}
use mqtt_trust_gateway.Grants.{
  Identity, Grant, Grants, matches, issue, allows, revoke_user, revoke_session, deadline,
}

-- The grant is for this identity and scope.
pub record IsFor (who : Identity) (g : Grant) : Type 0 where
  pub user : g.user_id ≡ who.user_id
  pub session : g.session_id ≡ who.session_id
  pub scope : g.scope ≡ who.scope

abbrev is_live : ℕ → Grant → Bool
is_live now g = not (leb g.expires_at now)

abbrev pub opens : ℕ → Identity → Option Grant → Bool
opens now who o = matches who (kept (is_live now) o)

-- What `opens` tests, as a statement.
opens_iff :
    (now : ℕ) (who : Identity) (o : Option Grant)
    → (opens now who o ≡ true) ↔ ((g : Grant) × (o ≡ some g) × (now < g.expires_at) × IsFor who g)
opens_iff now who none = (λ h. cc, λ h. cc (h.1))
opens_iff now who (some g) =
    (λ h. (g, refl, ground arith, ground arith), λ h. ground (arith, h.1, h.2, h.3))

module _ (sha256 : String → String) (now : ℕ) (token : String) where
  -- The answer, without the table that is left.
  allows_lem :
      (who : Identity) (m : Grants)
      → Distinct m
      → (allows sha256 now (some token) who m).0
        ≡ (leb (length (codes token)) 128 && opens now who (lookup (sha256 token) m))
  unfolding allows
  allows_lem who m d = rw (lookup-keep (is_live now) (sha256 token) m d) (ground arith)

  -- A token opens a scope exactly when it is at most 128 characters long and the table holds, under
  -- its digest, a grant that has not expired and is for the same user, session and scope.
  pub allows_iff :
      (who : Identity) (m : Grants)
      → Distinct m
      → ((allows sha256 now (some token) who m).0 ≡ true) ↔ (
          (length (codes token) ≤ 128)
          × (g : Grant) × (lookup (sha256 token) m ≡ some g)
          × (now < g.expires_at)
          × IsFor who g)
  allows_iff who m d =
      let o = opens_iff now who (lookup (sha256 token) m) in
      rw (allows_lem who m d) (
        λ h. let w = o.0 (ground arith) in (ground arith, w.0, w.1, w.2, w.3),
        λ h. ground (arith, h.0, o.1 (h.1, h.2, h.3, h.4)),
      )

  -- Revoking a user's grants closes every scope to that user, whatever the token, and changes no
  -- answer for another user.
  pub allows-revoke_user :
      (user : String) (who : Identity) (m : Grants)
      → Distinct m
      → (allows sha256 now (some token) who (revoke_user user m)).0
        ≡ (not (who.user_id === user) && (allows sha256 now (some token) who m).0)
  unfolding revoke_user
  allows-revoke_user user who m d = rw (allows_lem who m d) (
      rw (allows_lem who _ (keep-Distinct _ m d)) (
        rw (lookup-keep (λ (g : Grant). not (g.user_id === user)) (sha256 token) m d)
          (split (lookup (sha256 token) m))))
    where
      split :
          (o : Option Grant)
          → (leb (length (codes token)) 128
              && opens now who (kept (λ (g : Grant). not (g.user_id === user)) o))
            ≡ (not (who.user_id === user) && (leb (length (codes token)) 128 && opens now who o))
      split none = ground arith
      split (some g) = ground arith

  -- Ending a session closes every scope to that session, and changes no answer for another.
  pub allows-revoke_session :
      (session : String) (who : Identity) (m : Grants)
      → Distinct m
      → (allows sha256 now (some token) who (revoke_session session m)).0
        ≡ (not (who.session_id === session) && (allows sha256 now (some token) who m).0)
  unfolding revoke_session
  allows-revoke_session session who m d = rw (allows_lem who m d) (
      rw (allows_lem who _ (keep-Distinct _ m d)) (
        rw (lookup-keep (λ (g : Grant). not (g.session_id === session)) (sha256 token) m d)
          (split (lookup (sha256 token) m))))
    where
      split :
          (o : Option Grant)
          → (leb (length (codes token)) 128
              && opens now who (kept (λ (g : Grant). not (g.session_id === session)) o))
            ≡ (not (who.session_id === session)
                && (leb (length (codes token)) 128 && opens now who o))
      split none = ground arith
      split (some g) = ground arith

  -- A successful call of `issue` lasts for the lifetime asked for, of 1 to 300 seconds, cut at the end of
  -- the session, and is not over when it is made. It returns the token that was drawn.
  pub issue_ok :
      (who : Identity) (session_end : Option ℕ) (lifetime : ℕ) (m : Grants) {t : String} {x : ℕ}
      → (issue sha256 now token who session_end lifetime m).0 ≡ ok (t, x)
      → (t ≡ token)
        × (now < x)
        × (x ≡ deadline (now + lifetime) session_end)
        × (1000 ≤ lifetime)
        × (lifetime ≤ 300000)
  unfolding issue
  issue_ok who session_end lifetime m h = ground arith
