-- ===== src/Reauth/Proofs.antt =====
-- What a fresh authentication that passes has shown, and that neither a code nor a challenge serves
-- twice.
use mqtt_trust_gateway.Base.{
  ℕ, ◌+◌, ◌<◌, ◌≤◌, String, ◌≡◌, subst, ap, Bool, true, false, ◌&&◌, not, Option, none, some, List,
  [], ◌∷◌, lookup, lookup-erase, Option-cases, inl, inr, arith,
}
use mqtt_trust_gateway.Db.{User, Totp, Challenge, Credential}
use mqtt_trust_gateway.Reauth.{
  Checks, Delta, password, passkey, step_of, verify_totp, has_totp, password_ok, passkey_answer,
  find_user_credential, verify_reauthentication,
}

-- the lowest step that is still free
abbrev pub next_step : Option ℕ → ℕ
next_step none = 0
next_step (some last) = last + 1

verify_totp_ok :
    (k : Checks) (t t' : Totp) (code : String) (now : ℕ)
    → verify_totp k t code now ≡ some t'
    → (delta : Delta) × (k.validate t.encrypted code now ≡ some delta)
      × (t' ≡ record t { last_step = some (step_of now delta) })
      × (next_step t.last_step ≤ step_of now delta)
unfolding verify_totp
verify_totp_ok k t t' code now h = elim (Option-cases (k.validate t.encrypted code now)) [
  | inl wrong ↦ absurd (ground (arith, wrong, h))
  | inr (delta, right) ↦ (delta, right, ground (arith, right, h), ground (arith, right, h))
]

-- A series of codes for one record, each with its time: the record that is left, and the steps of the
-- codes that were accepted.
abbrev pub after_code : Option Totp → Totp → Totp
after_code none t = t
after_code (some t') t = t'

abbrev pub step_accepted : Option Totp → List ℕ → List ℕ
step_accepted none rest = rest
step_accepted (some t) rest = elim t.last_step [ none ↦ rest | some step ↦ step ∷ rest ]

abbrev pub accepted : Checks → List (ℕ × String) → Totp → List ℕ
accepted k [] t = []
accepted k ((now, code) ∷ cs) t =
    let r = verify_totp k t code now in step_accepted r (accepted k cs (after_code r t))

-- Every step is above the ones before it, and at least `low`.
abbrev pub Rising : ℕ → List ℕ → Type 0
Rising low [] = Unit
Rising low (s ∷ ss) = (low ≤ s) × Rising (s + 1) ss

-- Whatever codes are tried, at whatever times, the steps of the accepted ones rise strictly from the
-- last step of the record: no code is accepted twice in one step, and none of an earlier step.
pub accepted-Rising :
    (k : Checks) (cs : List (ℕ × String)) (t : Totp)
    → Rising (next_step t.last_step) (accepted k cs t)
accepted-Rising k [] t = tt
accepted-Rising k ((now, code) ∷ cs) t = elim (Option-cases (verify_totp k t code now)) [
  | inl refused ↦ rw refused (accepted-Rising k cs t)
  | inr (t', e) ↦
      let (delta, _, is_moved, free) = verify_totp_ok k t t' code now e in
      let step = step_of now delta in
      let last : t'.last_step ≡ some step = ap (λ (r : Totp). r.last_step) is_moved in
      let rest : Rising (step + 1) (accepted k cs t') =
        subst (λ (o : Option ℕ). Rising (next_step o) (accepted k cs t')) last
          (accepted-Rising k cs t') in
      rw (e, last) (free, rest)
]

module _ (k : Checks) (now : ℕ) (require_totp : Bool) (key : String) (u : User)
    (cs : List (String × Challenge)) where
  -- A password that passes is the user's, and where a code is required the user has one set up.
  pub password_passed :
      (given code : String)
      → (verify_reauthentication k now require_totp key (password given code) u cs).passed ≡ true
      → (password_ok k u given ≡ true) × ((require_totp && not (has_totp u)) ≡ false)
  unfolding verify_reauthentication
  password_passed given code h = ground (arith, h)

  -- With a password, a user who has set up codes passes only with a code that is valid for the secret
  -- now, one step earlier or one step later, at a step above the last one used; the record then differs
  -- in having that step as its last one.
  pub password_passed-totp :
      (given code : String) (t : Totp)
      → (verify_reauthentication k now require_totp key (password given code) u cs).passed ≡ true
      → u.totp ≡ some t
      → (password_ok k u given ≡ true)
        × (delta : Delta) × (k.validate t.encrypted code now ≡ some delta)
        × (next_step t.last_step ≤ step_of now delta)
        × ((verify_reauthentication k now require_totp key (password given code) u cs).user.totp
            ≡ some (record t { last_step = some (step_of now delta) }))
  unfolding verify_reauthentication
  password_passed-totp given code t h e = elim (Option-cases (verify_totp k t code now)) [
    | inl refused ↦ absurd (ground (arith, e, refused, h))
    | inr (t', right) ↦
        let (delta, valid, is_moved, free) = verify_totp_ok k t t' code now right in
        (ground (arith, h), delta, valid, free, ground (arith, e, right, h, is_moved))
  ]

  -- A passkey's answer passes only if a challenge waits under the key of the operation and has not
  -- expired, one of the user's passkeys has the identifier, and the answer to that challenge is right.
  pub passkey_passed :
      (id response : String)
      → (verify_reauthentication k now require_totp key (passkey id response) u cs).passed ≡ true
      → (challenge : Challenge) × (c : Credential) × (counter : ℕ) × (lookup key cs
          ≡ some challenge)
        × (now < challenge.expires_at)
        × (find_user_credential k.decode u id ≡ some c)
        × (k.passkey challenge.challenge c response ≡ some counter)
  unfolding verify_reauthentication passkey_answer
  passkey_passed id response h = elim (Option-cases (lookup key cs)) [
    | inl missing ↦ absurd (ground (arith, missing, h))
    | inr (challenge, waits) ↦ elim (Option-cases (find_user_credential k.decode u id)) [
      | inl unknown ↦ absurd (ground (arith, waits, unknown, h))
      | inr (c, known) ↦ elim (Option-cases (k.passkey challenge.challenge c response)) [
        | inl wrong ↦ absurd (ground (arith, waits, known, wrong, h))
        | inr (counter, right) ↦
            (challenge, c, counter, waits, ground (arith, waits, known, right, h), known, right)
      ]
    ]
  ]

  -- A passkey's answer uses the challenge up, whether it passes or not: a second answer under the same
  -- key fails, whoever gives it and whenever.
  pub passkey_once :
      (later : ℕ) (other : User) (id response id' response' : String)
      → let left =
          (verify_reauthentication k now require_totp key (passkey id response) u cs).challenges in
        (lookup key left ≡ none)
        × ((verify_reauthentication k later require_totp key
              (passkey id' response')
              other
              left).passed
            ≡ false)
  unfolding verify_reauthentication passkey_answer
  passkey_once later other id response id' response' = ground (arith, lookup-erase key key cs)
