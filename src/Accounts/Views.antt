-- ===== src/Accounts/Views.antt =====
-- The accounts that a document holds, as the abstract machine sees them.
use mqtt_trust_gateway.Base.{
  ℕ, String, ◌≡◌, refl, ap, sym, ◌∙◌, Bool, true, not, some, List, [], ◌∷◌, ◌++◌, ◌===◌, any,
  filter, find?, modify, Bool-cases, Option-cases, inl, inr, arith, lookup,
}
use mqtt_trust_gateway.Db.{User, Credential, LegacyCredential, Challenge}
use mqtt_trust_gateway.Reauth.{
  Checks, Proof, password, passkey, other, has_totp, user_credentials, primary_passkey, set_counter,
  totp_step, verify_totp, passkey_answer, verify_reauthentication,
}
use mqtt_trust_gateway.Accounts.Passkeys.{has_id, has_password, is_registered, without_passkey}
use mqtt_trust_gateway.Accounts.Machine.{Account, Change, Changed, here, there, is_held, without}

abbrev pub ids : List Credential → List String
ids [] = []
ids (c ∷ cs) = c.id ∷ ids cs

unfoldable pub view : User → Account
view u = record {
  id = u.id;
  username = u.username;
  has_password = has_password u;
  has_codes = has_totp u;
  passkeys = ids (user_credentials u);
}

abbrev pub views : List User → List Account
views [] = []
views (u ∷ us) = view u ∷ views us

pub views-append : (us : List User) (u : User) → views (us ++ u ∷ []) ≡ views us ++ view u ∷ []
views-append [] u = refl
views-append (v ∷ us) u = rw (views-append us u) refl

pub Changed-modify :
    (all : List Account) (p : User → Bool) (us : List User) (u u' : User)
    → find? p us ≡ some u
    → Change all (view u) (view u')
    → Changed all (views us) (views (modify p (λ _. u') us))
Changed-modify all p [] u u' found c = absurd (ground (arith, found))
Changed-modify all p (v ∷ us) u u' found c = elim (Bool-cases (p v)) [
  | inl b ↦ let same : v ≡ u = ground (arith, found, b) in rw (b, same) (here c)
  | inr b ↦ rw b (there (Changed-modify all p us u u' (ground (arith, found, b)) c))
]

ids-set_counter : (id : String) (n : ℕ) (cs : List Credential) → ids (set_counter id n cs) ≡ ids cs
ids-set_counter id n [] = refl
ids-set_counter id n (c ∷ cs) = elim (Bool-cases (c.id === id)) [
  | inl b ↦ rw b refl
  | inr b ↦ rw (b, ids-set_counter id n cs) refl
]

any-ids : (id : String) (cs : List Credential) → any (has_id id) cs ≡ any (λ s. s === id) (ids cs)
any-ids id [] = refl
any-ids id (c ∷ cs) = rw (any-ids id cs) refl

ids-append : (cs ds : List Credential) → ids (cs ++ ds) ≡ ids cs ++ ids ds
ids-append [] ds = refl
ids-append (c ∷ cs) ds = rw (ids-append cs ds) refl

any-append :
    (id : String) (cs ds : List Credential)
    → any (has_id id) cs ≡ true
    → any (has_id id) (cs ++ ds) ≡ true
any-append id [] ds h = absurd (ground (arith, h))
any-append id (c ∷ cs) ds h = ground (arith, h, any-append id cs ds)

any-last :
    (id : String) (cs : List Credential) (d : Credential)
    → d.id ≡ id
    → any (has_id id) (cs ++ d ∷ []) ≡ true
any-last id [] d h = ground (arith, h)
any-last id (c ∷ cs) d h = ground (arith, any-last id cs d h)

ids-filter :
    (id : String) (cs : List Credential)
    → ids (filter (λ (c : Credential). not (c.id === id)) cs) ≡ without id (ids cs)
ids-filter id [] = refl
ids-filter id (c ∷ cs) = elim (Bool-cases (c.id === id)) [
  | inl b ↦ rw (b, ids-filter id cs) refl
  | inr b ↦ rw (b, ids-filter id cs) refl
]

-- The migrated passkey is in the list, and stays there as long as its identifier does.
legacy_listed :
    (u : User) (c : LegacyCredential)
    → u.legacy_credential ≡ some c
    → any (has_id c.id) (user_credentials u) ≡ true
unfolding user_credentials
legacy_listed u c e = elim (Bool-cases (any (has_id c.id) u.credentials)) [
  | inl b ↦ ground (arith, e, b)
  | inr b ↦ ground (arith, e, b, any-last c.id u.credentials (primary_passkey u.created_at c) refl)
]

pub user_credentials-put :
    (u : User) (cs : List Credential)
    → ((id : String) → any (has_id id) (user_credentials u) ≡ true → any (has_id id) cs ≡ true)
    → user_credentials (record u { credentials = cs }) ≡ cs
unfolding user_credentials
user_credentials-put u cs h = elim (Option-cases u.legacy_credential) [
  | inl e ↦ ground (arith, e)
  | inr (c, e) ↦ ground (arith, e, h c.id (legacy_listed u c e))
]

pub view-set_counter :
    (u : User) (id : String) (n : ℕ)
    → view (record u { credentials = set_counter id n (user_credentials u) }) ≡ view u
unfolding view
view-set_counter u id n =
    let cs = set_counter id n (user_credentials u) in
    let same : ids cs ≡ ids (user_credentials u) = ids-set_counter id n (user_credentials u) in
    let kept : user_credentials (record u { credentials = cs }) ≡ cs =
      user_credentials-put u cs (λ id' h.
        any-ids id' cs
        ∙ ap (any (λ s. s === id')) same
        ∙ sym (any-ids id' (user_credentials u))
        ∙ h) in
    rw (kept, same) refl

pub view-add :
    (u : User) (c : Credential)
    → view (record u { credentials = user_credentials u ++ c ∷ [] })
      ≡ record (view u) { passkeys = (view u).passkeys ++ c.id ∷ [] }
unfolding view
view-add u c =
    let cs = user_credentials u ++ c ∷ [] in
    let kept : user_credentials (record u { credentials = cs }) ≡ cs =
      user_credentials-put u cs (λ id h. any-append id (user_credentials u) (c ∷ []) h) in
    rw (kept, ids-append (user_credentials u) (c ∷ [])) refl

pub view-without_passkey :
    (id : String) (u : User)
    → view (without_passkey id u) ≡ record (view u) { passkeys = without id (view u).passkeys }
unfolding view user_credentials
view-without_passkey id u = rw (ids-filter id (user_credentials u)) refl

-- A code that is used up leaves the view.
pub view-totp_step :
    (k : Checks) (now : ℕ) (code : String) (u u' : User)
    → totp_step k now code u ≡ some u'
    → view u' ≡ view u
unfolding view user_credentials
view-totp_step k now code u u' h = elim (Option-cases u.totp) [
  | inl e ↦ ground (arith, e, h)
  | inr (t, e) ↦ elim (Option-cases (verify_totp k t code now)) [
    | inl r ↦ absurd (ground (arith, e, r, h))
    | inr (t', r) ↦
        let same : u' ≡ record u { totp = some t' } = ground (arith, e, r, h) in rw (same, e) refl
  ]
]

-- A fresh authentication, passed or not, leaves the view.
pub view-verified :
    (k : Checks) (now : ℕ) (require_totp : Bool) (key : String) (p : Proof) (u : User)
    (cs : List (String × Challenge))
    → view (verify_reauthentication k now require_totp key p u cs).user ≡ view u
unfolding verify_reauthentication
view-verified k now r key (password given code) u cs =
    elim (Option-cases (totp_step k now code u)) [
      | inl e ↦ ground (arith, e)
      | inr (u', e) ↦ ground (arith, e, view-totp_step k now code u u' e)
    ]
view-verified k now r key (passkey id response) u cs =
    elim (Option-cases (passkey_answer k now u (lookup key cs) id response)) [
      | inl e ↦ ground (arith, e)
      | inr ((c, n), e) ↦ ground (arith, e, view-set_counter u c.id n)
    ]
view-verified k now r key other u cs = refl

pub is_registered-views :
    (id : String) (us : List User) → is_registered id us ≡ is_held id (views us)
unfolding view
is_registered-views id [] = refl
is_registered-views id (u ∷ us) =
    rw (any-ids id (user_credentials u), is_registered-views id us) refl
