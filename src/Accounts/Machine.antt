-- ===== src/Accounts/Machine.antt =====
-- What the account routes promise, without hashes, counters and sessions: the accounts as a list of
-- names with the ways into each, and the only changes that a request may make to it.
use mqtt_trust_gateway.Base.{
  ℕ, ◌+◌, ◌≤◌, String, ◌≡◌, ◌⊎◌, inl, inr, Bool, true, false, ◌||◌, not, List, [], ◌∷◌, ◌++◌, leb,
  ◌===◌, if◌then◌else◌, length, any, filter, All, Bool-cases, refl, arith,
}
use mqtt_trust_gateway.Reauth.{is_empty}

pub record Account : Type 0 where
  pub id : String
  pub username : String
  pub has_password : Bool
  pub has_codes : Bool
  pub passkeys : List String

-- An identifier that no account uses.
abbrev pub is_held : String → List Account → Bool
is_held id us = any (λ (a : Account). any (λ s. s === id) a.passkeys) us

abbrev pub without : String → List String → List String
without id ss = filter (λ s. not (s === id)) ss

-- A change of one account among all of them.
pub data Change (all : List Account) : Account → Account → Type 0 where
  same : {a : Account} → Change all a a
  new_password : {a : Account} → Change all a (record a { has_password = true })
  codes_on : {a : Account} → Change all a (record a { has_codes = true })
  codes_off : {a : Account} → Change all a (record a { has_codes = false })
  added :
      {a : Account} (id : String)
      → is_held id all ≡ false
      → Change all a (record a { passkeys = a.passkeys ++ id ∷ [] })
  dropped :
      {a : Account} (id : String)
      → (a.has_password || leb 2 (length a.passkeys)) ≡ true
      → Change all a (record a { passkeys = without id a.passkeys })

pub data Changed (all : List Account) : List Account → List Account → Type 0 where
  here : {a b : Account} {us : List Account} → Change all a b → Changed all (a ∷ us) (b ∷ us)
  there : {a : Account} {us bs : List Account} → Changed all us bs → Changed all (a ∷ us) (a ∷ bs)

-- The first account is made while there is none, and with a password.
pub data Step : List Account → List Account → Type 0 where
  stays : {us : List Account} → Step us us
  created : {a : Account} → a.has_password ≡ true → a.passkeys ≡ [] → Step [] (a ∷ [])
  changed : {us bs : List Account} → Changed us us bs → Step us bs

abbrev pub count : String → List String → ℕ
count id [] = 0
count id (s ∷ ss) = if s === id then 1 + count id ss else count id ss

-- How often a passkey's identifier stands in all accounts.
abbrev pub holders : String → List Account → ℕ
holders id [] = 0
holders id (a ∷ us) = count id a.passkeys + holders id us

abbrev pub has_way_in : Account → Bool
has_way_in a = a.has_password || not (is_empty a.passkeys)

-- Nobody is locked out, and no passkey is registered twice.
pub record SafeAccounts (us : List Account) : Type 0 where
  pub entered : All (λ (a : Account). has_way_in a ≡ true) us
  pub unique : (id : String) → holders id us ≤ 1

count-absent : (id : String) (ss : List String) → any (λ s. s === id) ss ≡ false → count id ss ≡ 0
count-absent id [] h = refl
count-absent id (s ∷ ss) h = ground (arith, h, count-absent id ss)

holders-absent : (id : String) (us : List Account) → is_held id us ≡ false → holders id us ≡ 0
holders-absent id [] h = refl
holders-absent id (a ∷ us) h = ground (arith, h, holders-absent id us, count-absent id a.passkeys)

count-append : (id : String) (ss ts : List String) → count id (ss ++ ts) ≡ count id ss + count id ts
count-append id [] ts = omega arith
count-append id (s ∷ ss) ts = ground (arith, count-append id ss ts)

count-filter-le :
    (id : String) (p : String → Bool) (ss : List String) → count id (filter p ss) ≤ count id ss
count-filter-le id p [] = omega arith
count-filter-le id p (s ∷ ss) = ground (arith, count-filter-le id p ss)

length-without : (id : String) (ss : List String) → length (without id ss) + count id ss ≡ length ss
length-without id [] = omega arith
length-without id (s ∷ ss) = ground (arith, length-without id ss)

count-Change :
    (id : String) (all : List Account) (a b : Account)
    → Change all a b
    → (count id b.passkeys ≤ count id a.passkeys)
      ⊎ ((holders id all ≡ 0) × (count id b.passkeys ≤ count id a.passkeys + 1))
count-Change id all a _ same = inl (omega arith)
count-Change id all a _ new_password = inl (omega arith)
count-Change id all a _ codes_on = inl (omega arith)
count-Change id all a _ codes_off = inl (omega arith)
count-Change id all a _ (added id' free) = elim (Bool-cases (id' === id)) [
  | inl own ↦ inr (
    ground (arith, own, free, holders-absent id' all),
    ground (arith, own, count-append id a.passkeys (id' ∷ [])),
  )
  | inr other ↦ inl (ground (arith, other, count-append id a.passkeys (id' ∷ [])))
]
count-Change id all a _ (dropped id' left) =
    inl (count-filter-le id (λ s. not (s === id')) a.passkeys)

holders-Changed :
    (id : String) (all us bs : List Account)
    → Changed all us bs
    → (holders id bs ≤ holders id us) ⊎ ((holders id all ≡ 0) × (holders id bs ≤ holders id us + 1))
holders-Changed id all [] bs c = elim c [ ]
holders-Changed id all (a ∷ us) [] c = elim c [ ]
holders-Changed id all (a ∷ us) (b ∷ _) (here c) = elim (count-Change id all a b c) [
  | inl less ↦ inl (omega (arith, less))
  | inr (free, less) ↦ inr (free, omega (arith, less))
]
holders-Changed id all (a ∷ us) (_ ∷ bs) (there c) = elim (holders-Changed id all us bs c) [
  | inl less ↦ inl (omega (arith, less))
  | inr (free, less) ↦ inr (free, omega (arith, less))
]

has_way_in-Change :
    (all : List Account) (a b : Account)
    → ((id : String) → count id a.passkeys ≤ 1)
    → has_way_in a ≡ true
    → Change all a b
    → has_way_in b ≡ true
has_way_in-Change all a _ once h same = h
has_way_in-Change all a _ once h new_password = refl
has_way_in-Change all a _ once h codes_on = h
has_way_in-Change all a _ once h codes_off = h
has_way_in-Change all a _ once h (added id free) = ground (arith, h, a.passkeys)
has_way_in-Change all a _ once h (dropped id left) =
    ground (arith, left, once id, length-without id a.passkeys)

entered-Changed :
    (all us bs : List Account)
    → ((id : String) → holders id us ≤ 1)
    → All (λ (a : Account). has_way_in a ≡ true) us
    → Changed all us bs
    → All (λ (a : Account). has_way_in a ≡ true) bs
entered-Changed all [] bs once h c = elim c [ ]
entered-Changed all (a ∷ us) [] once h c = elim c [ ]
entered-Changed all (a ∷ us) (b ∷ _) once (h, hs) (here c) =
    (has_way_in-Change all a b (λ id. omega (arith, once id)) h c, hs)
entered-Changed all (a ∷ us) (_ ∷ bs) once (h, hs) (there c) =
    (h, entered-Changed all us bs (λ id. omega (arith, once id)) hs c)

pub Step-SafeAccounts : (us bs : List Account) → SafeAccounts us → Step us bs → SafeAccounts bs
Step-SafeAccounts us _ w stays = w
Step-SafeAccounts [] _ w (created {a} entered none) = record {
  entered = (ground (arith, entered), tt);
  unique = λ id. ground (arith, none);
}
Step-SafeAccounts us bs w (changed c) = record {
  entered = entered-Changed us us bs w.unique w.entered c;
  unique = λ id. elim (holders-Changed id us us bs c) [
    | inl less ↦ omega (arith, less, w.unique id)
    | inr (free, less) ↦ omega (arith, less, free)
  ];
}

abbrev pub names : List Account → List (String × String)
names [] = []
names (a ∷ us) = (a.id, a.username) ∷ names us

name-Change :
    (all : List Account) (a b : Account)
    → Change all a b
    → (b.id ≡ a.id) × (b.username ≡ a.username)
name-Change all a _ same = (refl, refl)
name-Change all a _ new_password = (refl, refl)
name-Change all a _ codes_on = (refl, refl)
name-Change all a _ codes_off = (refl, refl)
name-Change all a _ (added id free) = (refl, refl)
name-Change all a _ (dropped id left) = (refl, refl)

names-Changed : (all us bs : List Account) → Changed all us bs → names bs ≡ names us
names-Changed all [] bs c = elim c [ ]
names-Changed all (a ∷ us) [] c = elim c [ ]
names-Changed all (a ∷ us) (b ∷ _) (here c) =
    let (id, username) = name-Change all a b c in rw (id, username) refl
names-Changed all (a ∷ us) (_ ∷ bs) (there c) = rw (names-Changed all us bs c) refl

-- Once there is an account, none is added, taken away or renamed.
pub names-Step : (us bs : List Account) → is_empty us ≡ false → Step us bs → names bs ≡ names us
names-Step us _ h stays = refl
names-Step [] _ h (created entered none) = absurd (ground (arith, h))
names-Step us bs h (changed c) = names-Changed us us bs c
