-- ===== src/Accounts/Invariant.antt =====
-- What a history of account requests keeps.
use mqtt_trust_gateway.Base.{◌≡◌, refl, ◌∙◌, false, List, [], ◌∷◌, arith}
use mqtt_trust_gateway.Db.{User}
use mqtt_trust_gateway.Reauth.{is_empty}
use mqtt_trust_gateway.Accounts.{Server, Packages, Visit}
use mqtt_trust_gateway.Accounts.Requests.{Request, handle, run}
use mqtt_trust_gateway.Accounts.Machine.{
  Account, SafeAccounts, names, Step-SafeAccounts, names-Step,
}
use mqtt_trust_gateway.Accounts.Views.{views}
use mqtt_trust_gateway.Accounts.Transitions.{Hashes}
use mqtt_trust_gateway.Accounts.Steps.{handle-Step}

-- From accounts that each have a password or a passkey, and in which no passkey's identifier stands
-- twice, every history of requests leads to such accounts, as long as the hash of a password is never
-- the empty text: nobody locks himself out, and no passkey serves two accounts.
pub run-SafeAccounts :
    (k : Packages) (rs : List (Visit × Request)) (s : Server)
    → Hashes k
    → SafeAccounts (views s.db.users)
    → SafeAccounts (views (run k rs s).db.users)
unfolding run
run-SafeAccounts k [] s h w = w
run-SafeAccounts k ((x, r) ∷ rs) s h w =
    run-SafeAccounts k rs (handle k x r s) h
      (Step-SafeAccounts (views s.db.users) _ w (handle-Step k x r s h))

is_empty-views : (us : List User) → is_empty us ≡ false → is_empty (views us) ≡ false
is_empty-views [] h = h
is_empty-views (u ∷ us) h = refl

views-is_empty : (us : List User) → is_empty (views us) ≡ false → is_empty us ≡ false
views-is_empty [] h = h
views-is_empty (u ∷ us) h = refl

names-is_empty :
    (us bs : List Account) → names bs ≡ names us → is_empty us ≡ false → is_empty bs ≡ false
names-is_empty [] bs e h = absurd (ground (arith, h))
names-is_empty (u ∷ us) [] e h = absurd (cc e)
names-is_empty (u ∷ us) (b ∷ bs) e h = refl

-- Once there is an account, no history of requests adds one, takes one away, or changes the identifier
-- or the name of one, as long as the hash of a password is never the empty text.
pub names-run :
    (k : Packages) (rs : List (Visit × Request)) (s : Server)
    → Hashes k
    → is_empty s.db.users ≡ false
    → names (views (run k rs s).db.users) ≡ names (views s.db.users)
unfolding run
names-run k [] s h e = refl
names-run k ((x, r) ∷ rs) s h e =
    let us = views s.db.users in
    let t = handle k x r s in
    let step = names-Step us _ (is_empty-views s.db.users e) (handle-Step k x r s h) in
    let full =
      views-is_empty t.db.users
        (names-is_empty us (views t.db.users) step (is_empty-views s.db.users e)) in
    names-run k rs t h full ∙ step
