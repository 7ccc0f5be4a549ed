-- ===== src/Releases.antt =====
-- Releases: the versions, the checks of a signed manifest and the choice of a release in
-- admin-web/src/services/system-updates.js. A text is its list of code points; a number of a version is
-- read exactly.
pub mod Choice
pub mod Selection
pub mod Signing
pub mod Cache
mod Trusted
mod Offers
mod Tests
use mqtt_trust_gateway.Base.{
  ℕ, ◌+◌, ◌-◌, ◌*◌, Bool, true, false, ◌&&◌, ◌||◌, not, Option, none, some, List, [], ◌∷◌, ◌++◌,
  leb, ltb, ◌==◌, if◌then◌else◌, all, any, filter, map, Result, ok, err,
}

pub record SemVer : Type 0 where
  pub major : ℕ
  pub minor : ℕ
  pub patch : ℕ
  pub prerelease : List (List ℕ)

abbrev pub is_digit : ℕ → Bool
is_digit c = leb b'0' c && leb c b'9'

-- /[0-9A-Za-z.-]/
abbrev pub is_tag_char : ℕ → Bool
is_tag_char c =
    is_digit c || (leb b'A' c && leb c b'Z') || (leb b'a' c && leb c b'z') || c == b'.' || c == b'-'

abbrev pub is_empty {ℓ} : {A : Type ℓ} → List A → Bool
is_empty [] = true
is_empty (x ∷ xs) = false

-- The longest start of characters that pass, and the rest.
unfoldable pub span : (ℕ → Bool) → List ℕ → List ℕ × List ℕ
span p [] = ([], [])
span p (c ∷ cs) = let r = span p cs in if p c then (c ∷ r.0, r.1) else ([], c ∷ cs)

abbrev pub decimal : ℕ → List ℕ → ℕ
decimal acc [] = acc
decimal acc (c ∷ cs) = decimal (acc * 10 + (c - b'0')) cs

-- `0|[1-9]\d*`
abbrev pub plain_number : List ℕ → Bool
plain_number [] = false
plain_number (c ∷ []) = true
plain_number (c ∷ d ∷ ds) = not (c == b'0')

-- A number and the rest after it.
unfoldable pub number : List ℕ → Option (ℕ × List ℕ)
number cs = let r = span is_digit cs in if plain_number r.0 then some (decimal 0 r.0, r.1) else none

abbrev pub after_dot : List ℕ → Option (List ℕ)
after_dot [] = none
after_dot (c ∷ cs) = if c == b'.' then some cs else none

abbrev extend_first : ℕ → List (List ℕ) → List (List ℕ)
extend_first c [] = (c ∷ []) ∷ []
extend_first c (p ∷ ps) = (c ∷ p) ∷ ps

abbrev pub split_dots : List ℕ → List (List ℕ)
split_dots [] = [] ∷ []
split_dots (c ∷ cs) =
    let rest = split_dots cs in if c == b'.' then [] ∷ rest else extend_first c rest

abbrev pub is_numeric : List ℕ → Bool
is_numeric p = not (is_empty p) && all is_digit p

-- An identifier that the parser refuses: an empty one, or a number that starts with zero.
abbrev pub bad_part : List ℕ → Bool
bad_part p = is_empty p || (is_numeric p && not (plain_number p))

-- `(?:\+[0-9A-Za-z.-]+)?$`
abbrev pub is_build : List ℕ → Bool
is_build [] = true
is_build (c ∷ cs) = (c == b'+') && not (is_empty cs) && all is_tag_char cs

-- The identifiers before the build, or `none` where the end of the text does not match.
unfoldable pub prerelease_of : List ℕ → Option (List (List ℕ))
prerelease_of [] = some []
prerelease_of (c ∷ cs) =
    let r = span is_tag_char cs in
    if c == b'-'
    then (if is_empty r.0 || not (is_build r.1) then none else some (split_dots r.0))
    else (if is_build (c ∷ cs) then some [] else none)

abbrev pub without_v : List ℕ → List ℕ
without_v [] = []
without_v (c ∷ cs) = if c == b'v' then cs else c ∷ cs

abbrev pub then_some {ℓ κ} : {A : Type ℓ} {B : Type κ} → Option A → (A → Option B) → Option B
then_some none f = none
then_some (some a) f = f a

-- `parseSemVer`
unfoldable pub parse_sem_ver : List ℕ → Option SemVer
parse_sem_ver text = then_some (number (without_v text)) λ major.
    then_some (after_dot major.1) λ rest. then_some (number rest) λ minor.
      then_some (after_dot minor.1) λ rest'. then_some (number rest') λ patch.
        then_some (prerelease_of patch.1) λ parts.
          if any bad_part parts
          then none
          else some
              (record { major = major.0; minor = minor.0; patch = patch.0; prerelease = parts })

-- the sign of a comparison
pub data Sign : Type 0 where
  less same greater : Sign

abbrev pub sign_of : ℕ → ℕ → Sign
sign_of a b = if ltb a b then less else if ltb b a then greater else same

abbrev pub same_codes : List ℕ → List ℕ → Bool
same_codes [] [] = true
same_codes (c ∷ cs) (d ∷ ds) = (c == d) && same_codes cs ds
same_codes _ _ = false

abbrev pub codes_below : List ℕ → List ℕ → Bool
codes_below [] [] = false
codes_below [] (d ∷ ds) = true
codes_below (c ∷ cs) [] = false
codes_below (c ∷ cs) (d ∷ ds) =
    let rest = codes_below cs ds in if ltb c d then true else if ltb d c then false else rest

-- Two identifiers that differ.
abbrev pub compare_part : List ℕ → List ℕ → Sign
compare_part a b =
    if is_numeric a && is_numeric b
    then (if ltb (decimal 0 a) (decimal 0 b) then less else greater)
    else if is_numeric a
    then less
    else if is_numeric b
    then greater
    else if codes_below a b
    then less
    else greater

unfoldable pub compare_parts : List (List ℕ) → List (List ℕ) → Sign
compare_parts [] [] = same
compare_parts [] (b ∷ bs) = less
compare_parts (a ∷ as') [] = greater
compare_parts (a ∷ as') (b ∷ bs) =
    let rest = compare_parts as' bs in if same_codes a b then rest else compare_part a b

-- A version without identifiers comes after those with some.
abbrev pub compare_prerelease : List (List ℕ) → List (List ℕ) → Sign
compare_prerelease [] [] = same
compare_prerelease [] (b ∷ bs) = greater
compare_prerelease (a ∷ as') [] = less
compare_prerelease (a ∷ as') (b ∷ bs) = compare_parts (a ∷ as') (b ∷ bs)

abbrev pub or_then : Sign → Sign → Sign
or_then same s = s
or_then less s = less
or_then greater s = greater

-- `compareSemVer`, of parsed versions
unfoldable pub compare_sem_ver : SemVer → SemVer → Sign
compare_sem_ver a b = or_then (sign_of a.major b.major) (
    or_then (sign_of a.minor b.minor)
      (or_then (sign_of a.patch b.patch) (compare_prerelease a.prerelease b.prerelease)))

abbrev pub is_greater : Sign → Bool
is_greater greater = true
is_greater _ = false

abbrev pub is_less : Sign → Bool
is_less less = true
is_less _ = false
