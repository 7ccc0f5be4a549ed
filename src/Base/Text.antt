-- ===== src/Base/Text.antt =====
-- Texts: equality as a decision, and the code points that the regular expressions walk.
use Prim.Native.Nat.{ℕ, zero, suc, ◌≤◌}
use Prim.Native.Char.{Char, code}
use Prim.Native.String.{String}
use mathlib.Core.Path.{◌≡◌, refl}
use mathlib.Core.Bool.{Bool, true, false, ◌&&◌, ◌||◌}
use mathlib.Core.List.{List, [], ◌∷◌}
use native.Mathlib.Omega.{arith}
use text.Mathlib.Text.{◌==◌ as text_eq}
use text.Mathlib.TextEquality.{eq_iff}
use mqtt_trust_gateway.Base.Tests.{leb, ◌==◌, if◌then◌else◌}
use mqtt_trust_gateway.Base.Lists.{length}

-- `===` on texts, as a decision.
unfoldable pub dec_text : (s t : String) → Dec (s ≡ t)
dec_text s t = go (text_eq s t) refl
  where
    go : (b : Bool) → (text_eq s t) ≡ b → Dec (s ≡ t)
    go true e = yes ((eq_iff s t).0 e)
    go false e = no (λ p. cc ((eq_iff s t).1 p, e))

infix 50 ◌===◌
abbrev pub ◌===◌ : String → String → Bool
s === t = elim (dec_text s t) [ yes _ ↦ true | no _ ↦ false ]

-- The code points of a text.
abbrev pub codes : String → List ℕ
codes String.[] = []
codes (String.◌∷◌ c s) = code c ∷ codes s

-- `s.slice(0, n)`
abbrev pub take_text : ℕ → String → String
take_text zero s = String.[]
take_text (suc n) String.[] = String.[]
take_text (suc n) (String.◌∷◌ c s) = String.◌∷◌ c (take_text n s)

pub length-take_text-le : (n : ℕ) (s : String) → length (codes (take_text n s)) ≤ n
length-take_text-le zero s = omega arith
length-take_text-le (suc n) String.[] = omega arith
length-take_text-le (suc n) (String.◌∷◌ c s) = omega (arith, length-take_text-le n s)

-- `s.split(c)` for one character.
abbrev extend_first : Char → List String → List String
extend_first c [] = String.◌∷◌ c String.[] ∷ []
extend_first c (t ∷ ts) = String.◌∷◌ c t ∷ ts

abbrev pub split_text : ℕ → String → List String
split_text sep String.[] = String.[] ∷ []
split_text sep (String.◌∷◌ c s) =
    let rest = split_text sep s in if code c == sep then String.[] ∷ rest else extend_first c rest

-- White space as `trim` takes it away, among the first 256 characters.
abbrev pub is_space : ℕ → Bool
is_space c = (leb 9 c && leb c 13) || c == 32 || c == 160

abbrev pub trim_start : String → String
trim_start String.[] = String.[]
trim_start (String.◌∷◌ c s) =
    let rest = trim_start s in if is_space (code c) then rest else String.◌∷◌ c s

abbrev pub trim_end : String → String
trim_end String.[] = String.[]
trim_end (String.◌∷◌ c s) = elim (trim_end s) [
  | String.[] ↦ if is_space (code c) then String.[] else String.◌∷◌ c String.[]
  | String.◌∷◌ d t ↦ String.◌∷◌ c (String.◌∷◌ d t)
]

abbrev pub trim : String → String
trim s = trim_end (trim_start s)
