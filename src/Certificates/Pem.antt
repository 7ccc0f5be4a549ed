-- ===== src/Certificates/Pem.antt =====
-- The PEM blocks of a text: `pemCertificates` of admin-web/src/services/certificate-service.js.
use Prim.Native.Nat.{zero, suc}
use Prim.Native.String.{String, ◌++◌ as ◌<>◌}
use Prim.Native.Char.{code}
use mqtt_trust_gateway.Base.{
  ℕ, Option, none, some, List, [], ◌∷◌, ◌==◌, if◌then◌else◌, codes, length,
}

abbrev pub begin_line : String
begin_line = "-----BEGIN CERTIFICATE-----"

abbrev pub end_line : String
end_line = "-----END CERTIFICATE-----"

-- What follows a prefix.
unfoldable pub strip_prefix : String → String → Option String
strip_prefix String.[] s = some s
strip_prefix (String.◌∷◌ p ps) String.[] = none
strip_prefix (String.◌∷◌ p ps) (String.◌∷◌ c s) =
    let rest = strip_prefix ps s in if code p == code c then rest else none

-- `[\s\S]*?` and the end line, and what follows the first one.
unfoldable pub read_block : String → Option (String × String)
unfolding strip_prefix
read_block String.[] = none
read_block (String.◌∷◌ c s) =
    let rest = read_block s in
    elim (strip_prefix end_line (String.◌∷◌ c s)) [
      | some left ↦ some (end_line, left)
      | none ↦ elim rest [ none ↦ none | some (body, left) ↦ some (String.◌∷◌ c body, left) ]
    ]

-- Every match of the global expression, on fuel: a step takes a character at least.
unfoldable pub pem_blocks : ℕ → String → List String
unfolding strip_prefix read_block
pem_blocks zero s = []
pem_blocks (suc n) String.[] = []
pem_blocks (suc n) (String.◌∷◌ c s) =
    let next = pem_blocks n s in
    elim (strip_prefix begin_line (String.◌∷◌ c s)) [
      | none ↦ next
      | some inner ↦ elim (read_block inner) [
        | none ↦ next
        | some (body, left) ↦ (begin_line <> body) ∷ pem_blocks n left
      ]
    ]

unfoldable pub pem_certificates : String → List String
pem_certificates s = pem_blocks (length (codes s)) s

-- `….join('\n')`
unfoldable pub join_lines : List String → String
join_lines [] = ""
join_lines (s ∷ []) = s
join_lines (s ∷ t ∷ ts) = s <> "\n" <> join_lines (t ∷ ts)
