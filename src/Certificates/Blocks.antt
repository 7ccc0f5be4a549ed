-- ===== src/Certificates/Blocks.antt =====
-- A chain of certificates that was joined reads back as the same blocks.
use Prim.Native.Nat.{zero, suc}
use Prim.Native.String.{String, ◌++◌ as ◌<>◌}
use Prim.Native.Char.{Char, code}
use text.Mathlib.TextEquality.{Char-path}
use text.Mathlib.TextLemmas.{nil-append, cons-append, append-nil, append_assoc}
use mqtt_trust_gateway.Base.{
  ℕ, ◌+◌, ◌≤◌, ◌≡◌, refl, sym, ap, ◌∙◌, subst, Option, none, some, List, [], ◌∷◌, ◌==◌, codes,
  length, All, Option-cases, Bool-cases, inl, inr, arith,
}
use mqtt_trust_gateway.Certificates.Pem.{
  begin_line, end_line, strip_prefix, read_block, pem_blocks, pem_certificates, join_lines,
}

size-append : (s t : String) → length (codes (s <> t)) ≡ length (codes s) + length (codes t)
size-append String.[] t = rw (nil-append t) (omega arith)
size-append (String.◌∷◌ c s) t = rw (cons-append c s t) (omega (arith, size-append s t))

strip_prefix-append : (p t : String) → strip_prefix p (p <> t) ≡ some t
unfolding strip_prefix
strip_prefix-append String.[] t = rw (nil-append t) refl
strip_prefix-append (String.◌∷◌ q p) t =
    rw (cons-append q p t) (ground (arith, strip_prefix-append p t))

-- Without a prefix, it is that of the part that is long enough which lacks it.
strip_prefix-short :
    (p u t t' : String)
    → length (codes p) ≤ length (codes u)
    → strip_prefix p (u <> t) ≡ none
    → strip_prefix p (u <> t') ≡ none
unfolding strip_prefix
strip_prefix-short String.[] u t t' le h = absurd (ground (arith, h))
strip_prefix-short (String.◌∷◌ q p) String.[] t t' le h = absurd (omega (arith, le))
strip_prefix-short (String.◌∷◌ q p) (String.◌∷◌ c u) t t' le h =
    rw (cons-append c u t') (elim (Bool-cases (code q == code c)) [
      | inr other ↦ ground (arith, other)
      | inl same ↦
          let h' : strip_prefix p (u <> t) ≡ none =
            ground (arith, same, rw (cons-append c u t) at h) in
          ground (arith, same, strip_prefix-short p u t t' (omega (arith, le)) h')
    ])

-- A text that is read as one body, whatever follows it.
abbrev IsBody : String → Type 0
IsBody b = (t : String) → read_block (b <> t) ≡ some (b, t)

read_block-end :
    (s left : String) → strip_prefix end_line s ≡ some left → read_block s ≡ some (end_line, left)
unfolding read_block strip_prefix
read_block-end String.[] left h = absurd (ground (arith, h))
read_block-end (String.◌∷◌ c s) left h = rw (read_block, h) refl

strip_prefix_sound : (p s t : String) → strip_prefix p s ≡ some t → s ≡ p <> t
unfolding strip_prefix
strip_prefix_sound String.[] s t h = rw (nil-append t) (ground (arith, h))
strip_prefix_sound (String.◌∷◌ q p) String.[] t h = absurd (ground (arith, h))
strip_prefix_sound (String.◌∷◌ q p) (String.◌∷◌ c s) t h = elim (Bool-cases (code q == code c)) [
  | inr other ↦ absurd (ground (arith, other, h))
  | inl equal ↦
      let here : c ≡ q = Char-path c q (ground (arith, equal)) in
      let rest : s ≡ p <> t = strip_prefix_sound p s t (ground (arith, equal, h)) in
      rw (cons-append q p t, here, rest) refl
]

abbrev IsRead : String → Option (String × String) → Type 0
IsRead s none = Unit
IsRead s (some (b, left)) =
    (s ≡ b <> left) × IsBody b × (length (codes end_line) ≤ length (codes b))

abbrev push : Char → Option (String × String) → Option (String × String)
push c none = none
push c (some (b, left)) = some (String.◌∷◌ c b, left)

read_block-next :
    (c : Char) (s : String)
    → strip_prefix end_line (String.◌∷◌ c s) ≡ none
    → read_block (String.◌∷◌ c s) ≡ push c (read_block s)
unfolding read_block
read_block-next c s h = elim (Option-cases (read_block s)) [
  | inl e ↦ rw (read_block, h, e) refl
  | inr ((b, left), e) ↦ rw (read_block, h, e) refl
]

-- One more character before a body that does not begin the end.
push-IsRead :
    (c : Char) (s : String) (o : Option (String × String))
    → strip_prefix end_line (String.◌∷◌ c s) ≡ none
    → IsRead s o
    → IsRead (String.◌∷◌ c s) (push c o)
push-IsRead c s none h r = tt
push-IsRead c s (some (b, left)) h (whole, body, le) =
    let here : String.◌∷◌ c s ≡ String.◌∷◌ c b <> left = rw (cons-append c b left, whole) refl in
    let none_at : strip_prefix end_line (String.◌∷◌ c b <> left) ≡ none = rw⁻¹ here h in
    let reads : IsBody (String.◌∷◌ c b) = λ t.
      let later : strip_prefix end_line (String.◌∷◌ c (b <> t)) ≡ none =
        rw⁻¹ (cons-append c b t)
          (strip_prefix-short end_line (String.◌∷◌ c b) left t (omega (arith, le)) none_at) in
      rw (cons-append c b t, read_block-next c (b <> t) later, body t) refl in
    (here, reads, omega (arith, le))

read_block-IsRead : (s : String) → IsRead s (read_block s)
unfolding read_block
read_block-IsRead String.[] = tt
read_block-IsRead (String.◌∷◌ c s) = elim (Option-cases (strip_prefix end_line (String.◌∷◌ c s))) [
  | inr (left, e) ↦ subst (IsRead (String.◌∷◌ c s)) (sym (read_block-end (String.◌∷◌ c s) left e)) (
    strip_prefix_sound end_line (String.◌∷◌ c s) left e,
    λ t. read_block-end (end_line <> t) t (strip_prefix-append end_line t),
    omega arith,
  )
  | inl e ↦
      subst (IsRead (String.◌∷◌ c s)) (sym (read_block-next c s e))
        (push-IsRead c s (read_block s) e (read_block-IsRead s))
]

-- A block, as an import takes it from a text.
abbrev IsBlock : String → Type 0
IsBlock b = (body : String) × (b ≡ begin_line <> body) × IsBody body

pem_blocks-end :
    (n : ℕ) (s inner body left : String)
    → strip_prefix begin_line s ≡ some inner
    → read_block inner ≡ some (body, left)
    → pem_blocks (suc n) s ≡ (begin_line <> body) ∷ pem_blocks n left
unfolding pem_blocks strip_prefix
pem_blocks-end n String.[] inner body left h k = absurd (ground (arith, h))
pem_blocks-end n (String.◌∷◌ c s) inner body left h k = rw (pem_blocks, h, k) refl

pem_blocks-All : (n : ℕ) (s : String) → All IsBlock (pem_blocks n s)
unfolding pem_blocks
pem_blocks-All zero s = tt
pem_blocks-All (suc n) String.[] = tt
pem_blocks-All (suc n) (String.◌∷◌ c s) =
    elim (Option-cases (strip_prefix begin_line (String.◌∷◌ c s))) [
      | inl e ↦ rw (pem_blocks, e) (pem_blocks-All n s)
      | inr (inner, e) ↦ elim (Option-cases (read_block inner)) [
        | inl k ↦ rw (pem_blocks, e, k) (pem_blocks-All n s)
        | inr ((body, left), k) ↦
            let read = subst (IsRead inner) k (read_block-IsRead inner) in
            rw (pem_blocks, e, k) ((body, refl, read.1), pem_blocks-All n left)
      ]
    ]

pem_blocks-none : (n : ℕ) → pem_blocks n "" ≡ []
unfolding pem_blocks
pem_blocks-none zero = refl
pem_blocks-none (suc n) = refl

pem_blocks-line : (n : ℕ) (s : String) → pem_blocks (suc n) ("\n" <> s) ≡ pem_blocks n s
unfolding pem_blocks strip_prefix
pem_blocks-line n s = rw (cons-append "\n" "" s, nil-append s) refl

-- A block, with what follows it.
pem_blocks-block :
    (n : ℕ) (b t : String) → IsBlock b → pem_blocks (suc n) (b <> t) ≡ b ∷ pem_blocks n t
pem_blocks-block n b t (body, e, reads) =
    rw (e, append_assoc begin_line body t)
      (pem_blocks-end n (begin_line <> (body <> t)) (body <> t) body t
        (strip_prefix-append begin_line (body <> t)) (reads t))

-- The fuel that blocks need: one step for each and one for each line break.
pem_blocks-join :
    (bs : List String) (n : ℕ)
    → All IsBlock bs
    → length bs + length bs ≤ n
    → pem_blocks n (join_lines bs) ≡ bs
unfolding join_lines
pem_blocks-join [] n h le = pem_blocks-none n
pem_blocks-join (b ∷ bs) zero h le = absurd (omega (arith, le))
pem_blocks-join (b ∷ []) (suc n) (h, _) le =
    ap (pem_blocks (suc n)) (sym (append-nil b))
    ∙ pem_blocks-block n b "" h
    ∙ ap (λ rest. b ∷ rest) (pem_blocks-none n)
pem_blocks-join (b ∷ d ∷ bs) (suc zero) h le = absurd (omega (arith, le))
pem_blocks-join (b ∷ d ∷ bs) (suc (suc n)) (h, k) le =
    pem_blocks-block (suc n) b ("\n" <> join_lines (d ∷ bs)) h
    ∙ ap (λ rest. b ∷ rest)
        (pem_blocks-line n (join_lines (d ∷ bs)) ∙ pem_blocks-join (d ∷ bs) n k (omega (arith, le)))

-- A joined list of blocks is long enough to be fuel.
join_lines-long :
    (bs : List String) → All IsBlock bs → length bs + length bs ≤ length (codes (join_lines bs))
unfolding join_lines
join_lines-long [] h = omega arith
join_lines-long (b ∷ []) ((body, e, _), _) = rw e (rw (size-append begin_line body) (omega arith))
join_lines-long (b ∷ d ∷ bs) ((body, e, _), k) =
    let rest = join_lines (d ∷ bs) in
    rw (size-append b ("\n" <> rest), size-append "\n" rest)
      (rw e (rw (size-append begin_line body) (omega (arith, join_lines-long (d ∷ bs) k))))

-- Whatever a text holds, the chain that is stored for it reads back as the certificates that were read
-- from it.
pub pem_certificates-join_lines :
    (s : String) → pem_certificates (join_lines (pem_certificates s)) ≡ pem_certificates s
unfolding pem_certificates
pem_certificates-join_lines s =
    let bs = pem_blocks (length (codes s)) s in
    let blocks = pem_blocks-All (length (codes s)) s in
    pem_blocks-join bs (length (codes (join_lines bs))) blocks (join_lines-long bs blocks)
