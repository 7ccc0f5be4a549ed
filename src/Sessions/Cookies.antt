-- ===== src/Sessions/Cookies.antt =====
-- The session cookie of a request: `parseCookies` and `sessionKey` of admin-web/src/auth.js. The
-- decoding of a value (`decodeURIComponent`, `none` where it throws) and SHA-256 are arguments.
use Prim.Native.String.{String, ◌++◌ as ◌<>◌}
use Prim.Native.Char.{code}
use text.Mathlib.TextLemmas.{nil-append, cons-append}
use mqtt_trust_gateway.Base.{
  ℕ, ◌≡◌, refl, ap, ◌∙◌, Bool, true, false, not, Option, none, some, List, [], ◌∷◌, ◌++◌, ◌==◌,
  ◌===◌, if◌then◌else◌, codes, all, split_text, trim, lookup, insert, lookup-insert, dec_text,
  Bool-cases, inl, inr, ◌<◌, find?, Distinct, arith,
}
use mqtt_trust_gateway.Db.{Db, User}
use mqtt_trust_gateway.Sessions.{current_user, create_session}
use mqtt_trust_gateway.Sessions.Rotation.{current_user-create_session}

-- `part.indexOf('=')`: what stands before the sign and after it.
unfoldable pub cut : String → Option (String × String)
cut String.[] = none
cut (String.◌∷◌ c s) =
    let rest = cut s in
    if code c == b'='
    then some ("", s)
    else elim rest [ none ↦ none | some (name, value) ↦ some (String.◌∷◌ c name, value) ]

-- A part that has no name, or that does not decode, is left out.
unfoldable pub read_part :
    (decode : String → Option String) → String → List (String × String) → List (String × String)
read_part decode part found = elim (cut part) [
  | none ↦ found
  | some (name, value) ↦
      if name === ""
      then found
      else elim (decode value) [ none ↦ found | some text ↦ insert (trim name) text found ]
]

unfoldable pub read_parts :
    (decode : String → Option String)
    → List String
    → List (String × String)
    → List (String × String)
read_parts decode [] found = found
read_parts decode (part ∷ parts) found = read_parts decode parts (read_part decode part found)

unfoldable pub parse_cookies :
    (decode : String → Option String) → (header : String) → List (String × String)
parse_cookies decode header = read_parts decode (split_text b';' header) []

-- `sessionKey`
unfoldable pub session_key :
    (sha256 : String → String) (decode : String → Option String) (header : String) → String
session_key sha256 decode header = elim (lookup "admin_session" (parse_cookies decode header)) [
  | none ↦ sha256 ""
  | some token ↦ sha256 token
]

abbrev pub lacks : ℕ → String → Bool
lacks n s = all (λ c. not (c == n)) (codes s)

cut-append :
    (name value : String)
    → lacks b'=' name ≡ true
    → cut (name <> ("=" <> value)) ≡ some (name, value)
unfolding cut
cut-append String.[] value h =
    rw (nil-append ("=" <> value), cons-append "=" "" value, nil-append value) refl
cut-append (String.◌∷◌ c name) value h =
    rw (cons-append c name ("=" <> value)) (ground (arith, h, cut-append name value))

split_text-lacks : (n : ℕ) (s : String) → lacks n s ≡ true → split_text n s ≡ s ∷ []
split_text-lacks n String.[] h = refl
split_text-lacks n (String.◌∷◌ c s) h = ground (arith, h, split_text-lacks n s)

split_text-first :
    (n : ℕ) (s : String) → (t : String) × (ts : List String) × (split_text n s ≡ t ∷ ts)
split_text-first n String.[] = ("", [], refl)
split_text-first n (String.◌∷◌ c s) =
    let (t, ts, e) = split_text-first n s in
    elim (Bool-cases (code c == n)) [
      | inl b ↦ ("", split_text n s, ground (arith, b))
      | inr b ↦ (String.◌∷◌ c t, ts, ground (arith, b, e))
    ]

split_text-append :
    (before rest : String)
    → split_text b';' (before <> (";" <> rest)) ≡ split_text b';' before ++ split_text b';' rest
split_text-append String.[] rest =
    rw (nil-append (";" <> rest), cons-append ";" "" rest, nil-append rest) refl
split_text-append (String.◌∷◌ c before) rest =
    let (t, ts, e) = split_text-first b';' before in
    rw (cons-append c before (";" <> rest), split_text-append before rest, e)
      (elim (Bool-cases (code c == b';')) [ inl b ↦ rw b refl | inr b ↦ rw b refl ])

read_parts-append :
    (decode : String → Option String) (us vs : List String) (found : List (String × String))
    → read_parts decode (us ++ vs) found ≡ read_parts decode vs (read_parts decode us found)
unfolding read_parts
read_parts-append decode [] vs found = refl
read_parts-append decode (u ∷ us) vs found =
    read_parts-append decode us vs (read_part decode u found)

-- A part of the header with the name in the form that the trim leaves.
lookup-read_part :
    (decode : String → Option String) (name token : String) (found : List (String × String))
    → lacks b'=' name ≡ true
    → (name === "") ≡ false
    → decode token ≡ some token
    → lookup (trim name) (read_part decode (name <> ("=" <> token)) found) ≡ some token
unfolding read_part
lookup-read_part decode name token found free named same =
    rw (read_part, cut-append name token free, named, same)
      (ground (arith, lookup-insert (trim name) (trim name) token found))

-- The session cookie that a browser sends back after other cookies, whatever those are, names the
-- token that was put into it, as long as the token holds no semicolon and decodes to itself.
pub parse_cookies-session :
    (decode : String → Option String) (before token : String)
    → lacks b';' (" admin_session" <> ("=" <> token)) ≡ true
    → decode token ≡ some token
    → lookup "admin_session"
        (parse_cookies decode (before <> (";" <> (" admin_session" <> ("=" <> token)))))
      ≡ some token
unfolding parse_cookies read_parts dec_text
parse_cookies-session decode before token whole same =
    let part = " admin_session" <> ("=" <> token) in
    rw
      (
        parse_cookies,
        split_text-append before part,
        split_text-lacks b';' part whole,
        read_parts-append decode (split_text b';' before) (part ∷ []) [],
      )
      (lookup-read_part decode " admin_session" token
        (read_parts decode (split_text b';' before) []) refl refl same)

-- A session that is made for a token is found again by a request that sends the token back, after
-- whatever other cookies, at the time it was made: it signs its user in. The token holds no semicolon
-- and decodes to itself, the session length is positive, and no digest has two sessions.
pub current_user-session_key :
    (sha256 : String → String) (decode : String → Option String) (before token : String)
    (now hours : ℕ) (user_id : String) (db : Db)
    → lacks b';' (" admin_session" <> ("=" <> token)) ≡ true
    → decode token ≡ some token
    → Distinct db.sessions
    → 0 < hours
    → current_user now
        (session_key sha256 decode (before <> (";" <> (" admin_session" <> ("=" <> token)))))
        (create_session now hours user_id (sha256 token) db)
      ≡ find? (λ (u : User). u.id === user_id) db.users
unfolding session_key
current_user-session_key sha256 decode before token now hours user_id db whole same d h =
    let key = sha256 token in
    let made = current_user-create_session now hours user_id key key db d h in
    let own : (key === key) ≡ true = ground arith in
    rw (session_key, parse_cookies-session decode before token whole same)
      (made
        ∙ ap
            (λ b.
              if b
              then find? (λ (u : User). u.id === user_id) db.users
              else current_user now key db)
            own)
