-- ===== src/Auth/Tests.antt =====
-- Token libraries in small: digests by concatenation, four characters to a character with two more and two
-- `=` at the end for base64, and a record printed field by field.
use Prim.Native.Char.{Char, code}
use Prim.Native.String.{◌++◌}
use Prim.Native.String.append
use text.Mathlib.TextEquality.{Char-path}
use incident_intelligence_pl.Prelude.{
  ℕ, zero, suc, ◌+◌, ◌%◌, ◌<◌, ◌≡◌, ◌⊎◌, inl, inr, refl, sym, subst, ◌≢◌, String, true, false,
  Option, none, some, Bool-cases, length, codes, ◌==◌, ltb, if◌then◌else◌, str_eq, eq_refl,
  starts_with, arith,
}
use incident_intelligence_pl.Failure.{ok, err, ◌>>=◌, invalid_token}
use incident_intelligence_pl.Database.{OperatorRole, viewer, operator, admin}
use incident_intelligence_pl.Schemas.{pos}
use incident_intelligence_pl.Auth.{OperatorClaims}
use incident_intelligence_pl.Auth.Tokens.{
  TokenPayload, aware, TokenLibrary, equals, valid_operator_id, issue_token, verify_token,
}
use incident_intelligence_pl.Auth.RoundTrip.{Plain, TokenLaws, verify_token-issue_token}
use incident_intelligence_pl.Auth.Signatures.{Signed, verify_token-Signed}

abbrev block : Char → Char → String → String
block a b s = String.◌∷◌ a (String.◌∷◌ b (String.◌∷◌ "!" (String.◌∷◌ "!" s)))

unfoldable escaped : String → String
escaped String.[] = "zz"
escaped (String.◌∷◌ c s) =
    let rest = escaped s in
    if code c == 46
    then block "!" "d" rest
    else if code c == 61
    then block "!" "e" rest
    else block "o" c rest

abbrev unescaped : Char → Char → Char
unescaped a b = if code a == 111 then b else if code b == 100 then "." else "="

abbrev before : Char → Option String → Option String
before c none = none
before c (some s) = some (String.◌∷◌ c s)

unfoldable unescape : String → Option String
unescape (String.◌∷◌ a (String.◌∷◌ b (String.◌∷◌ c (String.◌∷◌ d s)))) =
    let rest = before (unescaped a b) (unescape s) in if code a == 122 then some "" else rest
unescape _ = none

escaped-cases :
    (c : Char) (s : String)
    → ((c ≡ ".") × (escaped (String.◌∷◌ c s) ≡ block "!" "d" (escaped s)))
      ⊎ (((c ≡ "=") × (escaped (String.◌∷◌ c s) ≡ block "!" "e" (escaped s)))
          ⊎ ((code c ≢ 46) × (code c ≢ 61) × (escaped (String.◌∷◌ c s) ≡ block "o" c (escaped s))))
unfolding escaped
escaped-cases c s = elim (Bool-cases (code c == 46)) [
  | inl e ↦ inl (Char-path c "." (ground (arith, e)), rw e refl)
  | inr e ↦ elim (Bool-cases (code c == 61)) [
    | inl f ↦ inr (inl (Char-path c "=" (ground (arith, f)), rw (e, f) refl))
    | inr f ↦ inr (inr (λ p. ground (arith, e, p), λ p. ground (arith, f, p), rw (e, f) refl))
  ]
]

unescape-block :
    (a b : Char) (s : String)
    → unescape (block a b s ++ equals 2)
      ≡ (if code a == 122 then some "" else before (unescaped a b) (unescape (s ++ equals 2)))
unfolding unescape
unescape-block a b s =
    rw
      (
        append.cons a (String.◌∷◌ b (String.◌∷◌ "!" (String.◌∷◌ "!" s))) (equals 2),
        append.cons b (String.◌∷◌ "!" (String.◌∷◌ "!" s)) (equals 2),
        append.cons "!" (String.◌∷◌ "!" s) (equals 2),
        append.cons "!" s (equals 2),
      )
      refl

unescape-escaped : (s : String) → unescape (escaped s ++ equals 2) ≡ some s
unfolding escaped unescape equals
unescape-escaped String.[] = refl
unescape-escaped (String.◌∷◌ c s) = elim (escaped-cases c s) [
  | inl (p, e) ↦ rw (e, unescape-block "!" "d" (escaped s), unescape-escaped s, p) refl
  | inr (inl (p, e)) ↦ rw (e, unescape-block "!" "e" (escaped s), unescape-escaped s, p) refl
  | inr (inr (m, n, e)) ↦ rw (e, unescape-block "o" c (escaped s), unescape-escaped s) refl
]

plain : (n : ℕ) → (n == 46) ≡ false → (n == 61) ≡ false → (n ≢ 46) × (n ≢ 61)
plain n d e = (λ p. ground (arith, p, d), λ p. ground (arith, p, e))

Plain-block :
    (a b : Char) (s : String)
    → (code a ≢ 46) × (code a ≢ 61)
    → (code b ≢ 46) × (code b ≢ 61)
    → Plain s
    → Plain (block a b s)
Plain-block a b s p q r = (p, (q, (plain 33 refl refl, (plain 33 refl refl, r))))

escaped-Plain : (s : String) → Plain (escaped s)
unfolding escaped
escaped-Plain String.[] = (plain 122 refl refl, (plain 122 refl refl, tt))
escaped-Plain (String.◌∷◌ c s) = elim (escaped-cases c s) [
  | inl (p, e) ↦
      subst Plain (sym e) (
        Plain-block "!" "d" (escaped s) (plain 33 refl refl) (plain 100 refl refl)
          (escaped-Plain s))
  | inr (inl (p, e)) ↦
      subst Plain (sym e) (
        Plain-block "!" "e" (escaped s) (plain 33 refl refl) (plain 101 refl refl)
          (escaped-Plain s))
  | inr (inr (m, n, e)) ↦
      subst Plain (sym e)
        (Plain-block "o" c (escaped s) (plain 111 refl refl) (m, n) (escaped-Plain s))
]

length-escaped : (s : String) → (length (codes (escaped s)) + 2) % 4 ≡ 0
unfolding escaped
length-escaped String.[] = refl
length-escaped (String.◌∷◌ c s) = elim (escaped-cases c s) [
  | inl (p, e) ↦ rw e (omega (arith, length-escaped s))
  | inr (inl (p, e)) ↦ rw e (omega (arith, length-escaped s))
  | inr (inr (m, n, e)) ↦ rw e (omega (arith, length-escaped s))
]

abbrev letter : OperatorRole → Char
letter viewer = "v"
letter operator = "o"
letter admin = "a"

abbrev role_of : Char → OperatorRole
role_of c = if code c == 118 then viewer else if code c == 111 then operator else admin

unfoldable counted : ℕ → String → String
counted zero s = String.◌∷◌ "|" s
counted (suc n) s = String.◌∷◌ "x" (counted n s)

abbrev one_more : Option (ℕ × String) → Option (ℕ × String)
one_more none = none
one_more (some (n, s)) = some (suc n, s)

unfoldable count : String → Option (ℕ × String)
count String.[] = none
count (String.◌∷◌ c s) =
    let more = one_more (count s) in if code c == 120 then more else some (0, s)

count-counted : (n : ℕ) (s : String) → count (counted n s) ≡ some (n, s)
unfolding counted count
count-counted zero s = refl
count-counted (suc n) s = rw (count-counted n s) refl

abbrev print : TokenPayload → String
print p = String.◌∷◌ (letter p.role) (counted p.expires_at p.operator_id)

abbrev checked : TokenPayload → Option TokenPayload
checked p = if valid_operator_id p.operator_id then some p else none

abbrev read_rest : OperatorRole → Option (ℕ × String) → Option TokenPayload
read_rest role none = none
read_rest role (some (n, s)) = checked record { operator_id = s; role = role; expires_at = n }

abbrev read : String → Option TokenPayload
read String.[] = none
read (String.◌∷◌ c s) = read_rest (role_of c) (count s)

abbrev small : TokenLibrary
small = record {
  Bytes = String;
  encode = λ s. s;
  decode = some;
  hmac_sha256 = λ key message. key ++ message;
  compare_digest = str_eq;
  urlsafe_b64encode = λ b. escaped b ++ equals 2;
  b64decode = unescape;
  dumps = print;
  model_validate_json = read;
}

role_of-letter : (r : OperatorRole) → role_of (letter r) ≡ r
role_of-letter viewer = refl
role_of-letter operator = refl
role_of-letter admin = refl

small-TokenLaws : TokenLaws small
small-TokenLaws = record {
  decode-encode = λ s. refl;
  b64decode-encode = unescape-escaped;
  padded = λ b. (escaped b, 2, escaped-Plain b, omega arith, length-escaped b, refl);
  compare_refl = eq_refl;
  validate-dumps =
      λ p valid. rw (count-counted p.expires_at p.operator_id, role_of-letter p.role, valid) refl;
}

abbrev operator_claims : OperatorClaims
operator_claims = record { operator_id = "synthetic-operator-1"; role = operator }

abbrev secret : String
secret = "0123456789abcdef0123456789abcdef"

valid_id : valid_operator_id "synthetic-operator-1" ≡ true
unfolding valid_operator_id starts_with
valid_id = refl

verify_token-issue_token_example :
    (issue_token small operator_claims secret (aware 1000) (pos 900) >>= λ token.
    verify_token small token secret (aware 1899))
    ≡ (if ltb 1899 1900 then ok operator_claims else err invalid_token)
verify_token-issue_token_example =
    verify_token-issue_token small small-TokenLaws operator_claims secret 1000 900 1899 valid_id
      (omega arith) (omega arith) (omega arith)

verify_token-Signed_example :
    (verify_token small "vx|synthetic-operator-1.signature" secret (aware 0) ≡ err invalid_token)
    ⊎ ((payload : TokenPayload) × Signed small "vx|synthetic-operator-1.signature" secret payload
        × (0 < payload.expires_at)
        × (verify_token small "vx|synthetic-operator-1.signature" secret (aware 0)
            ≡ ok record { operator_id = payload.operator_id; role = payload.role }))
verify_token-Signed_example =
    verify_token-Signed small "vx|synthetic-operator-1.signature" secret 0 (omega arith)
