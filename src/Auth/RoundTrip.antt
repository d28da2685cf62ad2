-- ===== src/Auth/RoundTrip.antt =====
-- What a token says when it is verified.
use Prim.Native.Char.{code}
use Prim.Native.String.{◌++◌}
use Prim.Native.String.append
use incident_intelligence_pl.Prelude.{
  ℕ, zero, suc, ◌+◌, ◌-◌, ◌%◌, ◌≤◌, ◌<◌, ◌≡◌, ◌≢◌, refl, sym, ap, ◌∙◌, String, Bool, true, false,
  some, All, length, codes, leb, ltb, ◌==◌, ◌&&◌, if◌then◌else◌, arith,
}
use incident_intelligence_pl.Failure.{invalid_token, ok, err, ◌>>=◌, ◌>>◌, require}
use incident_intelligence_pl.Schemas.{pos}
use incident_intelligence_pl.Auth.{OperatorClaims}
use incident_intelligence_pl.Auth.Tokens.{
  TokenPayload, aware, TokenLibrary, valid_operator_id, validate_secret, rstrip_equals, is_empty,
  equals, split_at_dot, valid_ttl, encode_bytes, encode_text, decode_bytes, decode_text, sign,
  issue_token, read_payload, verify_token,
}

-- Neither `.` nor `=` stands in the text.
abbrev pub Plain : String → Type 0
Plain s = All (λ c. (c ≢ 46) × (c ≢ 61)) (codes s)

-- What is documented of the libraries: UTF-8 decodes what it encodes; base64 decodes what it encodes, to
-- which it gives a length divisible by 4 with at most three `=`, all of them at the end, and no dot;
-- equal digests compare equal; JSON and pydantic read back a valid payload.
pub record TokenLaws (lib : TokenLibrary) : Type 0 where
  pub decode-encode : (s : String) → lib.decode (lib.encode s) ≡ some s
  pub b64decode-encode : (b : lib.Bytes) → lib.b64decode (lib.urlsafe_b64encode b) ≡ some b
  pub padded :
      (b : lib.Bytes)
      → (s : String) × (k : ℕ) × Plain s
        × (k ≤ 3)
        × ((length (codes s) + k) % 4 ≡ 0)
        × (lib.urlsafe_b64encode b ≡ s ++ equals k)
  pub compare_refl : (b : lib.Bytes) → lib.compare_digest b b ≡ true
  pub validate-dumps :
      (p : TokenPayload)
      → valid_operator_id p.operator_id ≡ true
      → lib.model_validate_json (lib.dumps p) ≡ some p

rstrip_equals-equals : (k : ℕ) → rstrip_equals (equals k) ≡ ""
unfolding rstrip_equals equals
rstrip_equals-equals zero = refl
rstrip_equals-equals (suc k) =
    rw (append.cons "=" "" (equals k), append.nil (equals k), rstrip_equals-equals k) refl

pub rstrip_equals-Plain : (s : String) (k : ℕ) → Plain s → rstrip_equals (s ++ equals k) ≡ s
unfolding rstrip_equals
rstrip_equals-Plain String.[] k p = rw (append.nil (equals k), rstrip_equals-equals k) refl
rstrip_equals-Plain (String.◌∷◌ c s) k p =
    rw (append.cons c s (equals k), rstrip_equals-Plain s k p.1) (kept (is_empty s) (p.0.1))
  where
    kept :
        (b : Bool)
        → (code c ≢ 61)
        → (if b && code c == 61 then "" else String.◌∷◌ c s) ≡ String.◌∷◌ c s
    kept b n = ground (arith, n)

split_at_dot-Plain : (s t : String) → Plain s → split_at_dot (s ++ ("." ++ t)) ≡ some (s, t)
unfolding split_at_dot
split_at_dot-Plain String.[] t p =
    rw (append.nil ("." ++ t), append.cons "." "" t, append.nil t) refl
split_at_dot-Plain (String.◌∷◌ c s) t p =
    rw (append.cons c s ("." ++ t), split_at_dot-Plain s t p.1, no_dot) refl
  where
    no_dot : (code c == 46) ≡ false
    no_dot = ground (arith, p.0.0)

module _ (lib : TokenLibrary) (laws : TokenLaws lib) where
  encode_bytes-Plain : (b : lib.Bytes) → Plain (encode_bytes lib b)
  unfolding encode_bytes
  encode_bytes-Plain b =
      let (s, k, p, le, m, e) = laws.padded b in rw (e, rstrip_equals-Plain s k p) p

  decode-encode_bytes : (b : lib.Bytes) → decode_bytes lib (encode_bytes lib b) ≡ some b
  unfolding encode_bytes decode_bytes
  decode-encode_bytes b =
      let (s, k, p, le, m, e) = laws.padded b in
      let shown : encode_bytes lib b ≡ s = ap rstrip_equals e ∙ rstrip_equals-Plain s k p in
      ap (decode_bytes lib) shown
      ∙ restored s k le m
      ∙ ap lib.b64decode (sym e)
      ∙ laws.b64decode-encode b
    where
      restored :
          (s : String) (k : ℕ)
          → k ≤ 3
          → (length (codes s) + k) % 4 ≡ 0
          → decode_bytes lib s ≡ lib.b64decode (s ++ equals k)
      restored s k le m =
          let same : ((4 - length (codes s) % 4) % 4) ≡ k = omega (arith, le, m) in
          ap (λ n. lib.b64decode (s ++ equals n)) same

  decode-encode_text : (s : String) → decode_text lib (encode_text lib s) ≡ ok s
  unfolding encode_text decode_text
  decode-encode_text s = rw (decode-encode_bytes (lib.encode s), laws.decode-encode s) refl

  -- A token is read back as the payload it was issued for, under the same secret.
  read_payload-issued :
      (payload : TokenPayload) (secret : String)
      → valid_operator_id payload.operator_id ≡ true
      → read_payload lib
          (encode_text lib (lib.dumps payload)
            ++ ("." ++ encode_bytes lib (sign lib secret (encode_text lib (lib.dumps payload)))))
          secret
        ≡ ok payload
  unfolding read_payload encode_text
  read_payload-issued payload secret valid =
      rw
        (
          split_at_dot-Plain (encode_text lib (lib.dumps payload))
              (encode_bytes lib (sign lib secret (encode_text lib (lib.dumps payload))))
              (encode_bytes-Plain (lib.encode (lib.dumps payload))),
          decode-encode_bytes (sign lib secret (encode_text lib (lib.dumps payload))),
          laws.compare_refl (sign lib secret (encode_text lib (lib.dumps payload))),
          decode-encode_text (lib.dumps payload),
          laws.validate-dumps payload valid,
        )
        refl

pub secret-accepted :
    (secret : String) → 32 ≤ length (codes secret) → validate_secret secret ≡ ok tt
unfolding validate_secret
secret-accepted secret le =
    let long : leb 32 (length (codes secret)) ≡ true = ground (arith, le) in rw long refl

ttl-accepted : (ttl : ℕ) → 0 < ttl → ttl ≤ 3600000000 → valid_ttl (pos ttl) ≡ true
unfolding valid_ttl
ttl-accepted ttl lo hi = ground (arith, lo, hi)

-- A token issued to an operator with a valid identifier, under a secret of at least 32 characters, for
-- at most an hour, is verified under that secret as the same claims until it expires, and is an invalid
-- token from then on.
pub verify_token-issue_token :
    (lib : TokenLibrary)
    → TokenLaws lib
    → (claims : OperatorClaims) (secret : String) (now ttl t : ℕ)
    → valid_operator_id claims.operator_id ≡ true
    → 32 ≤ length (codes secret)
    → 0 < ttl
    → ttl ≤ 3600000000
    → (issue_token lib claims secret (aware now) (pos ttl) >>= λ token.
        verify_token lib token secret (aware t))
      ≡ (if ltb t (now + ttl) then ok claims else err invalid_token)
unfolding issue_token verify_token
verify_token-issue_token lib laws claims secret now ttl t valid long lo hi =
    let payload : TokenPayload = record {
      operator_id = claims.operator_id;
      role = claims.role;
      expires_at = now + ttl;
    } in
    rw
      (
        secret-accepted secret long,
        ttl-accepted ttl lo hi,
        valid,
        read_payload-issued lib laws payload secret valid,
      )
      (expiry (ltb t (now + ttl)))
  where
    expiry :
        (b : Bool)
        → (require b invalid_token >> ok claims) ≡ (if b then ok claims else err invalid_token)
    expiry true = refl
    expiry false = refl
