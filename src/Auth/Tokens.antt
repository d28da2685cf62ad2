-- ===== src/Auth/Tokens.antt =====
-- auth.py: operator tokens. Python's `hmac`, `base64`, UTF-8, and JSON with pydantic's validation are
-- the operations of a `TokenLibrary`. A time zone is present or missing; instants are microseconds.
use incident_intelligence_pl.Prelude.{
  ℕ, zero, suc, ◌+◌, ◌-◌, ◌%◌, String, Bool, true, false, Option, none, some, List, [], ◌∷◌, length,
  codes, leb, ltb, ◌==◌, ◌&&◌, ◌||◌, if◌then◌else◌, starts_with,
}
use Prim.Native.Char.{Char, code}
use Prim.Native.String.{◌++◌}
use incident_intelligence_pl.Failure.{
  Failure, value_error, value_error_with, invalid_token, other_error, Result, ok, err, ◌>>=◌, ◌>>◌,
  require,
}
use incident_intelligence_pl.Database.{OperatorRole}
use incident_intelligence_pl.Schemas.{ℤ, pos, negsuc}
use incident_intelligence_pl.Auth.{OperatorClaims}

-- `_TokenPayload`
pub record TokenPayload : Type 0 where
  pub operator_id : String
  pub role : OperatorRole
  pub expires_at : ℕ

-- A `datetime` in UTC, or one without a time zone.
pub data Moment : Type 0 where
  aware : ℕ → Moment
  naive : Moment

pub record TokenLibrary : Type 1 where
  pub Bytes : Type 0
  -- `str.encode()`, and `bytes.decode("utf-8")`
  pub encode : String → Bytes
  pub decode : Bytes → Option String
  -- `hmac.new(key, message, hashlib.sha256).digest()`, and `hmac.compare_digest`
  pub hmac_sha256 : Bytes → Bytes → Bytes
  pub compare_digest : Bytes → Bytes → Bool
  -- `base64.urlsafe_b64encode(value).decode("ascii")`, and `base64.b64decode` with its alphabet
  pub urlsafe_b64encode : Bytes → String
  pub b64decode : String → Option Bytes
  -- `json.dumps` of the dumped payload, and `_TokenPayload.model_validate_json`
  pub dumps : TokenPayload → String
  pub model_validate_json : String → Option TokenPayload

-- The pattern `^synthetic-[a-z0-9-]{3,64}$`
abbrev id_char : ℕ → Bool
id_char c = (leb 97 c && leb c 122) || (leb 48 c && leb c 57) || c == 45

abbrev all_id_chars : List ℕ → Bool
all_id_chars [] = true
all_id_chars (c ∷ s) = id_char c && all_id_chars s

-- The text after the ten characters of `synthetic-`.
abbrev after_ten : List ℕ → List ℕ
after_ten (c ∷ d ∷ e ∷ f ∷ g ∷ h ∷ i ∷ j ∷ k ∷ l ∷ s) = s
after_ten _ = []

unfoldable pub valid_operator_id : String → Bool
valid_operator_id operator_id =
    let s = codes operator_id in
    let rest = after_ten s in
    starts_with (codes "synthetic-") s
    && leb 3 (length rest)
    && leb (length rest) 64
    && all_id_chars rest

-- `_validate_secret`
unfoldable pub validate_secret : String → Result (Unit {0})
validate_secret secret = require (leb 32 (length (codes secret))) value_error

abbrev pub is_empty : String → Bool
is_empty String.[] = true
is_empty (String.◌∷◌ c s) = false

-- `rstrip("=")`
unfoldable pub rstrip_equals : String → String
rstrip_equals String.[] = String.[]
rstrip_equals (String.◌∷◌ c s) =
    let rest = rstrip_equals s in
    if is_empty rest && code c == 61 then String.[] else String.◌∷◌ c rest

-- `"=" * n`
unfoldable pub equals : ℕ → String
equals zero = ""
equals (suc n) = "=" ++ equals n

abbrev pub after_char : Char → Option (String × String) → Option (String × String)
after_char c none = none
after_char c (some (head, tail)) = some (String.◌∷◌ c head, tail)

-- `token.split(".", maxsplit=1)` as a pair; it cannot be unpacked where there is no dot.
unfoldable pub split_at_dot : String → Option (String × String)
split_at_dot String.[] = none
split_at_dot (String.◌∷◌ c s) =
    let rest = after_char c (split_at_dot s) in if code c == 46 then some ("", s) else rest

-- `timedelta(0) < ttl <= timedelta(hours=1)`
unfoldable pub valid_ttl : ℤ → Bool
valid_ttl (pos ttl) = ltb 0 ttl && leb ttl 3600000000
valid_ttl (negsuc ttl) = false

abbrev pub shifted : ℕ → ℤ → ℕ
shifted at (pos n) = at + n
shifted at (negsuc n) = at - suc n

abbrev pub or_raise {ℓ} : {A : Type ℓ} → Failure → Option A → Result A
or_raise failure none = err failure
or_raise failure (some x) = ok x

-- `except (ValueError, ...): raise InvalidToken`
abbrev pub as_invalid_token {ℓ} : {A : Type ℓ} → Result A → Result A
as_invalid_token (err value_error) = err invalid_token
as_invalid_token (err (value_error_with message)) = err invalid_token
as_invalid_token (err failure) = err failure
as_invalid_token (ok x) = ok x

abbrev pub aware_or : Failure → Moment → Result ℕ
aware_or failure (aware t) = ok t
aware_or failure naive = err failure

module _ (lib : TokenLibrary) where
  -- `_encode_bytes` and `_encode`
  unfoldable pub encode_bytes : lib.Bytes → String
  encode_bytes value = rstrip_equals (lib.urlsafe_b64encode value)

  unfoldable pub encode_text : String → String
  encode_text value = encode_bytes (lib.encode value)

  -- `_decode_bytes` and `_decode`
  unfoldable pub decode_bytes : String → Option lib.Bytes
  decode_bytes value = lib.b64decode (value ++ equals ((4 - length (codes value) % 4) % 4))

  unfoldable pub decode_text : String → Result String
  decode_text value = do
    bytes ← or_raise value_error (decode_bytes value)
    or_raise value_error (lib.decode bytes)

  unfoldable pub sign : String → String → lib.Bytes
  sign secret encoded_payload = lib.hmac_sha256 (lib.encode secret) (lib.encode encoded_payload)

  unfoldable pub issue_token : OperatorClaims → String → Moment → ℤ → Result String
  issue_token claims secret now ttl = do
    validate_secret secret
    require (valid_ttl ttl) value_error
    issued_at ← aware_or value_error now
    require (valid_operator_id claims.operator_id) (other_error "ValidationError")
    let payload : TokenPayload = record {
      operator_id = claims.operator_id;
      role = claims.role;
      expires_at = shifted issued_at ttl;
    }
    let encoded_payload = encode_text (lib.dumps payload)
    ok (encoded_payload ++ ("." ++ encode_bytes (sign secret encoded_payload)))

  -- The body of the `try` block.
  unfoldable pub read_payload : String → String → Result TokenPayload
  read_payload token secret = do
    (encoded_payload, encoded_signature) ← or_raise value_error (split_at_dot token)
    actual ← or_raise value_error (decode_bytes encoded_signature)
    require (lib.compare_digest actual (sign secret encoded_payload)) invalid_token
    text ← decode_text encoded_payload
    or_raise value_error (lib.model_validate_json text)

  unfoldable pub verify_token : String → String → Moment → Result OperatorClaims
  verify_token token secret now = do
    validate_secret secret
    payload ← as_invalid_token (read_payload token secret)
    checked_at ← aware_or invalid_token now
    require (ltb checked_at payload.expires_at) invalid_token
    ok (record { operator_id = payload.operator_id; role = payload.role })
