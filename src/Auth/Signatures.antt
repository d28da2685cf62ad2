-- ===== src/Auth/Signatures.antt =====
-- Which tokens are accepted, and that a refusal is always the same exception.
use incident_intelligence_pl.Prelude.{
  ℕ, ◌≤◌, ◌<◌, ◌≡◌, refl, ◌⊎◌, inl, inr, Bool-cases, Option-cases, String, true, some, length,
  codes, ltb, arith,
}
use incident_intelligence_pl.Failure.{value_error, invalid_token, ok, err}
use incident_intelligence_pl.Auth.Tokens.{
  TokenPayload, aware, TokenLibrary, split_at_dot, as_invalid_token, decode_bytes, decode_text,
  sign, read_payload, verify_token,
}
use incident_intelligence_pl.Auth.RoundTrip.{secret-accepted}

-- The token's part behind its first dot decodes to the signature of the part before it, which
-- decodes to the payload.
pub record Signed (lib : TokenLibrary) (token secret : String) (payload : TokenPayload)
    : Type 0 where
  pub encoded : String
  pub signature : String
  pub digest : lib.Bytes
  pub text : String
  pub parts : split_at_dot token ≡ some (encoded, signature)
  pub decoded : decode_bytes lib signature ≡ some digest
  pub equal : lib.compare_digest digest (sign lib secret encoded) ≡ true
  pub payload_text : decode_text lib encoded ≡ ok text
  pub validated : lib.model_validate_json text ≡ some payload

module _ (lib : TokenLibrary) where
  decode_text-cases :
      (s : String)
      → (decode_text lib s ≡ err value_error) ⊎ ((t : String) × (decode_text lib s ≡ ok t))
  unfolding decode_text
  decode_text-cases s = elim (Option-cases (decode_bytes lib s)) [
    | inl e ↦ inl (rw e refl)
    | inr (b, e) ↦ elim (Option-cases (lib.decode b)) [
      | inl d ↦ inl (rw (e, d) refl)
      | inr (t, d) ↦ inr (t, rw (e, d) refl)
    ]
  ]

  abbrev Read : String → String → Type 0
  Read token secret =
      (as_invalid_token (read_payload lib token secret) ≡ err invalid_token)
      ⊎ ((payload : TokenPayload) × (read_payload lib token secret ≡ ok payload)
          × Signed lib token secret payload)

  checked :
      (token secret encoded signature : String) (digest : lib.Bytes)
      → split_at_dot token ≡ some (encoded, signature)
      → decode_bytes lib signature ≡ some digest
      → lib.compare_digest digest (sign lib secret encoded) ≡ true
      → Read token secret
  unfolding read_payload
  checked token secret encoded signature digest p d c = elim (decode_text-cases encoded) [
    | inl e ↦ inl (rw (p, d, c, e) refl)
    | inr (text, e) ↦ elim (Option-cases (lib.model_validate_json text)) [
      | inl v ↦ inl (rw (p, d, c, e, v) refl)
      | inr (payload, v) ↦ inr (
        payload,
        rw (p, d, c, e, v) refl,
        record {
          encoded = encoded;
          signature = signature;
          digest = digest;
          text = text;
          parts = p;
          decoded = d;
          equal = c;
          payload_text = e;
          validated = v;
        },
      )
    ]
  ]

  read_payload-cases : (token secret : String) → Read token secret
  unfolding read_payload
  read_payload-cases token secret = elim (Option-cases (split_at_dot token)) [
    | inl p ↦ inl (rw p refl)
    | inr ((encoded, signature), p) ↦ elim (Option-cases (decode_bytes lib signature)) [
      | inl d ↦ inl (rw (p, d) refl)
      | inr (digest, d) ↦ elim (Bool-cases (lib.compare_digest digest (sign lib secret encoded))) [
        | inl c ↦ checked token secret encoded signature digest p d c
        | inr c ↦ inl (rw (p, d, c) refl)
      ]
    ]
  ]

-- Where the secret has at least 32 characters, a token is verified as some claims or is an invalid
-- token, and no other exception is raised. It is verified only if the part behind its first dot decodes
-- to the signature of the part before it under the secret, and that part decodes to a payload of these
-- claims that has not expired.
pub verify_token-Signed :
    (lib : TokenLibrary) (token secret : String) (t : ℕ)
    → 32 ≤ length (codes secret)
    → (verify_token lib token secret (aware t) ≡ err invalid_token)
      ⊎ ((payload : TokenPayload) × Signed lib token secret payload
          × (t < payload.expires_at)
          × (verify_token lib token secret (aware t)
              ≡ ok record { operator_id = payload.operator_id; role = payload.role }))
unfolding verify_token
verify_token-Signed lib token secret t long = elim (read_payload-cases lib token secret) [
  | inl e ↦ inl (rw (secret-accepted secret long, e) refl)
  | inr (payload, e, signed) ↦ elim (Bool-cases (ltb t payload.expires_at)) [
    | inr late ↦ inl (rw (secret-accepted secret long, e, late) refl)
    | inl early ↦
        inr
          (payload, signed, ground (arith, early), rw (secret-accepted secret long, e, early) refl)
  ]
]
