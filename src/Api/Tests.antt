-- ===== src/Api/Tests.antt =====
-- An application with a secret and an empty database, and a request without a token.
use incident_intelligence_pl.Prelude.{
  ℕ, List, ◌∷◌, sym, inl, inr, Bool-cases, eq_iff, ◌≤◌, ◌≡◌, refl, ◌⊎◌, String, true, none, some,
  ◌+◌, ◌/◌, ltb, [], length, codes, str_eq, subst, arith,
}
use incident_intelligence_pl.Prelude.Dicts
use incident_intelligence_pl.Prelude.Ordered.{In}
use incident_intelligence_pl.Ingestion.Memory.{empty_store-Tracks}
use incident_intelligence_pl.Failure.{up, ok}
use incident_intelligence_pl.Database.{operator, empty_database}
use incident_intelligence_pl.Auth.{OperatorClaims, authorize}
use incident_intelligence_pl.Auth.Tokens.{TokenLibrary}
use incident_intelligence_pl.Observability.{new_registry, zero_counters, operation_names}
use incident_intelligence_pl.Api.{App, ApiState, Response}
use incident_intelligence_pl.Api.Routes.{posts_draft, call_next, HttpRequest, log_request}
use incident_intelligence_pl.Api.Credentials.{Configured, Counts, Credential, Refused}
use incident_intelligence_pl.Api.Access.{authorization_of, call_next-Refused}
use incident_intelligence_pl.Api.Answered.{Ready}
use incident_intelligence_pl.Api.Total.{log_request-Answered}

abbrev tokens : TokenLibrary
tokens = record {
  Bytes = String;
  encode = λ s. s;
  decode = some;
  hmac_sha256 = λ key message. message;
  compare_digest = str_eq;
  urlsafe_b64encode = λ s. s;
  b64decode = some;
  dumps = λ payload. payload.operator_id;
  model_validate_json = λ s. none;
}

abbrev app : App
app = record {
  token_secret = some "0123456789abcdef0123456789abcdef";
  service = record {
    jobs = true;
    approvals = true;
    available = up;
    now = 10;
    uuid4 = 1;
    collated = λ a b. str_eq a b;
  };
  stores_in_postgres = true;
  version = "0.1.0";
  delivery_hex = "a";
  tokens = tokens;
  cursors = record {
    Bytes = String;
    model_dump_json = λ position. "";
    model_validate_json = λ s. none;
    urlsafe_b64encode = λ s. s;
    b64decode = some;
  };
  floats = record {
    add = λ a b. record { bits = a.bits + b.bits };
    divide = λ a n. record { bits = a.bits / n };
    less = λ a b. ltb a.bits b.bits;
  };
  hashing = record { canonical_bundle_json = λ b. b.correlation_id; sha256 = λ s. s };
  request_hashing = record { canonical_request = λ r. r.destination_name; sha256 = λ s. s };
}

abbrev state : ApiState
state = record {
  db = empty_database;
  ingestions = record { records_by_key = []; payload_hash_by_key = []; key_by_correlation_id = [] };
  deliveries = record { records_by_key = []; request_hash_by_key = [] };
  registry = new_registry;
  request_log = [];
}

app-Configured : Configured app
app-Configured secret e = subst (λ t. 32 ≤ length (codes t)) (from_some e) (omega arith)
  where
    from_some : {s t : String} → some s ≡ some t → s ≡ t
    from_some h = cc

Counts-rejected : Counts "rejected" new_registry
unfolding new_registry zero_counters Dicts.get
Counts-rejected = (0, refl)

call_next-Refused_example :
    ((claims : OperatorClaims) × (authorize claims operator ≡ true)
      × Credential app (authorization_of (posts_draft 1 none)) claims)
    ⊎ Refused (λ response. response) (call_next app (posts_draft 1 none) state) state
call_next-Refused_example =
    call_next-Refused app (posts_draft 1 none) operator state app-Configured Counts-rejected refl

zero_counters-Counts :
    (names : List String) (name : String)
    → In name names
    → (n : ℕ) × (Dicts.get name (zero_counters names) ≡ some n)
unfolding zero_counters Dicts.get
zero_counters-Counts [] name i = absurd i
zero_counters-Counts (first ∷ names) name i = elim (Bool-cases (str_eq first name)) [
  | inl e ↦ (0, rw e refl)
  | inr e ↦ elim i [
    | inl p ↦ absurd (ground (arith, e, (eq_iff first name).1 (sym p)))
    | inr j ↦ let (n, f) = zero_counters-Counts names name j in (n, rw e f)
  ]
]

state-Ready : Ready state
unfolding new_registry
state-Ready = record {
  counted = λ name i. zero_counters-Counts operation_names name i;
  receipts = [];
  tracked = empty_store-Tracks;
}

-- An operator asks for a draft of an incident that is not there, with a token that is not valid.
abbrev http : HttpRequest
http = record {
  request = posts_draft 1 (some "Bearer e30.e30");
  x_request_id = "req-1";
  x_correlation_id = "";
  uuid4 = "0000";
  latency_ms = record { bits = 12 };
}

log_request-Answered_example :
    (response : Response) × ((log_request app http state).0 ≡ ok response)
    × Ready (log_request app http state).1
log_request-Answered_example =
    log_request-Answered app http state app-Configured state-Ready tt refl
