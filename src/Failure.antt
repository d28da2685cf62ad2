-- ===== src/Failure.antt =====
-- The exceptions of the package (src/incident_intel: ingestion.py, incidents.py, jobs.py,
-- approvals.py, auth.py) beside Python's and SQLAlchemy's, a call's result, and SQLAlchemy's
-- `engine.begin()`: a block that commits what it did, or rolls all of it back and raises.
pub mod Raised
use incident_intelligence_pl.Prelude.{◌≡◌, refl, ◌⊎◌, inl, inr, Bool, true, false, String}

pub data Failure : Type 0 where
  value_error permission_error : Failure
  -- A `ValueError` with its message, where which test of several fails first can depend on an order.
  value_error_with : String → Failure
  invalid_token invalid_cursor incident_not_found job_not_found invalid_job_state : Failure
  retryable_job_error draft_not_found draft_state_conflict : Failure
  idempotency_conflict correlation_conflict storage_unavailable storage_integrity_error : Failure
  -- `IntegrityError` with the name of the violated constraint, and any other `SQLAlchemyError`.
  integrity_error : String → Failure
  sqlalchemy_error : Failure
  -- An exception of another class, by the name of the class.
  other_error : String → Failure

-- `type(error).__name__`
unfoldable pub class_name : Failure → String
class_name value_error = "ValueError"
class_name (value_error_with message) = "ValueError"
class_name permission_error = "PermissionError"
class_name invalid_token = "InvalidToken"
class_name invalid_cursor = "InvalidCursor"
class_name incident_not_found = "IncidentNotFound"
class_name job_not_found = "JobNotFound"
class_name invalid_job_state = "InvalidJobState"
class_name retryable_job_error = "RetryableJobError"
class_name draft_not_found = "DraftNotFound"
class_name draft_state_conflict = "DraftStateConflict"
class_name idempotency_conflict = "IdempotencyConflict"
class_name correlation_conflict = "CorrelationConflict"
class_name storage_unavailable = "StorageUnavailable"
class_name storage_integrity_error = "StorageIntegrityError"
class_name (integrity_error name) = "IntegrityError"
class_name sqlalchemy_error = "SQLAlchemyError"
class_name (other_error name) = name

-- What a call does: it raises, or it returns.
pub data Result {κ} (T : Type κ) : Type κ where
  err : Failure → Result T
  ok : T → Result T

-- Statements in sequence: an exception skips the rest.
infixl 5 ◌>>=◌ ◌>>◌
abbrev pub ◌>>=◌ {κ ℓ} : {T : Type κ} {U : Type ℓ} → Result T → (T → Result U) → Result U
err failure >>= rest = err failure
ok value >>= rest = rest value

abbrev pub ◌>>◌ {ℓ} : {U : Type ℓ} → Result (Unit {0}) → Result U → Result U
err failure >> rest = err failure
ok done >> rest = rest

-- `if not test: raise e`
abbrev pub require : Bool → Failure → Result (Unit {0})
require false failure = err failure
require true failure = ok tt

-- Whether the database answers during a call.
pub data Availability : Type 0 where
  up down : Availability

abbrev pub settle {ℓ κ} : {S : Type ℓ} {A : Type κ} → S → Result (A × S) → Result A × S
settle s (ok (a, s')) = (ok a, s')
settle s (err e) = (err e, s)

-- `with engine.begin() as connection: …`
abbrev pub engine_begin {ℓ κ} :
    {S : Type ℓ} {A : Type κ} → Availability → (S → Result (A × S)) → S → Result A × S
engine_begin up body s = settle s (body s)
engine_begin down body s = (err sqlalchemy_error, s)

-- `with engine.connect() as connection: …` around a `SELECT`
abbrev pub engine_connect {ℓ κ} :
    {S : Type ℓ} {A : Type κ} → Availability → (S → Result A) → S → Result A
engine_connect up body s = body s
engine_connect down body s = err sqlalchemy_error

-- `try: … except E as e: raise handler(e)`
abbrev pub rethrow {ℓ} : {A : Type ℓ} → (Failure → Failure) → Result A → Result A
rethrow handler (ok a) = ok a
rethrow handler (err e) = err (handler e)

-- `except SQLAlchemyError: raise StorageUnavailable from None`, domain errors passing through.
abbrev pub hide_sql : Failure → Failure
hide_sql sqlalchemy_error = storage_unavailable
hide_sql (integrity_error name) = storage_unavailable
hide_sql e = e

-- A block that leaves the store good when it commits leaves it good whatever happens.
pub engine_begin-keeps {ℓ κ} :
    {S : Type ℓ} {A : Type κ} (P : S → Type 0) (a : Availability) (body : S → Result (A × S))
    (s : S)
    → P s
    → ((x : A) (s' : S) → body s ≡ ok (x, s') → P s')
    → P (engine_begin a body s).1
engine_begin-keeps P down body s p h = p
engine_begin-keeps {S} {A} P up body s p h = go (body s) (λ x s' e. h x s' e)
  where
    go : (r : Result (A × S)) → ((x : A) (s' : S) → r ≡ ok (x, s') → P s') → P (settle s r).1
    go (ok (x, s')) k = k x s' refl
    go (err e) k = p

-- To split on a computed result and keep the equation.
pub Result-cases {κ} :
    {T : Type κ} (r : Result T) → ((e : Failure) × (r ≡ err e)) ⊎ ((x : T) × (r ≡ ok x))
Result-cases (err e) = inl (e, refl)
Result-cases (ok x) = inr (x, refl)
