-- ===== src/Failure/Raised.antt =====
-- Which exceptions a call can raise, told by a predicate that holds of each of them.
use incident_intelligence_pl.Prelude.{Bool, true, false}
use incident_intelligence_pl.Failure.{
  Failure, sqlalchemy_error, Result, ok, err, ◌>>=◌, ◌>>◌, require, Availability, up, down,
  engine_begin, engine_connect, rethrow, settle,
}

abbrev pub Raises {κ} : {A : Type κ} → (Failure → Type 0) → Result A → Type 0
Raises P (err failure) = P failure
Raises P (ok x) = Unit

module _ (P : Failure → Type 0) where
  pub bind-Raises {κ ℓ} :
      {A : Type κ} {B : Type ℓ} (r : Result A) (rest : A → Result B)
      → Raises P r
      → ((x : A) → Raises P (rest x))
      → Raises P (r >>= rest)
  bind-Raises (err failure) rest p q = p
  bind-Raises (ok x) rest p q = q x

  pub then-Raises {ℓ} :
      {B : Type ℓ} (r : Result (Unit {0})) (rest : Result B)
      → Raises P r
      → Raises P rest
      → Raises P (r >> rest)
  then-Raises (err failure) rest p q = p
  then-Raises (ok x) rest p q = q

  pub require-Raises :
      (test : Bool) (failure : Failure) → P failure → Raises P (require test failure)
  require-Raises true failure p = tt
  require-Raises false failure p = p

  pub rethrow-Raises {κ} :
      {A : Type κ} (handler : Failure → Failure) (r : Result A)
      → Raises (λ failure. P (handler failure)) r
      → Raises P (rethrow handler r)
  rethrow-Raises handler (err failure) p = p
  rethrow-Raises handler (ok x) p = tt

  pub begin-Raises {ℓ κ} :
      {S : Type ℓ} {A : Type κ} (a : Availability) (body : S → Result (A × S)) (s : S)
      → P sqlalchemy_error
      → Raises P (body s)
      → Raises P (engine_begin a body s).0
  begin-Raises down body s p q = p
  begin-Raises {S} {A} up body s p q = settled (body s) q
    where
      settled : (r : Result (A × S)) → Raises P r → Raises P (settle s r).0
      settled (err failure) q = q
      settled (ok (x, s')) q = tt

  pub connect-Raises {ℓ κ} :
      {S : Type ℓ} {A : Type κ} (a : Availability) (body : S → Result A) (s : S)
      → P sqlalchemy_error
      → Raises P (body s)
      → Raises P (engine_connect a body s)
  connect-Raises down body s p q = p
  connect-Raises up body s p q = q
