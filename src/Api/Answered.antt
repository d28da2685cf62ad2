-- ===== src/Api/Answered.antt =====
-- What it takes for a handler to end with a response, whatever it calls.
use incident_intelligence_pl.Prelude.{
  ◌≡◌, refl, sym, subst, ◌⊎◌, inl, inr, String, Bool, true, false, List, Option, if◌then◌else◌,
}
use incident_intelligence_pl.Prelude.Ordered.{In}
use incident_intelligence_pl.Failure.{
  Failure, permission_error, incident_not_found, Result, ok, err,
}
use incident_intelligence_pl.Failure.Raised.{Raises}
use incident_intelligence_pl.Database.{Database, OperatorRole}
use incident_intelligence_pl.Auth.{OperatorClaims}
use incident_intelligence_pl.Ingestion.Contract.{Receipt}
use incident_intelligence_pl.Ingestion.Memory.{Tracks}
use incident_intelligence_pl.Observability.{MetricsRegistry, operation_names}
use incident_intelligence_pl.Api.{
  App, ApiState, Handler, Response, continue, ◌>>◌, return, raise, caught, try_except, reading,
  writing, written, increment, insufficient_role, incident_missing,
}
use incident_intelligence_pl.Api.Authentication.{as_operator, admitted}
use incident_intelligence_pl.Api.Routes.{with_exception_handlers}
use incident_intelligence_pl.Api.Credentials.{
  Configured, Counts, increment-Counts, authenticate-cases,
}

-- The registry counts every operation, and the store in memory is that of some receipts.
pub record Ready (s : ApiState) : Type 0 where
  pub counted : (name : String) → In name operation_names → Counts name s.registry
  pub receipts : List Receipt
  pub tracked : Tracks s.ingestions receipts

abbrev pub AnsweredAt : Result Response × ApiState → Type 0
AnsweredAt out = (response : Response) × (out.0 ≡ ok response) × Ready out.1

abbrev pub Answered : Handler Response → Type 0
Answered handler = (s : ApiState) → Ready s → AnsweredAt (with_exception_handlers (handler s))

pub return-Answered : (response : Response) → Answered (return response)
return-Answered response s r = (response, refl, r)

with_registry-Ready :
    (s : ApiState) (registry : MetricsRegistry)
    → Ready s
    → ((name : String) → Counts name s.registry → Counts name registry)
    → Ready (record s { registry = registry })
with_registry-Ready s registry r kept = record {
  counted = λ name i. kept name (r.counted name i);
  receipts = r.receipts;
  tracked = r.tracked;
}

pub increment-Answered :
    (name : String) (response : Response)
    → In name operation_names
    → Answered (increment name >> return response)
increment-Answered name response i s r =
    let (registry, e, kept) = increment-Counts name s (r.counted name i) in
    subst (λ out. AnsweredAt (with_exception_handlers (continue out (λ done. return response))))
      (sym e) (response, refl, with_registry-Ready s registry r kept)

pub denied-Answered : Answered (raise permission_error)
denied-Answered s r =
    let (registry, e, kept) =
      increment-Counts "rejected" s (r.counted "rejected" (inr (inr (inr (inl refl))))) in
    subst (λ out. AnsweredAt (continue out (λ done. return insufficient_role))) (sym e)
      (insufficient_role, refl, with_registry-Ready s registry r kept)

pub missing-Answered : Answered (raise incident_not_found)
missing-Answered s r = (incident_missing, refl, r)

pub if-Answered :
    (b : Bool) (h k : Handler Response) → Answered h → Answered k → Answered (if b then h else k)
if-Answered true h k p q = p
if-Answered false h k p q = q

module _ {A : Type 0} (clauses : Failure → Handler Response) (rest : A → Handler Response)
    (next : (x : A) → Answered (rest x)) where
  pub caught-Answered :
      (out : Result A × ApiState)
      → Ready out.1
      → Raises (λ f. Answered (clauses f)) out.0
      → AnsweredAt (with_exception_handlers (caught out clauses rest))
  caught-Answered (err f, s) r p = p s r
  caught-Answered (ok x, s) r p = next x s r

  pub reading-Answered :
      (call : Database → Result A)
      → ((db : Database) → Raises (λ f. Answered (clauses f)) (call db))
      → Answered (try_except (reading call) clauses rest)
  reading-Answered call p s r = caught-Answered (call s.db, s) r (p s.db)

  pub writing-Answered :
      (call : Database → Result A × Database)
      → ((db : Database) → Raises (λ f. Answered (clauses f)) (call db).0)
      → Answered (try_except (writing call) clauses rest)
  writing-Answered call p s r = stored (call s.db) (p s.db)
    where
      stored :
          (out : Result A × Database)
          → Raises (λ f. Answered (clauses f)) out.0
          → AnsweredAt (with_exception_handlers (caught (written out s) clauses rest))
      stored (x, db) q =
          caught-Answered (x, record s { db = db })
            record { counted = r.counted; receipts = r.receipts; tracked = r.tracked } q

pub as_operator-Answered :
    (app : App) (authorization : Option String) (role : OperatorRole)
    (handler : OperatorClaims → Handler Response)
    → Configured app
    → ((actor : OperatorClaims) → Answered (handler actor))
    → Answered (as_operator app authorization role handler)
as_operator-Answered app authorization role handler known next s r =
    elim (authenticate-cases app authorization role s known
      (r.counted "rejected" (inr (inr (inr (inl refl)))))) [
        | inl refused ↦
            subst Ends (sym refused.is)
              (refused.response, refl, with_registry-Ready s refused.registry r refused.totals)
        | inr (claims, is, high, credential) ↦ subst Ends (sym is) (next claims s r)
      ]
  where
    Ends : Result (Response ⊎ OperatorClaims) × ApiState → Type 0
    Ends out = AnsweredAt (with_exception_handlers (continue out (admitted app handler)))
