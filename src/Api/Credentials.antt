-- ===== src/Api/Credentials.antt =====
-- api.py, `authenticate`: what a request needs to get past it, and that it changes only the counters.
use incident_intelligence_pl.Prelude.{
  ℕ, ◌+◌, ◌≤◌, ◌<◌, ◌≡◌, refl, sym, ◌∙◌, ap, subst, ◌⊎◌, inl, inr, String, Bool, true, Option, some,
  length, codes, Option-cases, Bool-cases, if◌then◌else◌, str_eq,
}
use incident_intelligence_pl.Prelude.Dicts
use incident_intelligence_pl.Failure.{Result, ok}
use incident_intelligence_pl.Database.{OperatorRole}
use incident_intelligence_pl.Auth.{OperatorClaims, authorize}
use incident_intelligence_pl.Auth.Tokens.{TokenPayload, aware, verify_token}
use incident_intelligence_pl.Auth.Signatures.{Signed, verify_token-Signed}
use incident_intelligence_pl.Observability
use incident_intelligence_pl.Observability.{MetricsRegistry}
use incident_intelligence_pl.Api.{App, ApiState, Response, return, increment, insufficient_role}
use incident_intelligence_pl.Api.Authentication.{
  rejected_with, bearer_token, with_token, with_secret, authorized, authenticate,
}

-- The secret is as long as the settings demand, if there is one.
abbrev pub Configured : App → Type 0
Configured app = (secret : String) → app.token_secret ≡ some secret → 32 ≤ length (codes secret)

abbrev pub Counts : String → MetricsRegistry → Type 0
Counts name registry = (n : ℕ) × (Dicts.get name registry.counters ≡ some n)

-- The operator whose unexpired token, signed with the secret, the header carries.
pub record Credential (app : App) (authorization : Option String) (claims : OperatorClaims)
    : Type 0 where
  pub secret : String
  pub token : String
  pub payload : TokenPayload
  pub configured : app.token_secret ≡ some secret
  pub bearer : bearer_token authorization ≡ some token
  pub signed : Signed app.tokens token secret payload
  pub unexpired : app.service.now < payload.expires_at
  pub who :
      Path OperatorClaims record { operator_id = payload.operator_id; role = payload.role } claims

abbrev pub IsRefusal : ℕ → Type 0
IsRefusal status = (status ≡ 401) ⊎ ((status ≡ 403) ⊎ (status ≡ 503))

-- Nothing but the counters can have changed.
pub record Refused {ℓ} {A : Type ℓ} (answer : Response → A) (out : Result A × ApiState)
    (s : ApiState) : Type ℓ where
  pub response : Response
  pub registry : MetricsRegistry
  pub is : out ≡ (ok (answer response), record s { registry = registry })
  pub status : IsRefusal response.status_code
  pub totals : (name : String) → Counts name s.registry → Counts name registry

pub increment-Counts :
    (name : String) (s : ApiState)
    → Counts name s.registry
    → (registry : MetricsRegistry) × (increment name s ≡ (ok tt, record s { registry = registry }))
      × ((other : String) → Counts other s.registry → Counts other registry)
unfolding increment Observability.increment
increment-Counts name s (n, e) =
    let registry : MetricsRegistry = record s.registry {
      counters = Dicts.put name (n + 1) s.registry.counters;
    } in
    (
      registry,
      rw e refl,
      λ other (m, f).
          let shown : Dicts.get other registry.counters
              ≡ (if str_eq name other then some (n + 1) else some m) =
            Dicts.get-put name other (n + 1) s.registry.counters
            ∙ ap (λ o. if str_eq name other then some (n + 1) else o) f in
          elim (Bool-cases (str_eq name other)) [
            | inl same ↦ (n + 1, shown ∙ ap (λ (t : Bool). if t then some (n + 1) else some m) same)
            | inr differs ↦
                (m, shown ∙ ap (λ (t : Bool). if t then some (n + 1) else some m) differs)
          ],
    )

module _ (app : App) (authorization : Option String) (role : OperatorRole) (s : ApiState) where
  abbrev pub Decided : Result (Response ⊎ OperatorClaims) × ApiState → Type 0
  Decided out =
      Refused inl out s
      ⊎ ((claims : OperatorClaims) × (out ≡ (ok (inr claims), s))
          × (authorize claims role ≡ true)
          × Credential app authorization claims)

  rejected-Refused :
      (response : Response)
      → IsRefusal response.status_code
      → Counts "rejected" s.registry
      → Refused inl (rejected_with response s) s
  rejected-Refused response status counts =
      let (registry, e, kept) = increment-Counts "rejected" s counts in
      rw e record {
        response = response;
        registry = registry;
        is = refl;
        status = status;
        totals = kept;
      }

  token-cases :
      (secret token : String)
      → app.token_secret ≡ some secret
      → 32 ≤ length (codes secret)
      → bearer_token authorization ≡ some token
      → Counts "rejected" s.registry
      → Decided (authorized role (verify_token app.tokens token secret (aware app.service.now)) s)
  token-cases secret token e long b counts =
      elim (verify_token-Signed app.tokens token secret app.service.now long) [
        | inl v ↦
            subst Decided (ap (λ r. authorized role r s) (sym v))
              (inl (rejected-Refused _ (inl refl) counts))
        | inr (payload, signed, early, v) ↦
            let claims : OperatorClaims = record {
              operator_id = payload.operator_id;
              role = payload.role;
            } in
            subst Decided (ap (λ r. authorized role r s) (sym v))
              (elim (Bool-cases (authorize claims role)) [
                | inr low ↦
                    subst Decided (ap (by_role claims) (sym low))
                      (inl (rejected-Refused _ (inr (inl refl)) counts))
                | inl high ↦ subst Decided (ap (by_role claims) (sym high)) (
                    inr (
                      claims,
                      refl,
                      high,
                      record {
                        secret = secret;
                        token = token;
                        payload = payload;
                        configured = e;
                        bearer = b;
                        signed = signed;
                        unexpired = early;
                        who = refl;
                      },
                    ))
              ])
      ]
    where
      by_role : OperatorClaims → Bool → Result (Response ⊎ OperatorClaims) × ApiState
      by_role claims allowed =
          (if allowed then return (inr claims) else rejected_with insufficient_role) s

  pub authenticate-cases :
      Configured app
      → Counts "rejected" s.registry
      → Decided (authenticate app authorization role s)
  unfolding authenticate
  authenticate-cases known counts = elim (Option-cases app.token_secret) [
    | inl e ↦ subst Decided (ap (λ t. with_secret app t authorization role s) (sym e)) (
        inl record {
          response = _;
          registry = s.registry;
          is = refl;
          status = inr (inr refl);
          totals = λ name c. c;
        })
    | inr (secret, e) ↦
        subst Decided (ap (λ t. with_secret app t authorization role s) (sym e))
          (elim (Option-cases (bearer_token authorization)) [
            | inl b ↦
                subst Decided (ap (λ t. with_token app t secret role s) (sym b))
                  (inl (rejected-Refused _ (inl refl) counts))
            | inr (token, b) ↦
                subst Decided (ap (λ t. with_token app t secret role s) (sym b))
                  (token-cases secret token e (known secret e) b counts)
          ])
  ]
