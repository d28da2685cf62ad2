-- ===== src/Api/Authentication.antt =====
-- api.py, `authenticate`: from the header of a request to the claims of an operator, or to a problem.
use incident_intelligence_pl.Prelude.{
  ◌⊎◌, inl, inr, String, false, Option, none, some, codes, starts_with, if◌then◌else◌,
}
use incident_intelligence_pl.Failure.{invalid_token, Result, ok, err}
use incident_intelligence_pl.Database.{OperatorRole}
use incident_intelligence_pl.Auth.{OperatorClaims, authorize}
use incident_intelligence_pl.Auth.Tokens.{aware, verify_token}
use incident_intelligence_pl.Api.{
  App, Handler, Response, ◌>>=◌, ◌>>◌, return, raise, increment, problem_response,
  insufficient_role,
}

abbrev pub rejected_with : Response → Handler (Response ⊎ OperatorClaims)
rejected_with response = do increment "rejected"; return (inl response)

-- `authorization.removeprefix("Bearer ")`, once the prefix is there
unfoldable pub after_bearer : String → Option String
after_bearer
      (String.◌∷◌ a (
        String.◌∷◌ b
          (String.◌∷◌ c (String.◌∷◌ d (String.◌∷◌ e (String.◌∷◌ f (String.◌∷◌ g token))))))) =
    if starts_with (codes "Bearer ") (
      codes (
        String.◌∷◌ a (
          String.◌∷◌ b
            (String.◌∷◌ c (String.◌∷◌ d (String.◌∷◌ e (String.◌∷◌ f (String.◌∷◌ g ""))))))))
    then some token
    else none
after_bearer _ = none

abbrev pub bearer_token : Option String → Option String
bearer_token none = none
bearer_token (some authorization) = after_bearer authorization

abbrev pub authorized : OperatorRole → Result OperatorClaims → Handler (Response ⊎ OperatorClaims)
authorized minimum_role (ok claims) =
    if authorize claims minimum_role then return (inr claims) else rejected_with insufficient_role
authorized minimum_role (err invalid_token) =
    rejected_with
      (problem_response 401 "invalid_token" "The operator token is invalid or expired." none false)
authorized minimum_role (err failure) = raise failure

module _ (app : App) where
  abbrev pub with_token :
      Option String → String → OperatorRole → Handler (Response ⊎ OperatorClaims)
  with_token none secret minimum_role = rejected_with (
      problem_response 401 "authentication_required"
        "A valid short-lived operator token is required." none false)
  with_token (some token) secret minimum_role =
      authorized minimum_role (verify_token app.tokens token secret (aware app.service.now))

  abbrev pub with_secret :
      Option String → Option String → OperatorRole → Handler (Response ⊎ OperatorClaims)
  with_secret none authorization minimum_role = return (
      inl (
        problem_response 503 "authorization_unavailable" "Operator authorization is not configured."
          none false))
  with_secret (some secret) authorization minimum_role =
      with_token (bearer_token authorization) secret minimum_role

  unfoldable pub authenticate : Option String → OperatorRole → Handler (Response ⊎ OperatorClaims)
  unfolding increment
  authenticate authorization minimum_role = with_secret app.token_secret authorization minimum_role

  -- `if isinstance(operator, JSONResponse): return operator`
  abbrev pub admitted :
      (OperatorClaims → Handler Response) → Response ⊎ OperatorClaims → Handler Response
  admitted handler (inl response) = return response
  admitted handler (inr operator) = handler operator

  abbrev pub as_operator :
      Option String → OperatorRole → (OperatorClaims → Handler Response) → Handler Response
  as_operator authorization minimum_role handler = do
    operator ← authenticate authorization minimum_role
    admitted handler operator
