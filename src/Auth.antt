-- ===== src/Auth.antt =====
-- auth.py: the claims of a verified operator and the role policy.
pub mod Tokens
pub mod RoundTrip
pub mod Signatures
mod Tests
use incident_intelligence_pl.Prelude.{ℕ, String, Bool, leb}
use incident_intelligence_pl.Database.{OperatorRole, viewer, operator, admin}

pub record OperatorClaims : Type 0 where
  pub operator_id : String
  pub role : OperatorRole

-- `ROLE_LEVEL`
unfoldable pub role_level : OperatorRole → ℕ
role_level viewer = 1
role_level operator = 2
role_level admin = 3

unfoldable pub authorize : OperatorClaims → OperatorRole → Bool
unfolding role_level
authorize claims minimum_role = leb (role_level minimum_role) (role_level claims.role)
