-- ===== src/Tests/Access.antt =====
-- services/api/auth and services/api/rate_limiter.py at concrete callers.
use cine_vault.Prelude.{
  ◌≤◌, String, ◌≡◌, refl, true, false, ◌||◌, List, [], ◌∷◌, none, some, ok, err, contains,
  string_eq, ◌↔◌, ◌⊎◌, arith, length, filter,
}
use cine_vault.Auth.Rbac.{
  service_prohibited, is_system_admin, enforce_service_isolation, enforce_high_risk_operation,
  is_high_risk,
}
use cine_vault.Auth.Rbac.Policy.{
  is_ok, IsFresh, known_service_cannot_write, enforce_high_risk_operation_iff,
}
use cine_vault.Auth.Token.{
  several, other, TokenPayload, SecurityTokenClaims, Validator, check_issuer, check_audience,
  check_expiry, check_not_before, check_subject, roles_of, validate_claims,
}
use cine_vault.Auth.Token.Claims.{Describes, validate_claims-Describes}
use cine_vault.Auth.RateLimit.{is_live}
use cine_vault.Auth.RateLimit.Window.{serve, sliding_window_bound}

-- `str.lower` on names that are lower case already.
abbrev lower : String → String
lower s = s

is_admin : is_system_admin lower ("system_admin" ∷ []) ≡ true
unfolding is_system_admin
is_admin = refl

known_service_cannot_write_example :
    enforce_service_isolation "cinevault-ai-service" "CANONICAL_WRITE_TITLE"
    ≡ err service_prohibited
known_service_cannot_write_example =
    known_service_cannot_write "cinevault-ai-service" "CANONICAL_WRITE_TITLE" refl refl

abbrev hardware_key : List String
hardware_key = "fido2" ∷ []

enforce_high_risk_operation_iff_example :
    (is_ok (enforce_high_risk_operation "ENTITY_MERGE" (some 100) hardware_key 160) ≡ true) ↔ (
      (is_high_risk "ENTITY_MERGE" ≡ false)
      ⊎ ((contains "totp" hardware_key ≡ false)
          × (contains "otp" hardware_key ≡ false)
          × ((contains "webauthn" hardware_key || contains "fido2" hardware_key) ≡ true)
          × IsFresh (some 100) 160))
enforce_high_risk_operation_iff_example =
    enforce_high_risk_operation_iff "ENTITY_MERGE" (some 100) hardware_key 160

sliding_window_bound_example :
    length (
      filter (is_live 60 70) (serve ("10.0.0.1", "SEARCH") 2 60 (1 ∷ 20 ∷ 30 ∷ 70 ∷ []) ([], [])).1)
    ≤ 2
sliding_window_bound_example =
    sliding_window_bound ("10.0.0.1", "SEARCH") 2 60 0 (1 ∷ 20 ∷ 30 ∷ 70 ∷ []) (omega arith)
      (omega arith)

abbrev token : TokenPayload
token = record {
  iss = some "cinevault-auth";
  aud = several ("cinevault-public-client" ∷ []);
  exp = some 900;
  nbf = some 100;
  sub = some "user-1";
  iat = none;
  preferred_username = none;
  email = none;
  roles = none;
  realm_access = some (record { roles = some ("curator" ∷ []) });
  auth_time = none;
  amr = none;
}

abbrev validator : Validator
validator = record { expected_issuer = none; expected_audience = none }

abbrev claims : SecurityTokenClaims
claims = record {
  sub = "user-1";
  iss = "cinevault-auth";
  aud = several ("cinevault-public-client" ∷ []);
  exp = 900;
  iat = 0;
  nbf = some 100;
  preferred_username = none;
  email = none;
  roles = "curator" ∷ [];
  auth_time = none;
  amr = [];
}

token_is_valid : validate_claims validator token 200 ≡ ok claims
unfolding validate_claims check_issuer check_audience check_expiry check_not_before check_subject
    roles_of
token_is_valid = refl

validate_claims-Describes_example : Describes validator token 200 claims
validate_claims-Describes_example =
    validate_claims-Describes validator token 200 claims token_is_valid

-- An audience that is neither a text nor a list is not looked at.
stray_audience : check_audience validator (other true) ≡ ok (other true)
unfolding check_audience
stray_audience = refl
