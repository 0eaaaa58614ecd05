-- ===== src/Auth/Rbac.antt =====
-- services/api/auth/rbac.py: `RBACPolicyEngine`, but for `verify_pkce`. Python's `str.lower` is a
-- parameter. Clock readings are in whole seconds.
pub mod Policy
use text.Mathlib.Text.{starts_with}
use cine_vault.Prelude.{
  ℕ, ◌-◌, String, Bool, true, false, not, ◌&&◌, ◌||◌, List, [], ◌∷◌, map, Option, none, some, ltb,
  contains, Result, ok, err, string_eq, nat_eq, ◌==◌, if◌then◌else◌,
}

abbrev pub curator_session_idle_timeout_seconds : ℕ
curator_session_idle_timeout_seconds = 900

abbrev pub high_risk_fresh_auth_window_seconds : ℕ
high_risk_fresh_auth_window_seconds = 60

abbrev pub high_risk_operations : List String
high_risk_operations =
    "ENTITY_MERGE" ∷ "ENTITY_SPLIT" ∷ "CANONICAL_PROMOTION" ∷ "PROVIDER_CONFIG_CHANGE"
    ∷ "ROLE_PROMOTION" ∷ "PERSONAL_DATA_DISPUTE_RESOLUTION" ∷ "CREDENTIAL_KEY_OPERATION"
    ∷ "SECURITY_CONFIG_CHANGE" ∷ []

-- `AuthorizationError` and `HighRiskAuthError`, one constructor for each text.
pub data AccessError : Type 0 where
  role_required session_expired service_prohibited : AccessError
  totp_prohibited webauthn_required auth_time_missing auth_too_old : AccessError

-- Whether two lists of names share one: `bool(roles.intersection(…))`.
abbrev pub intersects : List String → List String → Bool
intersects [] ys = false
intersects (x ∷ xs) ys = contains x ys || intersects xs ys

-- `claims` is the list of its roles; `None` is an anonymous caller.
unfoldable pub is_anonymous : Option (List String) → Bool
is_anonymous none = true
is_anonymous (some roles) = contains "Anonymous" roles

module _ (lower : String → String) where
  unfoldable pub is_authenticated_user : List String → Bool
  is_authenticated_user roles =
      intersects (map lower roles) (
        "authenticateduser" ∷ "authenticated_user" ∷ "curator" ∷ "systemadmin" ∷ "system_admin"
        ∷ [])

  unfoldable pub is_curator : List String → Bool
  is_curator roles = intersects (map lower roles) ("curator" ∷ "systemadmin" ∷ "system_admin" ∷ [])

  unfoldable pub is_system_admin : List String → Bool
  is_system_admin roles = intersects (map lower roles) ("systemadmin" ∷ "system_admin" ∷ [])

  -- `now - last_active_time > 900`, where both are not negative.
  unfoldable pub enforce_curator_access : List String → ℕ → ℕ → Result AccessError (Unit {0})
  unfolding is_curator
  enforce_curator_access roles last_active_time now =
      if not (is_curator roles)
      then err role_required
      else if ltb curator_session_idle_timeout_seconds (now - last_active_time)
      then err session_expired
      else ok tt

abbrev pub refuse_if : Bool → Result AccessError (Unit {0})
refuse_if true = err service_prohibited
refuse_if false = ok tt

unfoldable pub enforce_service_isolation : String → String → Result AccessError (Unit {0})
enforce_service_isolation client_id action =
    let writes = starts_with action "CANONICAL_WRITE" in
    if client_id == "cinevault-ingest-service"
    then refuse_if writes
    else if client_id == "cinevault-ai-service"
    then refuse_if writes
    else if client_id == "cinevault-analytics-service"
    then refuse_if (starts_with action "PERSONAL" || writes)
    else if client_id == "cinevault-sync-processor"
    then refuse_if writes
    else if client_id == "cinevault-quality-service"
    then refuse_if writes
    else if client_id == "cinevault-public-api"
    then refuse_if (starts_with action "INTERNAL_ADMIN" || writes)
    else ok tt

-- `not auth_time`: a missing time, or 0.
abbrev pub fresh_enough : Option ℕ → ℕ → Result AccessError (Unit {0})
fresh_enough none now = err auth_time_missing
fresh_enough (some t) now =
    if t == 0
    then err auth_time_missing
    else if ltb high_risk_fresh_auth_window_seconds (now - t)
    then err auth_too_old
    else ok tt

unfoldable pub is_high_risk : String → Bool
is_high_risk operation = contains operation high_risk_operations

unfoldable pub enforce_high_risk_operation :
    String → Option ℕ → List String → ℕ → Result AccessError (Unit {0})
enforce_high_risk_operation operation auth_time amr now =
    if not (is_high_risk operation)
    then ok tt
    else if contains "totp" amr || contains "otp" amr
    then err totp_prohibited
    else if not (contains "webauthn" amr) && not (contains "fido2" amr)
    then err webauthn_required
    else fresh_enough auth_time now
