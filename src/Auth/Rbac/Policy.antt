-- ===== src/Auth/Rbac/Policy.antt =====
-- services/api/auth/rbac.py: what the policy engine lets through.
use text.Mathlib.Text.{starts_with}
use text.Mathlib.TextEquality.{eq_iff}
use cine_vault.Prelude.{
  ℕ, ◌+◌, ◌≤◌, String, ◌≡◌, ◌≢◌, refl, Bool, true, false, ◌||◌, List, [], ◌∷◌, map, Option, none,
  some, arith, contains, string_eq, ◌↔◌, ◌⊎◌, inl, inr, Result, ok, err, Bool-cases,
}
use cine_vault.Auth.Rbac.{
  AccessError, service_prohibited, intersects, is_authenticated_user, is_curator, is_system_admin,
  enforce_curator_access, enforce_service_isolation, enforce_high_risk_operation, is_high_risk,
}

abbrev pub is_ok : Result AccessError (Unit {0}) → Bool
is_ok (ok u) = true
is_ok (err e) = false

abbrev admin_names : List String
admin_names = "systemadmin" ∷ "system_admin" ∷ []

abbrev curator_names : List String
curator_names = "curator" ∷ admin_names

abbrev user_names : List String
user_names = "authenticateduser" ∷ "authenticated_user" ∷ curator_names

intersects_mono :
    (ys zs : List String)
    → ((r : String) → contains r ys ≡ true → contains r zs ≡ true)
    → (xs : List String) → intersects xs ys ≡ true
    → intersects xs zs ≡ true
intersects_mono ys zs f [] h = cc
intersects_mono ys zs f (x ∷ xs) h = elim (Bool-cases (contains x ys)) [
  | inl e ↦ rw (f x e) refl
  | inr e ↦ ground (arith, intersects_mono ys zs f xs)
]

-- A system administrator is a curator, and an authenticated user too.
pub system_admin_is_curator :
    (lower : String → String) (roles : List String)
    → is_system_admin lower roles ≡ true
    → (is_curator lower roles ≡ true) × (is_authenticated_user lower roles ≡ true)
unfolding is_system_admin is_curator is_authenticated_user
system_admin_is_curator lower roles h =
    let curator =
      intersects_mono admin_names curator_names (λ r e. ground arith) (map lower roles) h in
    (
      curator,
      intersects_mono curator_names user_names (λ r e. ground arith) (map lower roles) curator,
    )

-- Curator access is granted exactly to a curator or system administrator who was active in the last 900
-- seconds.
pub enforce_curator_access_iff :
    (lower : String → String) (roles : List String) (last_active_time now : ℕ)
    → (is_ok (enforce_curator_access lower roles last_active_time now) ≡ true)
      ↔ ((is_curator lower roles ≡ true) × (now ≤ last_active_time + 900))
unfolding enforce_curator_access
enforce_curator_access_iff lower roles last now = ground arith

abbrev pub known_services : List String
known_services =
    "cinevault-ingest-service" ∷ "cinevault-ai-service" ∷ "cinevault-analytics-service"
    ∷ "cinevault-sync-processor" ∷ "cinevault-quality-service" ∷ "cinevault-public-api" ∷ []

-- None of the six known services may write canonically.
pub known_service_cannot_write :
    (client_id action : String)
    → contains client_id known_services ≡ true
    → starts_with action "CANONICAL_WRITE" ≡ true
    → enforce_service_isolation client_id action ≡ err service_prohibited
unfolding enforce_service_isolation
known_service_cannot_write client_id action known writes = ground (
  arith,
  eq_iff "cinevault-ingest-service" client_id,
  eq_iff client_id "cinevault-ingest-service",
  eq_iff "cinevault-ai-service" client_id,
  eq_iff client_id "cinevault-ai-service",
  eq_iff "cinevault-analytics-service" client_id,
  eq_iff client_id "cinevault-analytics-service",
  eq_iff "cinevault-sync-processor" client_id,
  eq_iff client_id "cinevault-sync-processor",
  eq_iff "cinevault-quality-service" client_id,
  eq_iff client_id "cinevault-quality-service",
  eq_iff "cinevault-public-api" client_id,
  eq_iff client_id "cinevault-public-api",
)

-- A client id that is not one of the six is let through, whatever it asks for.
pub unknown_service_unrestricted :
    (client_id action : String)
    → contains client_id known_services ≡ false
    → enforce_service_isolation client_id action ≡ ok tt
unfolding enforce_service_isolation
unknown_service_unrestricted client_id action unknown = ground (
  arith,
  eq_iff "cinevault-ingest-service" client_id,
  eq_iff client_id "cinevault-ingest-service",
  eq_iff "cinevault-ai-service" client_id,
  eq_iff client_id "cinevault-ai-service",
  eq_iff "cinevault-analytics-service" client_id,
  eq_iff client_id "cinevault-analytics-service",
  eq_iff "cinevault-sync-processor" client_id,
  eq_iff client_id "cinevault-sync-processor",
  eq_iff "cinevault-quality-service" client_id,
  eq_iff client_id "cinevault-quality-service",
  eq_iff "cinevault-public-api" client_id,
  eq_iff client_id "cinevault-public-api",
)

-- The authentication is fresh: its time is known, not 0, and at most 60 seconds ago.
abbrev pub IsFresh : Option ℕ → ℕ → Type 0
IsFresh none now = ⊥
IsFresh (some t) now = (t ≢ 0) × (now ≤ t + 60)

-- An operation is let through exactly when it is not a high-risk one, or no one-time password was used, a
-- hardware key was, and the authentication is fresh.
pub enforce_high_risk_operation_iff :
    (operation : String) (auth_time : Option ℕ) (amr : List String) (now : ℕ)
    → (is_ok (enforce_high_risk_operation operation auth_time amr now) ≡ true) ↔ (
        (is_high_risk operation ≡ false)
        ⊎ ((contains "totp" amr ≡ false)
            × (contains "otp" amr ≡ false)
            × ((contains "webauthn" amr || contains "fido2" amr) ≡ true)
            × IsFresh auth_time now))
unfolding enforce_high_risk_operation
enforce_high_risk_operation_iff operation none amr now = ground arith
enforce_high_risk_operation_iff operation (some t) amr now = ground arith
