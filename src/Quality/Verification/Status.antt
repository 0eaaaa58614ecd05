-- ===== src/Quality/Verification/Status.antt =====
-- services/api/quality/verification.py: the status of an entity and the risk of a false match.
use text.Mathlib.TextEquality.{eq_iff}
use cine_vault.Prelude.{
  ℕ, String, Bool, true, false, ◌≡◌, refl, ◌≢◌, ◌<◌, ◌↔◌, ◌⊎◌, List, [], ◌∷◌, Option, none, some,
  arith, or_text, contains, string_eq, nat_eq,
}
use cine_vault.Quality.Verification.{
  verified, evaluate_provider_confidence, determine_quality_status, check_false_match_risk,
}

abbrev pub trusted_providers : List String
trusted_providers = "OFFICIAL_STUDIO" ∷ "OFFICIAL_FESTIVAL" ∷ "KOBIS" ∷ "TVDB" ∷ "TMDB" ∷ []

-- An entity becomes VERIFIED, with the confidence of its provider, exactly when it is valid and without conflict
-- and comes from an official source or from one of five providers.
pub verified_iff :
    (upper : String → String) (provider_name : Option String)
    (is_official is_valid has_conflict : Bool)
    → (determine_quality_status is_valid has_conflict
          (evaluate_provider_confidence upper provider_name is_official)
        ≡ verified)
      ↔ ((is_valid ≡ true)
          × (has_conflict ≡ false)
          × ((is_official ≡ true)
              ⊎ (contains (upper (or_text provider_name "")) trusted_providers ≡ true)))
unfolding determine_quality_status evaluate_provider_confidence
verified_iff upper provider_name is_official is_valid has_conflict = ground arith

-- The risk of a false match is there exactly between titles that both have a name, the same one up to letter
-- case, and known years that differ.
pub check_false_match_risk_iff :
    (lower : String → String) (source_title candidate_title : String)
    (source_year candidate_year : Option ℕ)
    → (check_false_match_risk lower source_title source_year candidate_title candidate_year ≡ true)
      ↔ ((source_title ≢ "")
          × (candidate_title ≢ "")
          × (lower source_title ≡ lower candidate_title)
          × ((s c : ℕ) × (source_year ≡ some s)
              × (candidate_year ≡ some c)
              × (0 < s)
              × (0 < c)
              × (s ≢ c)))
unfolding check_false_match_risk
check_false_match_risk_iff lower s c none cy =
    (λ h. absurd (ground arith), λ (a, b, e, (m, n, p, q, u, v, w)). absurd (ground arith))
check_false_match_risk_iff lower s c (some sy) none =
    (λ h. absurd (ground arith), λ (a, b, e, (m, n, p, q, u, v, w)). absurd (ground arith))
check_false_match_risk_iff lower s c (some sy) (some cy) = (
  λ h. (
    ground (arith, eq_iff s ""),
    ground (arith, eq_iff c ""),
    ground (arith, eq_iff (lower s) (lower c)),
    (sy, cy, refl, refl, ground arith, ground arith, ground arith),
  ),
  λ (a, b, e, (m, n, p, q, u, v, w)).
      ground (arith, eq_iff s "", eq_iff c "", eq_iff (lower s) (lower c)),
)
