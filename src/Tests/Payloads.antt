-- ===== src/Tests/Payloads.antt =====
-- services/api/quality/verification.py on concrete payloads.
use cine_vault.Prelude.{
  ℕ, String, Bool, true, false, ◌≡◌, ◌≢◌, ◌<◌, refl, ◌↔◌, [], ◌∷◌, Option, none, some, string_eq,
}
use cine_vault.Quality.Verification.{
  Value, str, int, pos, Payload, get, verify_normalized_payload, date_errors, season_count_errors,
  season_number_errors, check_false_match_risk,
}
use cine_vault.Quality.Verification.Title.{
  HasTitle, IsContentType, YearOk, RuntimeOk, verify_title_iff,
}
use cine_vault.Quality.Verification.Status.{check_false_match_risk_iff}

-- No two values but integers are compared in the payload below.
abbrev no_order : Value → Value → Option Bool
no_order v w = none

abbrev never_blank : Value → Bool
never_blank v = false

abbrev film : Payload
film =
    ("canonical_title", str "Oldboy")
    ∷ ("content_type", str "MOVIE")
    ∷ ("production_year", int (pos 2003))
    ∷ ("runtime_minutes", int (pos 120))
    ∷ ("season_count", int (pos 0))
    ∷ []

film_passes : verify_normalized_payload no_order never_blank 2025 film ≡ some (true, [])
unfolding verify_normalized_payload
film_passes = refl

verify_title_iff_example :
    (verify_normalized_payload no_order never_blank 2025 film ≡ some (true, [])) ↔ (
      HasTitle no_order never_blank film
      × IsContentType (get "content_type" film)
      × YearOk 2025 (get "production_year" film)
      × RuntimeOk (get "runtime_minutes" film)
      × (date_errors no_order never_blank film ≡ some [])
      × (season_count_errors no_order never_blank film ≡ some [])
      × (season_number_errors no_order never_blank film ≡ some []))
verify_title_iff_example = verify_title_iff no_order never_blank 2025 film refl

-- `str.upper` and `str.lower` on names in that case already.
abbrev same_case : String → String
same_case s = s

abbrev remade : String
remade = "oldboy"

check_false_match_risk_iff_example :
    (check_false_match_risk same_case remade (some 2003) remade (some 2013) ≡ true) ↔ (
      (remade ≢ "")
      × (remade ≢ "")
      × (remade ≡ remade)
      × ((s c : ℕ) × (some 2003 ≡ some s) × (some 2013 ≡ some c) × (0 < s) × (0 < c) × (s ≢ c)))
check_false_match_risk_iff_example =
    check_false_match_risk_iff same_case remade remade (some 2003) (some 2013)
