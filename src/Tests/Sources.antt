-- ===== src/Tests/Sources.antt =====
-- services/api/ingestion/licensing.py: the gate at concrete names.
use cine_vault.Prelude.{
  ℕ, String, ◌≡◌, refl, true, false, not, ◌&&◌, [], ◌∷◌, Option, some, ok, contains, string_eq,
  ◌==◌, nat_beq, if◌then◌else◌,
}
use cine_vault.Prelude.Dict.{lookup}
use cine_vault.Ingestion.Licensing.{
  SourceGrant, SourceEntry, RegistryRead, failed, rows, DataSourceRow, verify_source_access,
  get_source_registry_async, evaluate_source_authorization_async,
}
use cine_vault.Ingestion.Licensing.Gate.{
  passes, permitted_sources, verify_source_access-passes, read_failed, SameDecision,
  evaluate-eq-verify, evaluate-grant,
}

-- `str.upper`, right on the names that are used here.
abbrev upper : String → String
upper s = if s == "kobis" then "KOBIS" else s

abbrev decimal_rate : ℕ → String
decimal_rate n = if nat_beq n 300 then "300 req/min" else "0 req/min"

verify_source_access-passes_example :
    passes (verify_source_access upper "kobis" false)
    ≡ (not false && contains "KOBIS" permitted_sources)
verify_source_access-passes_example = verify_source_access-passes upper "kobis" false

evaluate-eq-verify_example :
    SameDecision
      (evaluate_source_authorization_async upper decimal_rate "kobis" false (some failed))
      (verify_source_access upper "kobis" false)
evaluate-eq-verify_example = evaluate-eq-verify upper decimal_rate "kobis" false read_failed

abbrev kobis_row : DataSourceRow
kobis_row = record {
  source_id = "1";
  provider_name = "kobis";
  dataset_api = "REST";
  source_type = "OFFICIAL_BOX_OFFICE";
  official_url = "";
  license_info = "";
  attribution_requirement = "";
  commercial_use_status = "PERMITTED";
  redistribution_restrictions = "";
  rate_limit_per_min = 300;
  update_frequency = "DAILY";
  authentication_requirements = "API_KEY";
  regions = [];
  available_fields = [];
  reliability_score = 98;
  activation_status = "ACTIVE";
  authority_role = "PRIMARY_KOREAN";
  access_status = "PERMITTED";
  requires_api_key = true;
  scraping_permitted = false;
  description = "";
}

abbrev kobis_grant : SourceGrant
kobis_grant = record {
  provider_name = "KOBIS";
  authority_role = "PRIMARY_KOREAN";
  access_status = "PERMITTED";
  activation_status = "ACTIVE";
  requires_api_key = true;
  rate_limit_per_min = 300;
  gate_passed = true;
}

abbrev one_row : Option RegistryRead
one_row = some (rows (kobis_row ∷ []))

granted :
    evaluate_source_authorization_async upper decimal_rate "kobis" false one_row ≡ ok kobis_grant
unfolding evaluate_source_authorization_async
granted = refl

evaluate-grant_example :
    (entry : SourceEntry) × (lookup "KOBIS" (get_source_registry_async upper decimal_rate one_row)
      ≡ some entry)
    × (false ≡ false)
    × (contains entry.access_status ("PROHIBITED" ∷ "NEEDS_REVIEW" ∷ []) ≡ false)
    × (contains entry.activation_status ("REVIEW_REQUIRED" ∷ "SUSPENDED" ∷ "RETIRED" ∷ []) ≡ false)
    × ("KOBIS" ≡ upper "kobis")
    × ("PERMITTED" ≡ entry.access_status)
    × (300 ≡ entry.rate_limit_per_min)
evaluate-grant_example = evaluate-grant upper decimal_rate "kobis" false one_row kobis_grant granted
