-- ===== src/Ingestion/Licensing/Blocked.antt =====
-- services/api/ingestion/licensing.py: the entries of `PROVIDER_RULES` for the sources that are blocked. Reliability
-- scores are in hundredths.
use cine_vault.Prelude.{[], ◌∷◌, true, false}
use cine_vault.Ingestion.Licensing.Types.{
  ProviderRule, ActivationStatus, AuthorityRole, SourceAccessStatus,
}

unfoldable pub justwatch : ProviderRule
justwatch = record {
  provider = "JUSTWATCH";
  provider_name = "JUSTWATCH";
  dataset_api = "Public Web Scraping (Unauthorized)";
  source_type = "STREAMING_AVAILABILITY_SCRAPER";
  official_url = "https://www.justwatch.com/";
  license = "UNAUTHORIZED_SCRAPING";
  attribution_requirement = "N/A";
  commercial_use = "PROHIBITED";
  commercial_use_status = "PROHIBITED";
  redistribution = "STRICTLY_FORBIDDEN";
  redistribution_restrictions = "Web scraping strictly forbidden";
  rate_limit = "0 req/min";
  rate_limit_per_min = 0;
  update_frequency = "NEVER";
  authentication_requirements = "NONE";
  regions = "GLOBAL" ∷ [];
  available_fields = [];
  reliability = 0;
  reliability_score = 0;
  last_reviewed = "2026-08-01";
  activation_status = ActivationStatus.suspended;
  authority_role = AuthorityRole.unauthorized;
  access_status = SourceAccessStatus.prohibited;
  requires_api_key = false;
  scraping_permitted = false;
  description = "Streaming availability scraping is strictly prohibited.";
}

unfoldable pub imdb_datasets : ProviderRule
imdb_datasets = record {
  provider = "IMDB_DATASETS";
  provider_name = "IMDB_DATASETS";
  dataset_api = "IMDb Non-Commercial TSV Dumps";
  source_type = "PUBLIC_TSV_DATASET";
  official_url = "https://developer.imdb.com/non-commercial-datasets/";
  license = "IMDb Non-Commercial Dataset License";
  attribution_requirement = "IMDb attribution required";
  commercial_use = "NON_COMMERCIAL_ONLY";
  commercial_use_status = "NON_COMMERCIAL_ONLY";
  redistribution = "COMMERCIAL_REDISTRIBUTION_PROHIBITED";
  redistribution_restrictions =
      "Non-commercial evaluation only. Direct commercial redistribution prohibited.";
  rate_limit = "60 req/min";
  rate_limit_per_min = 60;
  update_frequency = "DAILY";
  authentication_requirements = "NONE";
  regions = "GLOBAL" ∷ [];
  available_fields =
      "tconst" ∷ "primaryTitle" ∷ "originalTitle" ∷ "startYear" ∷ "runtimeMinutes" ∷ "genres" ∷ [];
  reliability = 95;
  reliability_score = 95;
  last_reviewed = "2026-08-01";
  activation_status = ActivationStatus.retired;
  authority_role = AuthorityRole.unauthorized;
  access_status = SourceAccessStatus.prohibited;
  requires_api_key = false;
  scraping_permitted = false;
  description =
      "Direct IMDb public dataset ingestion is excluded due to commercial licensing terms.";
}

unfoldable pub unknown_source : ProviderRule
unknown_source = record {
  provider = "UNKNOWN_SOURCE";
  provider_name = "UNKNOWN_SOURCE";
  dataset_api = "Unverified Third Party Endpoint";
  source_type = "UNVERIFIED_THIRD_PARTY";
  official_url = "UNKNOWN";
  license = "UNKNOWN";
  attribution_requirement = "NEEDS_REVIEW";
  commercial_use = "NEEDS_REVIEW";
  commercial_use_status = "NEEDS_REVIEW";
  redistribution = "UNVERIFIED";
  redistribution_restrictions = "Unverified licensing status";
  rate_limit = "0 req/min";
  rate_limit_per_min = 0;
  update_frequency = "NEVER";
  authentication_requirements = "UNKNOWN";
  regions = [];
  available_fields = [];
  reliability = 50;
  reliability_score = 50;
  last_reviewed = "2026-08-13";
  activation_status = ActivationStatus.review_required;
  authority_role = AuthorityRole.unauthorized;
  access_status = SourceAccessStatus.needs_review;
  requires_api_key = true;
  scraping_permitted = false;
  description = "Unverified external provider requiring legal and licensing review.";
}
