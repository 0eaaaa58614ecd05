-- ===== src/Ingestion/Licensing/Permitted.antt =====
-- services/api/ingestion/licensing.py: the entries of `PROVIDER_RULES` for the sources in use. Reliability
-- scores are in hundredths.
use cine_vault.Prelude.{[], ◌∷◌, true, false}
use cine_vault.Ingestion.Licensing.Types.{
  ProviderRule, ActivationStatus, AuthorityRole, SourceAccessStatus,
}

unfoldable pub kobis : ProviderRule
kobis = record {
  provider = "KOBIS";
  provider_name = "KOBIS";
  dataset_api = "KOBIS OpenAPI REST";
  source_type = "OFFICIAL_BOX_OFFICE";
  official_url = "http://www.kobis.or.kr/";
  license = "Public Data Open License (Type 1)";
  attribution_requirement = "Source attribution required (KOBIS)";
  commercial_use = "PERMITTED";
  commercial_use_status = "PERMITTED";
  redistribution = "PERMITTED_WITH_ATTRIBUTION";
  redistribution_restrictions = "Commercial redistribution permitted with attribution";
  rate_limit = "300 req/min";
  rate_limit_per_min = 300;
  update_frequency = "DAILY";
  authentication_requirements = "API_KEY";
  regions = "KR" ∷ [];
  available_fields =
      "title" ∷ "original_title" ∷ "directors" ∷ "cast" ∷ "release_year" ∷ "genres" ∷ [];
  reliability = 98;
  reliability_score = 98;
  last_reviewed = "2026-08-01";
  activation_status = ActivationStatus.active;
  authority_role = AuthorityRole.primary_korean;
  access_status = SourceAccessStatus.permitted;
  requires_api_key = true;
  scraping_permitted = false;
  description = "Primary Korean-domain film box office & canonical catalog authority.";
}

unfoldable pub tvdb : ProviderRule
tvdb = record {
  provider = "TVDB";
  provider_name = "TVDB";
  dataset_api = "TVDB API v4 REST";
  source_type = "COMMERCIAL_METADATA_API";
  official_url = "https://thetvdb.com/";
  license = "TVDB API v4 Commercial License";
  attribution_requirement = "Attribution required";
  commercial_use = "LICENSED";
  commercial_use_status = "LICENSED";
  redistribution = "REQUIRES_SUBSCRIPTION";
  redistribution_restrictions = "Requires paid API key subscription";
  rate_limit = "1200 req/min";
  rate_limit_per_min = 1200;
  update_frequency = "HOURLY";
  authentication_requirements = "BEARER_TOKEN";
  regions = "GLOBAL" ∷ [];
  available_fields = "title" ∷ "seasons" ∷ "episodes" ∷ "overview" ∷ "genres" ∷ "release_year" ∷ [];
  reliability = 92;
  reliability_score = 92;
  last_reviewed = "2026-08-01";
  activation_status = ActivationStatus.approved;
  authority_role = AuthorityRole.secondary_tv;
  access_status = SourceAccessStatus.permitted;
  requires_api_key = true;
  scraping_permitted = false;
  description = "Secondary TV series & episode structure authority.";
}

unfoldable pub tmdb : ProviderRule
tmdb = record {
  provider = "TMDB";
  provider_name = "TMDB";
  dataset_api = "TMDb API v3 REST";
  source_type = "GLOBAL_COMMUNITY_METADATA";
  official_url = "https://www.themoviedb.org/";
  license = "TMDb API Terms of Use";
  attribution_requirement = "TMDb logo & attribution mandatory";
  commercial_use = "SERVER_SIDE_ONLY";
  commercial_use_status = "PERMITTED_SERVER_ONLY";
  redistribution = "RESTRICTED_NO_BULK";
  redistribution_restrictions = "Server-side integration only. No raw bulk redistribution.";
  rate_limit = "2400 req/min";
  rate_limit_per_min = 2400;
  update_frequency = "REALTIME";
  authentication_requirements = "API_KEY";
  regions = "GLOBAL" ∷ [];
  available_fields = "title" ∷ "overview" ∷ "runtime" ∷ "release_date" ∷ "genres" ∷ "credits" ∷ [];
  reliability = 90;
  reliability_score = 90;
  last_reviewed = "2026-08-01";
  activation_status = ActivationStatus.active;
  authority_role = AuthorityRole.candidate_global;
  access_status = SourceAccessStatus.permitted_server_only;
  requires_api_key = true;
  scraping_permitted = false;
  description = "Candidate global catalog provider (server-side integration only).";
}

unfoldable pub anilist : ProviderRule
anilist = record {
  provider = "ANILIST";
  provider_name = "ANILIST";
  dataset_api = "AniList GraphQL API";
  source_type = "GRAPHQL_COMMUNITY_API";
  official_url = "https://anilist.co/";
  license = "MIT / Community API";
  attribution_requirement = "AniList API attribution recommended";
  commercial_use = "PERMITTED";
  commercial_use_status = "PERMITTED";
  redistribution = "RESPECT_RATE_LIMITS";
  redistribution_restrictions = "Respect GraphQL rate limits";
  rate_limit = "90 req/min";
  rate_limit_per_min = 90;
  update_frequency = "HOURLY";
  authentication_requirements = "NONE";
  regions = "GLOBAL" ∷ "JP" ∷ [];
  available_fields =
      "title_romaji" ∷ "title_english" ∷ "title_native" ∷ "format" ∷ "episodes" ∷ "genres" ∷ [];
  reliability = 94;
  reliability_score = 94;
  last_reviewed = "2026-08-05";
  activation_status = ActivationStatus.approved;
  authority_role = AuthorityRole.anime_specialist;
  access_status = SourceAccessStatus.permitted;
  requires_api_key = false;
  scraping_permitted = false;
  description = "Primary anime & manga domain metadata authority via GraphQL.";
}

unfoldable pub myanimelist : ProviderRule
myanimelist = record {
  provider = "MYANIMELIST";
  provider_name = "MYANIMELIST";
  dataset_api = "MAL REST API v2";
  source_type = "COMMERCIAL_REST_API";
  official_url = "https://myanimelist.net/";
  license = "MAL API v2 Terms";
  attribution_requirement = "MAL API attribution required";
  commercial_use = "RESTRICTED";
  commercial_use_status = "RESTRICTED";
  redistribution = "MANDATORY_CLIENT_ID";
  redistribution_restrictions = "Client ID authentication mandatory";
  rate_limit = "180 req/min";
  rate_limit_per_min = 180;
  update_frequency = "DAILY";
  authentication_requirements = "CLIENT_ID";
  regions = "GLOBAL" ∷ "JP" ∷ [];
  available_fields = "title" ∷ "synopsis" ∷ "mean_rating" ∷ "rank" ∷ "media_type" ∷ "episodes" ∷ [];
  reliability = 91;
  reliability_score = 91;
  last_reviewed = "2026-08-05";
  activation_status = ActivationStatus.approved;
  authority_role = AuthorityRole.anime_specialist;
  access_status = SourceAccessStatus.permitted;
  requires_api_key = true;
  scraping_permitted = false;
  description = "Secondary anime domain catalog & community ranking provider.";
}

unfoldable pub wikidata : ProviderRule
wikidata = record {
  provider = "WIKIDATA";
  provider_name = "WIKIDATA";
  dataset_api = "Wikidata SPARQL / REST API";
  source_type = "OPEN_SPARQL_GRAPH";
  official_url = "https://www.wikidata.org/";
  license = "CC0 1.0 Public Domain";
  attribution_requirement = "None (Public Domain)";
  commercial_use = "PERMITTED";
  commercial_use_status = "PERMITTED";
  redistribution = "PERMITTED_UNRESTRICTED";
  redistribution_restrictions = "None";
  rate_limit = "600 req/min";
  rate_limit_per_min = 600;
  update_frequency = "REALTIME";
  authentication_requirements = "NONE";
  regions = "GLOBAL" ∷ [];
  available_fields =
      "qid" ∷ "label" ∷ "imdb_id" ∷ "tmdb_id" ∷ "country_of_origin" ∷ "inception" ∷ [];
  reliability = 88;
  reliability_score = 88;
  last_reviewed = "2026-08-01";
  activation_status = ActivationStatus.active;
  authority_role = AuthorityRole.reference_sparql;
  access_status = SourceAccessStatus.permitted;
  requires_api_key = false;
  scraping_permitted = false;
  description = "Structured reference authority for SPARQL cross-linking.";
}

unfoldable pub official_studio : ProviderRule
official_studio = record {
  provider = "OFFICIAL_STUDIO";
  provider_name = "OFFICIAL_STUDIO";
  dataset_api = "Studio Press Direct Feed";
  source_type = "OFFICIAL_DISTRIBUTOR_PRESS";
  official_url = "https://cinevault.internal/official-sources";
  license = "Proprietary Direct License";
  attribution_requirement = "Studio copyright notice";
  commercial_use = "PERMITTED";
  commercial_use_status = "PERMITTED";
  redistribution = "DIRECT_PRESS_AGREEMENT";
  redistribution_restrictions = "Direct studio press agreement";
  rate_limit = "1000 req/min";
  rate_limit_per_min = 1000;
  update_frequency = "AD_HOC";
  authentication_requirements = "INTERNAL_AUTH";
  regions = "GLOBAL" ∷ [];
  available_fields =
      "canonical_title" ∷ "original_title" ∷ "runtime" ∷ "credits" ∷ "release_date" ∷ [];
  reliability = 100;
  reliability_score = 100;
  last_reviewed = "2026-08-10";
  activation_status = ActivationStatus.approved;
  authority_role = AuthorityRole.official_distributor;
  access_status = SourceAccessStatus.permitted;
  requires_api_key = true;
  scraping_permitted = false;
  description = "Official studio press kit & direct distributor metadata feeds.";
}
