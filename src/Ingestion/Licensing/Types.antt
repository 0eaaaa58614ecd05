-- ===== src/Ingestion/Licensing/Types.antt =====
-- services/api/ingestion/licensing.py, lines 10 to 32, and the shape of a `PROVIDER_RULES` entry.
use cine_vault.Prelude.{ℕ, String, Bool, List}

pub data ActivationStatus : Type 0 where
  research review_required approved active suspended retired : ActivationStatus

pub data SourceAccessStatus : Type 0 where
  permitted permitted_server_only restricted prohibited needs_review : SourceAccessStatus

pub data AuthorityRole : Type 0 where
  primary_korean secondary_tv candidate_global anime_specialist : AuthorityRole
  reference_sparql official_distributor unauthorized : AuthorityRole

-- The `.value` of each enumeration.
abbrev pub activation_value : ActivationStatus → String
activation_value ActivationStatus.research = "RESEARCH"
activation_value ActivationStatus.review_required = "REVIEW_REQUIRED"
activation_value ActivationStatus.approved = "APPROVED"
activation_value ActivationStatus.active = "ACTIVE"
activation_value ActivationStatus.suspended = "SUSPENDED"
activation_value ActivationStatus.retired = "RETIRED"

abbrev pub access_value : SourceAccessStatus → String
access_value SourceAccessStatus.permitted = "PERMITTED"
access_value SourceAccessStatus.permitted_server_only = "PERMITTED_SERVER_ONLY"
access_value SourceAccessStatus.restricted = "RESTRICTED"
access_value SourceAccessStatus.prohibited = "PROHIBITED"
access_value SourceAccessStatus.needs_review = "NEEDS_REVIEW"

abbrev pub role_value : AuthorityRole → String
role_value AuthorityRole.primary_korean = "PRIMARY_KOREAN"
role_value AuthorityRole.secondary_tv = "SECONDARY_TV"
role_value AuthorityRole.candidate_global = "CANDIDATE_GLOBAL"
role_value AuthorityRole.anime_specialist = "ANIME_SPECIALIST"
role_value AuthorityRole.reference_sparql = "REFERENCE_SPARQL"
role_value AuthorityRole.official_distributor = "OFFICIAL_DISTRIBUTOR"
role_value AuthorityRole.unauthorized = "UNAUTHORIZED"

pub record ProviderRule : Type 0 where
  pub provider : String
  pub provider_name : String
  pub dataset_api : String
  pub source_type : String
  pub official_url : String
  pub license : String
  pub attribution_requirement : String
  pub commercial_use : String
  pub commercial_use_status : String
  pub redistribution : String
  pub redistribution_restrictions : String
  pub rate_limit : String
  pub rate_limit_per_min : ℕ
  pub update_frequency : String
  pub authentication_requirements : String
  pub regions : List String
  pub available_fields : List String
  pub reliability : ℕ
  pub reliability_score : ℕ
  pub last_reviewed : String
  pub activation_status : ActivationStatus
  pub authority_role : AuthorityRole
  pub access_status : SourceAccessStatus
  pub requires_api_key : Bool
  pub scraping_permitted : Bool
  pub description : String
