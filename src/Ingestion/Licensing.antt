-- ===== src/Ingestion/Licensing.antt =====
-- services/api/ingestion/licensing.py: `LicensingGateManager`. Python's `str.upper` and the decimal
-- text of a number are parameters. Of the text of an error, the kind and the variable parts are kept.
pub mod Types
pub mod Permitted
pub mod Blocked
pub mod Gate
use Prim.Native.String.{◌++◌ as str_append}
use cine_vault.Prelude.{
  ℕ, String, Bool, true, false, ◌||◌, List, [], ◌∷◌, Option, none, some, Result, ok, err, contains,
  string_eq, map, if◌then◌else◌,
}
use cine_vault.Prelude.Dict.{Dict, lookup, insert, map_values}
use Types.{
  ProviderRule, ActivationStatus, SourceAccessStatus, activation_value, access_value, role_value,
}
use Permitted.{kobis, tvdb, tmdb, anilist, myanimelist, wikidata, official_studio}
use Blocked.{justwatch, imdb_datasets, unknown_source}

pub provider_rules : Dict String ProviderRule
provider_rules =
    ("KOBIS", kobis)
    ∷ ("TVDB", tvdb)
    ∷ ("TMDB", tmdb)
    ∷ ("ANILIST", anilist)
    ∷ ("MYANIMELIST", myanimelist)
    ∷ ("WIKIDATA", wikidata)
    ∷ ("OFFICIAL_STUDIO", official_studio)
    ∷ ("JUSTWATCH", justwatch)
    ∷ ("IMDB_DATASETS", imdb_datasets)
    ∷ ("UNKNOWN_SOURCE", unknown_source)
    ∷ []

pub data GateError : Type 0 where
  not_registered : String → GateError
  scraping_attempt : String → GateError
  access_blocked : String → String → GateError
  activation_blocked : String → String → GateError

-- What the gate returns when it lets a source pass.
pub record SourceGrant : Type 0 where
  pub provider_name : String
  pub authority_role : String
  pub access_status : String
  pub activation_status : String
  pub requires_api_key : Bool
  pub rate_limit_per_min : ℕ
  pub gate_passed : Bool

abbrev is_access_blocked : SourceAccessStatus → Bool
is_access_blocked SourceAccessStatus.prohibited = true
is_access_blocked SourceAccessStatus.needs_review = true
is_access_blocked _ = false

abbrev is_activation_blocked : ActivationStatus → Bool
is_activation_blocked ActivationStatus.review_required = true
is_activation_blocked ActivationStatus.suspended = true
is_activation_blocked ActivationStatus.retired = true
is_activation_blocked _ = false

-- The text of a status in an f-string: from Python 3.11 on it is not the value but the name of the member, which
-- is the value here, with the one of its class.
abbrev pub access_shown : SourceAccessStatus → String
access_shown s = str_append "SourceAccessStatus." (access_value s)

abbrev pub activation_shown : ActivationStatus → String
activation_shown s = str_append "ActivationStatus." (activation_value s)

-- `verify_source_access` on the rule found for the upper-case name `provider`.
pub check_rule : String → String → Bool → Option ProviderRule → Result GateError SourceGrant
check_rule name provider is_scraping_attempt none = err (not_registered name)
check_rule name provider is_scraping_attempt (some rule) =
    if is_scraping_attempt
    then err (scraping_attempt provider)
    else if is_access_blocked rule.access_status
    then err (access_blocked provider (access_shown rule.access_status))
    else if is_activation_blocked rule.activation_status
    then err (activation_blocked provider (activation_shown rule.activation_status))
    else ok (record {
      provider_name = provider;
      authority_role = role_value rule.authority_role;
      access_status = access_value rule.access_status;
      activation_status = activation_value rule.activation_status;
      requires_api_key = rule.requires_api_key;
      rate_limit_per_min = rule.rate_limit_per_min;
      gate_passed = true;
    })

-- An entry of the registry as a dictionary: the statuses are texts there.
pub record SourceEntry : Type 0 where
  pub source_id : Option String
  pub provider : String
  pub provider_name : String
  pub dataset_api : String
  pub source_type : String
  pub official_url : String
  pub license : String
  pub attribution_requirement : String
  pub commercial_use : String
  pub commercial_use_status : String
  pub redistribution : String
  pub redistribution_restrictions : String
  pub rate_limit : String
  pub rate_limit_per_min : ℕ
  pub update_frequency : String
  pub authentication_requirements : String
  pub regions : List String
  pub available_fields : List String
  pub reliability : ℕ
  pub reliability_score : ℕ
  pub last_reviewed : Option String
  pub activation_status : String
  pub authority_role : String
  pub access_status : String
  pub requires_api_key : Bool
  pub scraping_permitted : Bool
  pub description : String

-- The columns of `DataSourceRegistryModel` that are read.
pub record DataSourceRow : Type 0 where
  pub source_id : String
  pub provider_name : String
  pub dataset_api : String
  pub source_type : String
  pub official_url : String
  pub license_info : String
  pub attribution_requirement : String
  pub commercial_use_status : String
  pub redistribution_restrictions : String
  pub rate_limit_per_min : ℕ
  pub update_frequency : String
  pub authentication_requirements : String
  pub regions : List String
  pub available_fields : List String
  pub reliability_score : ℕ
  pub activation_status : String
  pub authority_role : String
  pub access_status : String
  pub requires_api_key : Bool
  pub scraping_permitted : Bool
  pub description : String

-- What reading the registry table did: it raised, or gave rows.
pub data RegistryRead : Type 0 where
  failed : RegistryRead
  rows : List DataSourceRow → RegistryRead

pub entry_of_rule : ProviderRule → SourceEntry
entry_of_rule v = record {
  source_id = none;
  provider = v.provider;
  provider_name = v.provider_name;
  dataset_api = v.dataset_api;
  source_type = v.source_type;
  official_url = v.official_url;
  license = v.license;
  attribution_requirement = v.attribution_requirement;
  commercial_use = v.commercial_use;
  commercial_use_status = v.commercial_use_status;
  redistribution = v.redistribution;
  redistribution_restrictions = v.redistribution_restrictions;
  rate_limit = v.rate_limit;
  rate_limit_per_min = v.rate_limit_per_min;
  update_frequency = v.update_frequency;
  authentication_requirements = v.authentication_requirements;
  regions = v.regions;
  available_fields = v.available_fields;
  reliability = v.reliability;
  reliability_score = v.reliability_score;
  last_reviewed = some v.last_reviewed;
  activation_status = activation_value v.activation_status;
  authority_role = role_value v.authority_role;
  access_status = access_value v.access_status;
  requires_api_key = v.requires_api_key;
  scraping_permitted = v.scraping_permitted;
  description = v.description;
}

pub get_source_registry : Dict String SourceEntry
unfolding provider_rules entry_of_rule
get_source_registry = map_values entry_of_rule provider_rules

module _ (upper : String → String) where
  pub verify_source_access : String → Bool → Result GateError SourceGrant
  unfolding check_rule
  verify_source_access provider_name is_scraping_attempt =
      check_rule provider_name (upper provider_name) is_scraping_attempt
        (lookup (upper provider_name) provider_rules)

module _ (upper : String → String) (decimal_rate : ℕ → String) where
  pub entry_of_row : DataSourceRow → SourceEntry
  entry_of_row r = record {
    source_id = some r.source_id;
    provider = upper r.provider_name;
    provider_name = upper r.provider_name;
    dataset_api = r.dataset_api;
    source_type = r.source_type;
    official_url = r.official_url;
    license = r.license_info;
    attribution_requirement = r.attribution_requirement;
    commercial_use = r.commercial_use_status;
    commercial_use_status = r.commercial_use_status;
    redistribution = r.redistribution_restrictions;
    redistribution_restrictions = r.redistribution_restrictions;
    rate_limit = decimal_rate r.rate_limit_per_min;
    rate_limit_per_min = r.rate_limit_per_min;
    update_frequency = r.update_frequency;
    authentication_requirements = r.authentication_requirements;
    regions = r.regions;
    available_fields = r.available_fields;
    reliability = r.reliability_score;
    reliability_score = r.reliability_score;
    last_reviewed = none;
    activation_status = r.activation_status;
    authority_role = r.authority_role;
    access_status = r.access_status;
    requires_api_key = r.requires_api_key;
    scraping_permitted = r.scraping_permitted;
    description = r.description;
  }

  -- The dictionary comprehension over the rows: a later row replaces an earlier one of its name.
  pub entries_of_rows : Dict String SourceEntry → List DataSourceRow → Dict String SourceEntry
  unfolding entry_of_row
  entries_of_rows d [] = d
  entries_of_rows d (r ∷ rs) =
      entries_of_rows (insert (upper r.provider_name) (entry_of_row r) d) rs

  -- `none` is the call without a database session.
  pub get_source_registry_async : Option RegistryRead → Dict String SourceEntry
  unfolding entries_of_rows
  get_source_registry_async none = get_source_registry
  get_source_registry_async (some failed) = get_source_registry
  get_source_registry_async (some (rows [])) = get_source_registry
  get_source_registry_async (some (rows (r ∷ rs))) = entries_of_rows [] (r ∷ rs)

-- `evaluate_source_authorization_async` on the entry found for the upper-case name `provider`.
pub check_entry : String → String → Bool → Option SourceEntry → Result GateError SourceGrant
check_entry name provider is_scraping_attempt none = err (not_registered name)
check_entry name provider is_scraping_attempt (some rule) =
    if is_scraping_attempt
    then err (scraping_attempt provider)
    else if contains rule.access_status ("PROHIBITED" ∷ "NEEDS_REVIEW" ∷ [])
    then err (access_blocked provider rule.access_status)
    else if contains rule.activation_status ("REVIEW_REQUIRED" ∷ "SUSPENDED" ∷ "RETIRED" ∷ [])
    then err (activation_blocked provider rule.activation_status)
    else ok (record {
      provider_name = provider;
      authority_role = rule.authority_role;
      access_status = rule.access_status;
      activation_status = rule.activation_status;
      requires_api_key = rule.requires_api_key;
      rate_limit_per_min = rule.rate_limit_per_min;
      gate_passed = true;
    })

module _ (upper : String → String) (decimal_rate : ℕ → String) where
  unfoldable pub evaluate_source_authorization_async :
      String → Bool → Option RegistryRead → Result GateError SourceGrant
  unfolding check_entry get_source_registry_async
  evaluate_source_authorization_async provider_name is_scraping_attempt db =
      check_entry provider_name (upper provider_name) is_scraping_attempt
        (lookup (upper provider_name) (get_source_registry_async upper decimal_rate db))
