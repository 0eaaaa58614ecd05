-- ===== src/Quality/Reconciliation.antt =====
-- services/api/quality/reconciliation.py, lines 16 to 105: the authority matrix and the choice between
-- conflicting observations. Weights are in hundredths. Python's `str.upper` is a parameter.
pub mod Choice
use cine_vault.Prelude.{
  ℕ, String, Bool, true, false, ◌&&◌, ◌||◌, List, [], ◌∷◌, Option, none, some, ltb, or_text,
  string_eq, ◌==◌, if◌then◌else◌,
}
use cine_vault.Prelude.Dict.{Dict, lookup}
use cine_vault.Prelude.Json.{Json}

pub record Authority : Type 0 where
  pub primary_domains : List String
  pub rule_id : String
  pub weight : ℕ

unfoldable pub authority_matrix : Dict String Authority
authority_matrix =
    (
      "OFFICIAL_STUDIO",
      record {
        primary_domains = "OFFICIAL_TITLE" ∷ "RELEASE_DATE" ∷ "CREDITS" ∷ [];
        rule_id = "RULE-OFFICIAL-STUDIO-PRIMARY";
        weight = 100;
      },
    )
    ∷ (
      "OFFICIAL_FESTIVAL",
      record {
        primary_domains = "AWARDS" ∷ "FESTIVAL_PROGRAM" ∷ [];
        rule_id = "RULE-OFFICIAL-FESTIVAL-PRIMARY";
        weight = 100;
      },
    )
    ∷ (
      "KOBIS",
      record {
        primary_domains = "KOREAN_FILM" ∷ "KOREAN_BOX_OFFICE" ∷ "KOREAN_CAST" ∷ [];
        rule_id = "RULE-KOREAN-FILM-PRIMARY-KOBIS";
        weight = 100;
      },
    )
    ∷ (
      "TVDB",
      record {
        primary_domains = "TV_SERIES_STRUCTURE" ∷ "EPISODE_ORDER" ∷ "SEASON_HIERARCHY" ∷ [];
        rule_id = "RULE-TVDB-SECONDARY-TV";
        weight = 95;
      },
    )
    ∷ (
      "TMDB",
      record {
        primary_domains = "GLOBAL_SYNOPSIS" ∷ "GLOBAL_ARTWORK" ∷ [];
        rule_id = "RULE-TMDB-GLOBAL-CANDIDATE";
        weight = 85;
      },
    )
    ∷ (
      "ANILIST",
      record {
        primary_domains = "ANIME_METADATA" ∷ "EPISODE_COUNT" ∷ [];
        rule_id = "RULE-ANILIST-ANIME-PRIMARY";
        weight = 90;
      },
    )
    ∷ (
      "MYANIMELIST",
      record {
        primary_domains = "ANIME_SYNOPSIS" ∷ [];
        rule_id = "RULE-MAL-ANIME-SECONDARY";
        weight = 85;
      },
    )
    ∷ (
      "WIKIDATA",
      record {
        primary_domains = "CROSS_REF_IDS" ∷ [];
        rule_id = "RULE-WIKIDATA-IDENTITY-MAP";
        weight = 60;
      },
    )
    ∷ []

-- The weight and the rule of a provider that the matrix may not list.
unfoldable pub base_authority : String → ℕ × String
unfolding authority_matrix
base_authority provider = elim (lookup provider authority_matrix) [
  | none ↦ (50, "RULE-DEFAULT-FALLBACK")
  | some a ↦ (a.weight, a.rule_id)
]

-- The weight after the elevation of the primary authorities of a domain.
unfoldable pub weight_in : String → String → ℕ
unfolding base_authority
weight_in domain_type provider =
    if domain_type == "KOREAN_FILM" && provider == "KOBIS"
    then 100
    else if domain_type == "TV_SERIES" && provider == "TVDB"
    then 95
    else if domain_type == "ANIME" && (provider == "ANILIST" || provider == "MYANIMELIST")
    then 90
    else (base_authority provider).0

pub record Observation : Type 0 where
  pub provider_name : Option String
  pub value : Json

-- The value, unless it is `None`, which `obs.get` also gives for one that is missing.
abbrev pub known_value : Observation → Option Json
known_value obs = elim obs.value [ Json.null ↦ none | v ↦ some v ]

pub record Resolution : Type 0 where
  pub attribute_name : String
  pub winning_value : Option Json
  pub winning_provider : String
  pub applied_rule_id : String
  pub confidence_score : ℕ

-- `weight > best_weight`; `best_weight` is -1 before there is a best observation, and its weight then.
abbrev pub outweighs : ℕ → Option Resolution → Bool
outweighs w none = true
outweighs w (some best) = ltb best.confidence_score w

module _ (upper : String → String) (attribute_name domain_type : String) where
  abbrev pub provider_of : Observation → String
  provider_of obs = upper (or_text obs.provider_name "UNKNOWN")

  abbrev pub weight_of : Observation → ℕ
  weight_of obs = weight_in domain_type (provider_of obs)

  -- What an observation wins with.
  abbrev pub claim_of : Observation → Json → Resolution
  claim_of obs v = record {
    attribute_name = attribute_name;
    winning_value = some v;
    winning_provider = provider_of obs;
    applied_rule_id = (base_authority (provider_of obs)).1;
    confidence_score = weight_of obs;
  }

  -- One turn of the loop over the observations.
  unfoldable pub consider : Option Resolution → Observation → Option Resolution
  consider best obs = elim (known_value obs) [
    | none ↦ best
    | some v ↦ if outweighs (weight_of obs) best then some (claim_of obs v) else best
  ]

  unfoldable pub best_of : Option Resolution → List Observation → Option Resolution
  unfolding consider
  best_of best [] = best
  best_of best (obs ∷ rest) = best_of (consider best obs) rest

  abbrev pub no_observation : Resolution
  no_observation = record {
    attribute_name = attribute_name;
    winning_value = none;
    winning_provider = "NONE";
    applied_rule_id = "RULE-NO-OBSERVATION";
    confidence_score = 0;
  }

  unfoldable pub resolve_attribute_conflict : List Observation → Resolution
  unfolding best_of
  resolve_attribute_conflict observations = elim (best_of none observations) [
    | some r ↦ r
    | none ↦ no_observation
  ]
