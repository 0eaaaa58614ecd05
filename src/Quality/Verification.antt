-- ===== src/Quality/Verification.antt =====
-- services/api/quality/verification.py: `QualityVerificationEngine`. The values of a payload are Python's:
-- `order` is its `>` on two values that are not both integers, `none` where it raises; `is_blank` tells
-- whether the text of a value is only white space. Of the text of an error, the variable parts are kept.
pub mod Title
pub mod Status
use mathlib.Core.Option
use cine_vault.Prelude.{
  ℕ, ◌+◌, String, Bool, true, false, not, ◌&&◌, ◌||◌, List, [], ◌∷◌, ◌++◌, Option, none, some, ltb,
  contains, or_text, string_eq, nat_eq, ◌==◌, if◌then◌else◌,
}
use cine_vault.Prelude.Dict.{Dict, lookup}

pub data ConfidenceLevel : Type 0 where
  high medium low unknown conflict : ConfidenceLevel

pub data QualityStatus : Type 0 where
  verified partially_verified imported needs_review conflicting deprecated : QualityStatus

pub data ℤ : Type 0 where
  pos : ℕ → ℤ
  negsuc : ℕ → ℤ

-- `a > b`
abbrev pub exceeds : ℤ → ℤ → Bool
exceeds (pos a) (pos b) = ltb b a
exceeds (pos a) (negsuc b) = true
exceeds (negsuc a) (pos b) = false
exceeds (negsuc a) (negsuc b) = ltb a b

-- A Boolean is the integer 0 or 1, as in Python. `other` has its truth value and the name of its type.
pub data Value : Type 0 where
  null : Value
  int : ℤ → Value
  str : String → Value
  other : Bool → String → Value

abbrev pub Payload : Type 0
Payload = Dict String Value

-- `d.get(key)`
abbrev pub get : String → Payload → Value
get key d = elim (lookup key d) [ none ↦ null | some v ↦ v ]

abbrev pub is_true : Value → Bool
is_true null = false
is_true (int (pos n)) = not (n == 0)
is_true (int (negsuc n)) = true
is_true (str s) = not (s == "")
is_true (other b type_name) = b

abbrev pub is_null : Value → Bool
is_null null = true
is_null _ = false

abbrev pub is_text : Value → String → Bool
is_text (str s) t = s == t
is_text _ t = false

pub data QualityError : Type 0 where
  missing_title missing_content_type : QualityError
  invalid_content_type : Value → QualityError
  invalid_year_type invalid_runtime_type : Value → QualityError
  missing_season missing_edition missing_title_id : QualityError
  invalid_year : ℤ → ℕ → QualityError
  invalid_runtime improbable_episode_runtime improbable_title_runtime : ℤ → QualityError
  death_precedes_birth : Value → Value → QualityError
  movie_with_seasons : Value → QualityError
  negative_season_number : QualityError

-- One error where a check fails.
abbrev pub error_if : Bool → QualityError → List QualityError
error_if true e = e ∷ []
error_if false e = []

-- `normalized_data.get("entity_type", "TITLE")`
abbrev pub entity_type_of : Payload → Value
entity_type_of d = elim (lookup "entity_type" d) [ none ↦ str "TITLE" | some v ↦ v ]

abbrev pub content_types : List String
content_types =
    "MOVIE" ∷ "TV_SERIES" ∷ "ANIME" ∷ "DOCUMENTARY" ∷ "SHORT_FILM" ∷ "SHORT" ∷ "SPECIAL" ∷ []

unfoldable pub content_type_errors : Value → List QualityError
content_type_errors (str s) =
    if s == ""
    then missing_content_type ∷ []
    else error_if (not (contains s content_types)) (invalid_content_type (str s))
content_type_errors v = if is_true v then invalid_content_type v ∷ [] else missing_content_type ∷ []

-- `value is not None and not isinstance(value, int)`
abbrev pub type_errors : (Value → QualityError) → Value → List QualityError
type_errors e null = []
type_errors e (int n) = []
type_errors e v = e v ∷ []

unfoldable pub year_errors : ℕ → Value → List QualityError
year_errors current_year (int n) =
    error_if (exceeds (pos 1888) n || exceeds n (pos (current_year + 5)))
      (invalid_year n (current_year + 5))
year_errors current_year _ = []

unfoldable pub runtime_errors : Value → Value → List QualityError
runtime_errors entity_type (int n) =
    if not (exceeds n (pos 0))
    then invalid_runtime n ∷ []
    else if is_text entity_type "EPISODE" && exceeds n (pos 300)
    then improbable_episode_runtime n ∷ []
    else if is_text entity_type "TITLE" && exceeds n (pos 900)
    then improbable_title_runtime n ∷ []
    else []
runtime_errors entity_type _ = []

-- Layer 2.
unfoldable pub referential_errors : Payload → List QualityError
referential_errors d =
    if is_text (entity_type_of d) "EPISODE"
    then error_if (is_null (get "season_id" d) && is_null (get "season_number" d)) missing_season
    else if is_text (entity_type_of d) "RELEASE"
    then error_if (not (is_true (get "edition_id" d))) missing_edition
    else if is_text (entity_type_of d) "EDITION"
    then error_if (not (is_true (get "title_id" d))) missing_title_id
    else []

abbrev pub no_errors : List QualityError → Bool
no_errors [] = true
no_errors (e ∷ es) = false

abbrev pub Errors : Type 0
Errors = List QualityError

-- The result, from the errors of the checks that raise nothing and those of the three comparisons.
abbrev pub collect : Errors → Option Errors → Option Errors → Option Errors → Option (Bool × Errors)
collect before (some dates) (some counts) (some numbers) =
    let errors = before ++ (dates ++ (counts ++ numbers)) in some (no_errors errors, errors)
collect before _ _ _ = none

module _ (order : Value → Value → Option Bool) (is_blank : Value → Bool) where
  abbrev pub greater : Value → Value → Option Bool
  greater (int a) (int b) = some (exceeds a b)
  greater v w = order v w

  -- `canonical_title_proposal or canonical_title`
  unfoldable pub title_errors : Payload → List QualityError
  title_errors d =
      let proposal = get "canonical_title_proposal" d in
      let title = if is_true proposal then proposal else get "canonical_title" d in
      error_if (not (is_true title) || is_blank title) missing_title

  -- Layer 1.
  unfoldable pub schema_errors : Payload → List QualityError
  unfolding title_errors content_type_errors
  schema_errors d =
      (if is_text (entity_type_of d) "TITLE"
        then title_errors d ++ content_type_errors (get "content_type" d)
        else [])
      ++ (type_errors invalid_year_type (get "production_year" d)
          ++ type_errors invalid_runtime_type (get "runtime_minutes" d))

  -- The comparisons may raise: `none`.
  unfoldable pub date_errors : Payload → Option (List QualityError)
  date_errors d =
      let birth = get "birth_date" d in
      let death = get "death_date" d in
      if is_true birth && is_true death
      then Option.map (λ b. error_if b (death_precedes_birth death birth)) (greater birth death)
      else some []

  -- Layer 4.
  unfoldable pub season_count_errors : Payload → Option (List QualityError)
  season_count_errors d =
      let count = get "season_count" d in
      if is_text (get "content_type" d) "MOVIE" && not (is_null count)
      then Option.map (λ b. error_if b (movie_with_seasons count)) (greater count (int (pos 0)))
      else some []

  unfoldable pub season_number_errors : Payload → Option (List QualityError)
  season_number_errors d =
      let number = get "season_number" d in
      if is_text (get "content_type" d) "TV_SERIES" && not (is_null number)
      then Option.map (λ b. error_if b negative_season_number) (greater (int (pos 0)) number)
      else some []

  -- `None` where a comparison raises `TypeError`.
  unfoldable pub verify_normalized_payload : ℕ → Payload → Option (Bool × List QualityError)
  unfolding schema_errors referential_errors year_errors runtime_errors date_errors
      season_count_errors season_number_errors
  verify_normalized_payload current_year d =
      let before =
        schema_errors d
        ++ (referential_errors d
            ++ (year_errors current_year (get "production_year" d)
                ++ runtime_errors (entity_type_of d) (get "runtime_minutes" d))) in
      collect before (date_errors d) (season_count_errors d) (season_number_errors d)

unfoldable pub evaluate_provider_confidence :
    (String → String) → Option String → Bool → ConfidenceLevel
evaluate_provider_confidence upper provider_name is_official =
    let prov = upper (or_text provider_name "") in
    if is_official || contains prov ("OFFICIAL_STUDIO" ∷ "OFFICIAL_FESTIVAL" ∷ "KOBIS" ∷ [])
    then high
    else if contains prov ("TVDB" ∷ "TMDB" ∷ [])
    then high
    else if contains prov ("ANILIST" ∷ "MYANIMELIST" ∷ "WIKIDATA" ∷ [])
    then medium
    else if contains prov ("UNVERIFIED" ∷ "UNKNOWN" ∷ [])
    then low
    else medium

unfoldable pub determine_quality_status : Bool → Bool → ConfidenceLevel → QualityStatus
determine_quality_status is_valid has_conflict confidence =
    if not is_valid
    then needs_review
    else if has_conflict
    then conflicting
    else elim confidence [ high ↦ verified | medium ↦ partially_verified | _ ↦ imported ]

-- A year 0 counts as unknown.
abbrev pub years_differ : Option ℕ → Option ℕ → Bool
years_differ (some s) (some c) = not (s == 0) && not (c == 0) && not (s == c)
years_differ _ _ = false

unfoldable pub check_false_match_risk :
    (String → String) → String → Option ℕ → String → Option ℕ → Bool
check_false_match_risk lower source_title source_year candidate_title candidate_year =
    if source_title == "" || candidate_title == ""
    then false
    else lower source_title == lower candidate_title && years_differ source_year candidate_year
