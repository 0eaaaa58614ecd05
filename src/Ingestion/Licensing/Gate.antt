-- ===== src/Ingestion/Licensing/Gate.antt =====
-- services/api/ingestion/licensing.py: which sources pass the gate, with and without the database.
use mathlib.Core.Option
use text.Mathlib.TextEquality.{eq_iff}
use Prim.Native.String.{◌++◌ as str_append}
use cine_vault.Prelude.{
  Bool-cases, inl, inr, ℕ, String, ◌≡◌, refl, Bool, true, false, not, ◌&&◌, List, [], ◌∷◌, Option,
  none, some, Result, ok, err, contains, string_eq, arith,
}
use cine_vault.Prelude.Dict.{lookup, lookup-map_values}
use cine_vault.Ingestion.Licensing.Types.{
  ProviderRule, SourceAccessStatus, ActivationStatus, access_value, activation_value,
}
use cine_vault.Ingestion.Licensing.Permitted.{
  kobis, tvdb, tmdb, anilist, myanimelist, wikidata, official_studio,
}
use cine_vault.Ingestion.Licensing.Blocked.{justwatch, imdb_datasets, unknown_source}
use cine_vault.Ingestion.Licensing.{
  provider_rules, not_registered, scraping_attempt, access_blocked, activation_blocked, GateError,
  SourceGrant, check_rule, SourceEntry, RegistryRead, failed, rows, entry_of_rule,
  get_source_registry, verify_source_access, get_source_registry_async, check_entry,
  evaluate_source_authorization_async, is_access_blocked, is_activation_blocked,
}

abbrev pub passes : Result GateError SourceGrant → Bool
passes (ok g) = true
passes (err e) = false

abbrev pub permitted_sources : List String
permitted_sources =
    "KOBIS" ∷ "TVDB" ∷ "TMDB" ∷ "ANILIST" ∷ "MYANIMELIST" ∷ "WIKIDATA" ∷ "OFFICIAL_STUDIO" ∷ []

check_rule-passes :
    (name provider : String) (scraping : Bool)
    → passes (check_rule name provider scraping (lookup provider provider_rules))
      ≡ (not scraping && contains provider permitted_sources)
unfolding check_rule provider_rules kobis tvdb tmdb anilist myanimelist wikidata official_studio
    justwatch imdb_datasets unknown_source
check_rule-passes name provider scraping = ground (
  arith,
  eq_iff "KOBIS" provider,
  eq_iff "JUSTWATCH" provider,
  eq_iff "IMDB_DATASETS" provider,
  eq_iff "UNKNOWN_SOURCE" provider,
  eq_iff "TVDB" provider,
  eq_iff "TMDB" provider,
  eq_iff "ANILIST" provider,
  eq_iff "MYANIMELIST" provider,
  eq_iff "WIKIDATA" provider,
  eq_iff "OFFICIAL_STUDIO" provider,
)

-- Through the static registry a source passes exactly when nothing is scraped and its name, in upper
-- case, is one of the seven permitted ones.
pub verify_source_access-passes :
    (upper : String → String) (name : String) (scraping : Bool)
    → passes (verify_source_access upper name scraping)
      ≡ (not scraping && contains (upper name) permitted_sources)
unfolding verify_source_access
verify_source_access-passes upper name scraping = check_rule-passes name (upper name) scraping

-- No usable answer from the database.
pub data IsFallback : Option RegistryRead → Type 0 where
  no_session : IsFallback none
  read_failed : IsFallback (some failed)
  no_rows : IsFallback (some (rows []))

access_value-blocked :
    (s : SourceAccessStatus)
    → contains (access_value s) ("PROHIBITED" ∷ "NEEDS_REVIEW" ∷ []) ≡ is_access_blocked s
access_value-blocked SourceAccessStatus.permitted = refl
access_value-blocked _ = refl

activation_value-blocked :
    (s : ActivationStatus)
    → contains (activation_value s) ("REVIEW_REQUIRED" ∷ "SUSPENDED" ∷ "RETIRED" ∷ [])
      ≡ is_activation_blocked s
activation_value-blocked ActivationStatus.research = refl
activation_value-blocked _ = refl

-- The answers of the two gates: one grant, or errors of one kind. Of a blocked source the gate over the
-- database shows the value of the status, the static gate the name of the enum's member.
pub data SameDecision : Result GateError SourceGrant → Result GateError SourceGrant → Type 0 where
  same_grant : (g : SourceGrant) → SameDecision (ok g) (ok g)
  both_unknown :
      (name : String) → SameDecision (err (not_registered name)) (err (not_registered name))
  both_scraping :
      (provider : String)
      → SameDecision (err (scraping_attempt provider)) (err (scraping_attempt provider))
  both_blocked :
      (provider status : String)
      → SameDecision
          (err (access_blocked provider status))
          (err (access_blocked provider (str_append "SourceAccessStatus." status)))
  both_inactive :
      (provider status : String)
      → SameDecision
          (err (activation_blocked provider status))
          (err (activation_blocked provider (str_append "ActivationStatus." status)))

check_entry-SameDecision :
    (name provider : String) (scraping : Bool) (rule : Option ProviderRule)
    → SameDecision
        (check_entry name provider scraping (Option.map entry_of_rule rule))
        (check_rule name provider scraping rule)
unfolding check_entry check_rule entry_of_rule
check_entry-SameDecision name provider scraping none = both_unknown name
check_entry-SameDecision name provider true (some rule) = both_scraping provider
check_entry-SameDecision name provider false (some rule) =
    rw (access_value-blocked rule.access_status, activation_value-blocked rule.activation_status)
      (elim (Bool-cases (is_access_blocked rule.access_status)) [
        | inl a ↦ rw a (both_blocked provider (access_value rule.access_status))
        | inr a ↦ elim (Bool-cases (is_activation_blocked rule.activation_status)) [
          | inl b ↦ rw (a, b) (both_inactive provider (activation_value rule.activation_status))
          | inr b ↦ rw (a, b) (same_grant _)
        ]
      ])

lookup-get_source_registry :
    (k : String) → lookup k get_source_registry ≡ Option.map entry_of_rule (lookup k provider_rules)
unfolding get_source_registry
lookup-get_source_registry k = lookup-map_values entry_of_rule k provider_rules

registry_of_fallback :
    (upper : String → String) (decimal_rate : ℕ → String) {db : Option RegistryRead}
    → IsFallback db
    → get_source_registry_async upper decimal_rate db ≡ get_source_registry
unfolding get_source_registry_async
registry_of_fallback upper decimal_rate no_session = refl
registry_of_fallback upper decimal_rate read_failed = refl
registry_of_fallback upper decimal_rate no_rows = refl

-- Without a session, when reading the table fails, and when the table is empty, the gate over the database
-- decides as the static gate does: with the same grant, or with an error of the same kind for the same
-- provider and status. (The text for a blocked source shows the status differently, and the fixed part of the
-- text for an unknown provider differs by a final `V1`.)
pub evaluate-eq-verify :
    (upper : String → String) (decimal_rate : ℕ → String) (name : String) (scraping : Bool)
    {db : Option RegistryRead}
    → IsFallback db
    → SameDecision
        (evaluate_source_authorization_async upper decimal_rate name scraping db)
        (verify_source_access upper name scraping)
unfolding evaluate_source_authorization_async verify_source_access
evaluate-eq-verify upper decimal_rate name scraping h =
    rw (registry_of_fallback upper decimal_rate h, lookup-get_source_registry)
      (check_entry-SameDecision name (upper name) scraping (lookup (upper name) provider_rules))

check_entry-grant :
    (name provider : String) (scraping : Bool) (found : Option SourceEntry) (g : SourceGrant)
    → check_entry name provider scraping found ≡ ok g
    → (entry : SourceEntry) × (found ≡ some entry)
      × (scraping ≡ false)
      × (contains entry.access_status ("PROHIBITED" ∷ "NEEDS_REVIEW" ∷ []) ≡ false)
      × (contains entry.activation_status ("REVIEW_REQUIRED" ∷ "SUSPENDED" ∷ "RETIRED" ∷ [])
          ≡ false)
      × (g.provider_name ≡ provider)
      × (g.access_status ≡ entry.access_status)
      × (g.rate_limit_per_min ≡ entry.rate_limit_per_min)
unfolding check_entry
check_entry-grant name provider scraping none g h = cc
check_entry-grant name provider scraping (some entry) g h = (
  entry,
  refl,
  ground arith,
  ground arith,
  ground arith,
  ground arith,
  ground arith,
  ground arith,
)

-- Whatever the database holds, a grant means that nothing was scraped, that the registry read has an
-- entry under the upper-case name, that the entry is neither PROHIBITED nor NEEDS_REVIEW nor waiting for
-- review, suspended or retired, and that the grant carries the entry's access status and rate limit.
pub evaluate-grant :
    (upper : String → String) (decimal_rate : ℕ → String) (name : String) (scraping : Bool)
    (db : Option RegistryRead) (g : SourceGrant)
    → evaluate_source_authorization_async upper decimal_rate name scraping db ≡ ok g
    → (entry : SourceEntry) × (lookup (upper name) (get_source_registry_async upper decimal_rate db)
        ≡ some entry)
      × (scraping ≡ false)
      × (contains entry.access_status ("PROHIBITED" ∷ "NEEDS_REVIEW" ∷ []) ≡ false)
      × (contains entry.activation_status ("REVIEW_REQUIRED" ∷ "SUSPENDED" ∷ "RETIRED" ∷ [])
          ≡ false)
      × (g.provider_name ≡ upper name)
      × (g.access_status ≡ entry.access_status)
      × (g.rate_limit_per_min ≡ entry.rate_limit_per_min)
unfolding evaluate_source_authorization_async
evaluate-grant upper decimal_rate name scraping db g h =
    check_entry-grant name (upper name) scraping
      (lookup (upper name) (get_source_registry_async upper decimal_rate db)) g h
