-- ===== src/Tests/Merges.antt =====
-- services/api/quality/reconciliation.py: choices and merges at concrete rows.
use cine_vault.Prelude.{
  ℕ, String, ◌≡◌, refl, true, false, List, [], ◌∷◌, map, none, some, ok, err, string_eq, ◌==◌,
  if◌then◌else◌, ◌↔◌, ◌⊎◌, All,
}
use cine_vault.Prelude.Dict.{lookup}
use cine_vault.Prelude.Json.{num, null}
use cine_vault.Quality.Reconciliation.{Observation, resolve_attribute_conflict, no_observation}
use cine_vault.Quality.Reconciliation.Choice.{
  HasNoValue, FirstHeaviest, resolve_attribute_conflict-FirstHeaviest,
}
use cine_vault.Quality.Merge.{
  MergeEntity, Title, TitleExternalId, Catalog, MergeFresh, merge_aborted, personal_data_attached,
  execute_title_merge,
}
use cine_vault.Quality.Merge.Safety.{is_safe, YearsAreClose, verify_merge_safety_iff}
use cine_vault.Quality.Merge.Execution.{identity, IsUnambiguous}
use cine_vault.Quality.Merge.Effect.{
  execute_title_merge-err, execute_title_merge-ok, execute_title_merge-IsUnambiguous,
}

-- `str.upper`, right on the names that are used here.
abbrev upper : String → String
upper s = if s == "tmdb" then "TMDB" else s

abbrev sightings : List Observation
sightings =
    record { provider_name = some "tmdb"; value = num 120 }
    ∷ record { provider_name = some "KOBIS"; value = num 121 }
    ∷ record { provider_name = none; value = null }
    ∷ []

resolve_attribute_conflict-FirstHeaviest_example :
    (All (HasNoValue upper "runtime" "KOREAN_FILM") sightings
      × (resolve_attribute_conflict upper "runtime" "KOREAN_FILM" sightings
          ≡ no_observation upper "runtime" "KOREAN_FILM"))
    ⊎ FirstHeaviest upper "runtime" "KOREAN_FILM" sightings
        (resolve_attribute_conflict upper "runtime" "KOREAN_FILM" sightings)
resolve_attribute_conflict-FirstHeaviest_example =
    resolve_attribute_conflict-FirstHeaviest upper "runtime" "KOREAN_FILM" sightings

abbrev film : ℕ → MergeEntity
film year = record { content_type = some "MOVIE"; production_year = some year }

verify_merge_safety_iff_example : (is_safe (film 1999) (film 2001) false ≡ true) ↔ (
    (some "MOVIE" ≡ (film 2001).content_type)
    × YearsAreClose (some 1999) (some 2001)
    × (false ≡ false))
verify_merge_safety_iff_example = verify_merge_safety_iff (film 1999) (film 2001) false

abbrev title : ℕ → Title
title year = record {
  content_type_id = "MOVIE";
  production_year = some year;
  canonical_title = "Title";
  status_flag = "ACTIVE";
  updated_at = 1;
}

abbrev rows : List TitleExternalId
rows =
    record { mapping_id = "m1"; title_id = "a"; provider_name = "TMDB"; external_id = "1" }
    ∷ record { mapping_id = "m2"; title_id = "a"; provider_name = "KOBIS"; external_id = "2" }
    ∷ record { mapping_id = "m3"; title_id = "b"; provider_name = "TMDB"; external_id = "3" }
    ∷ []

abbrev catalog : Catalog
catalog = record {
  titles = ("a", title 1999) ∷ ("b", title 2000) ∷ [];
  external_ids = rows;
  redirects = [];
}

abbrev fresh : MergeFresh
fresh = record { redirect_id = "r1"; merged_at = 5; updated_at = 6 }

abbrev merged : Catalog
merged = (execute_title_merge "a" "b" "DUPLICATE" false fresh catalog).1

merged_lem :
    execute_title_merge "a" "b" "DUPLICATE" false fresh catalog
    ≡ (ok (record { redirect_id = "r1"; from_id = "a"; to_id = "b"; merged_at = 5 }), merged)
unfolding execute_title_merge
merged_lem = refl

execute_title_merge-ok_example :
    (false ≡ false)
    × ((source : Title) × (lookup "a" catalog.titles ≡ some source)
        × ((id : String)
            → lookup id merged.titles ≡ (
                if "a" == id
                then some (record source { status_flag = "RETIRED"; updated_at = fresh.updated_at })
                else lookup id catalog.titles)))
    × (merged.redirects
        ≡ record {
          redirect_id = "r1";
          from_id = "a";
          to_id = "b";
          entity_type = "TITLE";
          merge_reason = "DUPLICATE";
          merged_at = 5;
        }
          ∷ [])
    × (map identity merged.external_ids ≡ map identity rows)
execute_title_merge-ok_example =
    execute_title_merge-ok "a" "b" "DUPLICATE" false fresh catalog merged
      (record { redirect_id = "r1"; from_id = "a"; to_id = "b"; merged_at = 5 }) merged_lem

aborted_lem :
    execute_title_merge "a" "b" "DUPLICATE" true fresh catalog
    ≡ (err (merge_aborted (personal_data_attached ∷ [])), catalog)
unfolding execute_title_merge
aborted_lem = refl

execute_title_merge-err_example : catalog ≡ catalog
execute_title_merge-err_example =
    execute_title_merge-err "a" "b" "DUPLICATE" true fresh catalog catalog
      (merge_aborted (personal_data_attached ∷ [])) aborted_lem

rows-IsUnambiguous : IsUnambiguous rows
rows-IsUnambiguous = ((refl, (refl, tt)), ((refl, tt), (tt, tt)))

execute_title_merge-IsUnambiguous_example : IsUnambiguous merged.external_ids
execute_title_merge-IsUnambiguous_example =
    execute_title_merge-IsUnambiguous "a" "b" "DUPLICATE" false fresh catalog merged
      (ok (record { redirect_id = "r1"; from_id = "a"; to_id = "b"; merged_at = 5 })) merged_lem
      rows-IsUnambiguous
