-- ===== src/Tests/Imports.antt =====
-- services/api/repositories/personal.py: an import at concrete values.
use cine_vault.Prelude.{
  String, ◌≡◌, refl, true, false, List, [], ◌∷◌, map, none, some, ok, err, string_eq, ◌==◌,
  if◌then◌else◌,
}
use cine_vault.Personal.Import.Resolve.{
  ImportItem, Catalog, TextRules, resolve_import_candidate_titles,
}
use cine_vault.Personal.Import.Apply.{
  Tables, no_rows, Strategy, Import, RowIds, joined, ImportApplyResponse, import_matched,
  import_item, apply_user_import,
}
use cine_vault.Personal.Import.Apply
use cine_vault.Personal.Import.Still.{later}
use cine_vault.Personal.Import.Twice.{apply_user_import-again}

-- Right on the texts that are used here.
abbrev rules : TextRules
rules = record {
  uuid = λ s. none;
  strip = λ s. s;
  upper = λ s. s;
  lower = λ s. s;
  normalize = λ s. s;
  is_long = λ s. true;
  is_like = λ s t. s == t;
  instant = λ s. if s == "2026-01-01T20:00:00Z" then some 1000 else none;
}

abbrev catalog : Catalog
catalog = record {
  titles =
      record {
        title_id = "t1";
        display_id = "CV-1";
        canonical_title = "Heat";
        production_year = some 1995;
      }
      ∷ [];
  external_ids = record { external_id = "tt0113277"; title_id = "t1" } ∷ [];
}

abbrev heat : ImportItem
heat = record {
  canonical_title = "";
  production_year = 0;
  title_id = "tt0113277";
  display_id = "";
  imdb_id = "";
  watched_at = "2026-01-01T20:00:00Z";
  rating_value = some 9;
  is_favorite = some true;
  manual_status_override = "COMPLETED";
  notes = "";
}

abbrev ids : String → RowIds
ids k = record { event_id = k; rating_id = k; note_id = k }

abbrev importing : Import
importing = record {
  rules = rules;
  catalog = catalog;
  user = "ann";
  strategy = Strategy.keep_existing;
  now = 2000;
}

abbrev records : List (ImportItem × RowIds)
records = (heat, ids "a") ∷ []

abbrev imported : Tables
imported = record {
  events =
      record {
        watch_event_id = "a";
        user_id = "ann";
        title_id = "t1";
        edition_id = none;
        season_id = none;
        episode_id = none;
        device_type = none;
        notes = none;
        watched_at = 1000;
        is_tombstoned = false;
        created_at = 2000;
      }
      ∷ [];
  ratings =
      record {
        rating_id = "a";
        user_id = "ann";
        title_id = "t1";
        rating_value = 9;
        rated_at = 2000;
      }
      ∷ [];
  states =
      (
        ("ann", "t1"),
        record {
          manual_status_override = some "COMPLETED";
          is_favorite = true;
          preferred_edition_id = none;
          updated_at = 2000;
        },
      )
      ∷ [];
  library = (("ann", "t1"), record { added_at = 2000; status_override = some "COMPLETED" }) ∷ [];
  notes = [];
}

abbrev answer : ImportApplyResponse
answer = record { applied_count = 1; conflicts_resolved = 0 }

import_runs : apply_user_import importing records no_rows ≡ (ok answer, imported)
unfolding apply_user_import import_item import_matched resolve_import_candidate_titles
import_runs = refl

-- Two records of one title, neither of which is flushed before the other is looked up.
two_records_fail :
    (apply_user_import importing ((heat, ids "a") ∷ (heat, ids "b") ∷ []) no_rows).0
    ≡ err Apply.integrity_error
unfolding apply_user_import import_item import_matched resolve_import_candidate_titles
two_records_fail = refl

apply_user_import-again_example :
    ((added : Tables) × (imported ≡ joined no_rows added))
    × ((apply_user_import (later importing 9000) (map (λ p. (p.0, ids "c")) records) imported).1
        ≡ imported)
apply_user_import-again_example =
    apply_user_import-again importing 9000 (λ i. ids "c") records no_rows imported answer refl
      (refl, tt) import_runs
