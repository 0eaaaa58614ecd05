-- ===== src/Quality/Merge.antt =====
-- services/api/quality/reconciliation.py, lines 107 to 225: the merge protection gate and
-- `execute_title_merge` on the rows of the canonical schema that it reads and writes. The session does
-- not flush by itself (`autoflush=False`) and holds no pending change when a merge begins, so every
-- query of the loop sees the rows as they were before the merge. Texts built by f-strings are kept as
-- their parts; identifiers are texts.
pub mod Safety
pub mod Execution
pub mod Effect
use cine_vault.Prelude.{
  ℕ, ◌-◌, ◌+◌, String, Bool, true, false, not, ◌&&◌, ◌||◌, List, [], ◌∷◌, ◌++◌, map, Option, none,
  some, ltb, Result, ok, err, string_eq, nat_eq, ◌==◌, if◌then◌else◌,
}
use cine_vault.Prelude.Dict.{Dict, lookup, insert}

-- The fields of an entity that the gate reads.
pub record MergeEntity : Type 0 where
  pub content_type : Option String
  pub production_year : Option ℕ

pub data BlockingReason : Type 0 where
  content_type_mismatch : Option String → Option String → BlockingReason
  production_year_discrepancy : ℕ → ℕ → BlockingReason
  personal_data_attached : BlockingReason

abbrev pub same_text : Option String → Option String → Bool
same_text none none = true
same_text (some a) (some b) = a == b
same_text _ _ = false

abbrev pub distance : ℕ → ℕ → ℕ
distance a b = (a - b) + (b - a)

-- `s_year and t_year and abs(s_year - t_year) > 1`; year 0 counts as unknown.
abbrev pub years_disagree : Option ℕ → Option ℕ → Bool
years_disagree (some s) (some t) = not (s == 0) && not (t == 0) && ltb 1 (distance s t)
years_disagree _ _ = false

abbrev pub year_reasons : Option ℕ → Option ℕ → List BlockingReason
year_reasons (some s) (some t) =
    if years_disagree (some s) (some t) then production_year_discrepancy s t ∷ [] else []
year_reasons _ _ = []

unfoldable pub blocking_reasons : MergeEntity → MergeEntity → Bool → List BlockingReason
blocking_reasons source target user_personal_data_attached =
    (if same_text source.content_type target.content_type
      then []
      else content_type_mismatch source.content_type target.content_type ∷ [])
    ++ (year_reasons source.production_year target.production_year
        ++ (if user_personal_data_attached then personal_data_attached ∷ [] else []))

abbrev pub is_empty : List BlockingReason → Bool
is_empty [] = true
is_empty (x ∷ xs) = false

unfoldable pub verify_merge_safety : MergeEntity → MergeEntity → Bool → Bool × List BlockingReason
unfolding blocking_reasons
verify_merge_safety source target user_personal_data_attached =
    let reasons = blocking_reasons source target user_personal_data_attached in
    (is_empty reasons, reasons)

pub record Title : Type 0 where
  pub content_type_id : String
  pub production_year : Option ℕ
  pub canonical_title : String
  pub status_flag : String
  pub updated_at : ℕ

pub record TitleExternalId : Type 0 where
  pub mapping_id : String
  pub title_id : String
  pub provider_name : String
  pub external_id : String

pub record IdentityRedirect : Type 0 where
  pub redirect_id : String
  pub from_id : String
  pub to_id : String
  pub entity_type : String
  pub merge_reason : String
  pub merged_at : ℕ

-- The rows that a merge touches; titles by their primary key.
pub record Catalog : Type 0 where
  pub titles : Dict String Title
  pub external_ids : List TitleExternalId
  pub redirects : List IdentityRedirect

pub data MergeError : Type 0 where
  title_not_found : MergeError
  merge_aborted : List BlockingReason → MergeError

-- `status`, always "MERGED", is left out.
pub record MergeResult : Type 0 where
  pub redirect_id : String
  pub from_id : String
  pub to_id : String
  pub merged_at : ℕ

-- The query of the loop: a row of the target for this provider.
abbrev pub has_provider : String → String → List TitleExternalId → Bool
has_provider title provider [] = false
has_provider title provider (e ∷ es) =
    (e.title_id == title && e.provider_name == provider) || has_provider title provider es

-- One turn of the loop, on every row; `stored` holds the rows as the queries see them.
abbrev pub repoint : List TitleExternalId → String → String → TitleExternalId → TitleExternalId
repoint stored source_id target_id e =
    if e.title_id == source_id && not (has_provider target_id e.provider_name stored)
    then record e { title_id = target_id }
    else e

abbrev pub entity_of : Title → MergeEntity
entity_of t = record { content_type = some t.content_type_id; production_year = t.production_year }

-- What a merge draws from `uuid4` and the clock (read for the redirect, then for the source).
pub record MergeFresh : Type 0 where
  pub redirect_id : String
  pub merged_at : ℕ
  pub updated_at : ℕ

abbrev pub redirect_of : String → String → String → MergeFresh → IdentityRedirect
redirect_of source_id target_id reason f = record {
  redirect_id = f.redirect_id;
  from_id = source_id;
  to_id = target_id;
  entity_type = "TITLE";
  merge_reason = reason;
  merged_at = f.merged_at;
}

abbrev pub retired : MergeFresh → Title → Title
retired f source = record source { status_flag = "RETIRED"; updated_at = f.updated_at }

unfoldable pub apply_merge : String → String → String → MergeFresh → Title → Catalog → Catalog
apply_merge source_id target_id reason f source db = record {
  titles = insert source_id (retired f source) db.titles;
  external_ids = map (repoint db.external_ids source_id target_id) db.external_ids;
  redirects = db.redirects ++ redirect_of source_id target_id reason f ∷ [];
}

-- The merge of two titles that were found.
unfoldable pub merge_found :
    String
    → String
    → String
    → Bool
    → MergeFresh
    → Title
    → Title
    → Catalog
    → Result MergeError MergeResult × Catalog
unfolding verify_merge_safety apply_merge
merge_found source_id target_id reason attached f source target db =
    let (is_safe, blocking) = verify_merge_safety (entity_of source) (entity_of target) attached in
    if not is_safe then (err (merge_aborted blocking), db) else (
      ok (record {
        redirect_id = f.redirect_id;
        from_id = source_id;
        to_id = target_id;
        merged_at = f.merged_at;
      }),
      apply_merge source_id target_id reason f source db,
    )

unfoldable pub execute_title_merge :
    String → String → String → Bool → MergeFresh → Catalog → Result MergeError MergeResult × Catalog
unfolding merge_found
execute_title_merge source_id target_id reason attached f db = elim (lookup source_id db.titles) [
  | none ↦ (err title_not_found, db)
  | some source ↦ elim (lookup target_id db.titles) [
    | none ↦ (err title_not_found, db)
    | some target ↦ merge_found source_id target_id reason attached f source target db
  ]
]
