-- ===== src/Quality/Merge/Effect.antt =====
-- services/api/quality/reconciliation.py: what `execute_title_merge` promises of the rows.
use mathlib.Core.Path.{subst}
use cine_vault.Prelude.{
  ℕ, inr, String, ◌≡◌, refl, Bool, true, false, [], ◌∷◌, ◌++◌, map, Option, none, some, arith,
  string_eq, ◌==◌, Result, ok, err, if◌then◌else◌,
}
use cine_vault.Prelude.Dict.{lookup, lookup-insert}
use cine_vault.Quality.Merge.{
  Title, Catalog, MergeError, MergeResult, MergeFresh, retired, apply_merge, merge_found,
  execute_title_merge, entity_of, verify_merge_safety,
}
use cine_vault.Quality.Merge.Safety.{is_safe, YearsAreClose, verify_merge_safety_iff}
use cine_vault.Quality.Merge.Execution.{
  Done, execute_title_merge-Done, identity, identity-repoint, IsUnambiguous, IsUnambiguous-repoint,
  All-Seen,
}

module _ (source_id target_id reason : String) (attached : Bool) (f : MergeFresh)
    (db db' : Catalog) where
  Done-of :
      (r : Result MergeError MergeResult)
      → execute_title_merge source_id target_id reason attached f db ≡ (r, db')
      → Done source_id target_id reason attached f db (r, db')
  Done-of r h =
      subst (Done source_id target_id reason attached f db) h
        (execute_title_merge-Done source_id target_id reason attached f db)

  -- A merge that raises leaves every row as it was.
  pub execute_title_merge-err :
      (e : MergeError)
      → execute_title_merge source_id target_id reason attached f db ≡ (err e, db')
      → db' ≡ db
  execute_title_merge-err e h = Done-of (err e) h

  -- A merge that succeeds had no personal data attached. It sets the status of the source title to RETIRED
  -- and its time of update, leaves every other title as it was, appends one redirect from the source to the target, and drops or alters
  -- no external id but for the title that it belongs to.
  pub execute_title_merge-ok :
      (result : MergeResult)
      → execute_title_merge source_id target_id reason attached f db ≡ (ok result, db')
      → (attached ≡ false)
        × ((source : Title) × (lookup source_id db.titles ≡ some source)
            × ((id : String)
                → lookup id db'.titles ≡ (
                    if source_id == id
                    then some (record source { status_flag = "RETIRED"; updated_at = f.updated_at })
                    else lookup id db.titles)))
        × (db'.redirects
            ≡ db.redirects
              ++ record {
                redirect_id = f.redirect_id;
                from_id = source_id;
                to_id = target_id;
                entity_type = "TITLE";
                merge_reason = reason;
                merged_at = f.merged_at;
              }
                ∷ [])
        × (map identity db'.external_ids ≡ map identity db.external_ids)
  execute_title_merge-ok result h =
      let (source, target, p, q, safe, effect) = Done-of (ok result) h in
      (
        ((verify_merge_safety_iff (entity_of source) (entity_of target) attached).0 safe).2,
        (
          source,
          p,
          λ id.
              rw effect
                (unfold apply_merge in lookup-insert source_id id (retired f source) db.titles),
        ),
        rw effect (unfold apply_merge in refl),
        rw effect (
            unfold apply_merge in
            identity-repoint db.external_ids source_id target_id db.external_ids),
      )

  -- If no title had two external ids of one provider before the merge, none has after it, however the
  -- merge ends.
  pub execute_title_merge-IsUnambiguous :
      (r : Result MergeError MergeResult)
      → execute_title_merge source_id target_id reason attached f db ≡ (r, db')
      → IsUnambiguous db.external_ids
      → IsUnambiguous db'.external_ids
  execute_title_merge-IsUnambiguous (err e) h u = rw (execute_title_merge-err e h) u
  execute_title_merge-IsUnambiguous (ok result) h u =
      let (source, target, p, q, safe, effect) = Done-of (ok result) h in
      rw effect (
        unfold apply_merge in
        IsUnambiguous-repoint db.external_ids source_id target_id db.external_ids
          (All-Seen target_id db.external_ids) u)

YearsAreClose-refl : (y : Option ℕ) → YearsAreClose y y
YearsAreClose-refl none = tt
YearsAreClose-refl (some y) = inr (inr (omega arith))

safe_with_itself : (t : Title) → is_safe (entity_of t) (entity_of t) false ≡ true
safe_with_itself t =
    (verify_merge_safety_iff (entity_of t) (entity_of t) false).1
      (refl, YearsAreClose-refl t.production_year, refl)

merge_found_safe :
    (source_id target_id reason : String) (f : MergeFresh) (source target : Title) (db : Catalog)
    → (verify_merge_safety (entity_of source) (entity_of target) false).0 ≡ true
    → merge_found source_id target_id reason false f source target db ≡ (
      ok (record {
        redirect_id = f.redirect_id;
        from_id = source_id;
        to_id = target_id;
        merged_at = f.merged_at;
      }),
      apply_merge source_id target_id reason f source db,
    )
unfolding merge_found
merge_found_safe source_id target_id reason f source target db safe = rw safe

-- Nothing stops the merge of a title into itself: with no personal data attached it succeeds for every
-- title that exists, retires the title and redirects its id to itself.
pub self_merge :
    (id reason : String) (f : MergeFresh) (db : Catalog) (t : Title)
    → lookup id db.titles ≡ some t
    → execute_title_merge id id reason false f db ≡ (
      ok (record {
        redirect_id = f.redirect_id;
        from_id = id;
        to_id = id;
        merged_at = f.merged_at;
      }),
      apply_merge id id reason f t db,
    )
unfolding execute_title_merge
self_merge id reason f db t e =
    rw (e, execute_title_merge) (rw e (merge_found_safe id id reason f t t db (safe_with_itself t)))
