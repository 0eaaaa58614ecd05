-- ===== src/Quality/Merge/Execution.antt =====
-- services/api/quality/reconciliation.py: the loop over the external ids, and how
-- `execute_title_merge` ends.
use text.Mathlib.TextEquality.{eq_iff}
use cine_vault.Prelude.{
  String, ◌≡◌, refl, Bool, true, false, ◌&&◌, not, List, [], ◌∷◌, map, some, arith, All, All-imp,
  string_eq, ◌==◌, Option-cases, Bool-cases, inl, inr, Result, ok, err,
}
use cine_vault.Prelude.Dict.{lookup}
use cine_vault.Quality.Merge.{
  Title, TitleExternalId, Catalog, MergeError, MergeResult, MergeFresh, has_provider, repoint,
  apply_merge, merge_found, execute_title_merge, entity_of, verify_merge_safety,
}
use cine_vault.Quality.Merge.Safety.{is_safe}

-- What of an external id a merge may not touch.
abbrev pub identity : TitleExternalId → String × String × String
identity e = (e.mapping_id, e.provider_name, e.external_id)

pub identity-repoint :
    (stored : List TitleExternalId) (source target : String) (es : List TitleExternalId)
    → map identity (map (repoint stored source target) es) ≡ map identity es
identity-repoint stored source target [] = refl
identity-repoint stored source target (e ∷ es) =
    elim (Bool-cases (e.title_id == source && not (has_provider target e.provider_name stored))) [
      | inl moved ↦ rw (moved, identity-repoint stored source target es)
      | inr kept ↦ rw (kept, identity-repoint stored source target es)
    ]

-- Two rows of one title and one provider.
abbrev clashes : TitleExternalId → TitleExternalId → Bool
clashes e f = e.title_id == f.title_id && e.provider_name == f.provider_name

-- No title has two external ids of one provider.
abbrev pub IsUnambiguous : List TitleExternalId → Type 0
IsUnambiguous [] = Unit
IsUnambiguous (e ∷ es) = All (λ f. clashes e f ≡ false) es × IsUnambiguous es

-- A row of the target is one that the loop's query finds.
abbrev Seen : String → List TitleExternalId → TitleExternalId → Type 0
Seen target stored e = e.title_id ≡ target → has_provider target e.provider_name stored ≡ true

clashes-repoint :
    (stored : List TitleExternalId) (source target : String) (e f : TitleExternalId)
    → Seen target stored e
    → Seen target stored f
    → clashes e f ≡ false
    → clashes (repoint stored source target e) (repoint stored source target f) ≡ false
clashes-repoint stored source target e f se sf h = ground (
  arith,
  eq_iff e.title_id source,
  eq_iff f.title_id source,
  eq_iff e.title_id f.title_id,
  eq_iff e.provider_name f.provider_name,
  eq_iff target f.title_id,
  eq_iff e.title_id target,
)

All-clashes-repoint :
    (stored : List TitleExternalId) (source target : String) (e : TitleExternalId)
    (es : List TitleExternalId)
    → Seen target stored e
    → All (Seen target stored) es
    → All (λ f. clashes e f ≡ false) es
    → All
        (λ f. clashes (repoint stored source target e) f ≡ false)
        (map (repoint stored source target) es)
All-clashes-repoint stored source target e [] se ss h = tt
All-clashes-repoint stored source target e (f ∷ es) se ss h = (
  clashes-repoint stored source target e f se ss.0 h.0,
  All-clashes-repoint stored source target e es se ss.1 h.1,
)

pub IsUnambiguous-repoint :
    (stored : List TitleExternalId) (source target : String) (es : List TitleExternalId)
    → All (Seen target stored) es
    → IsUnambiguous es
    → IsUnambiguous (map (repoint stored source target) es)
IsUnambiguous-repoint stored source target [] ss h = tt
IsUnambiguous-repoint stored source target (e ∷ es) ss h = (
  All-clashes-repoint stored source target e es ss.0 ss.1 h.0,
  IsUnambiguous-repoint stored source target es ss.1 h.1,
)

Seen-cons :
    (target : String) (x : TitleExternalId) (stored : List TitleExternalId) (e : TitleExternalId)
    → Seen target stored e
    → Seen target (x ∷ stored) e
Seen-cons target x stored e h p = ground (arith, h p)

pub All-Seen : (target : String) (stored : List TitleExternalId) → All (Seen target stored) stored
All-Seen target [] = tt
All-Seen target (x ∷ stored) = (
  λ p. ground (arith, eq_iff x.title_id target, eq_iff x.provider_name x.provider_name),
  All-imp (Seen target stored) (Seen target (x ∷ stored)) (Seen-cons target x stored) stored
      (All-Seen target stored),
)

-- A merge ends in one of two ways: it raises and changes nothing, or both titles were found, the gate passed,
-- and its effect is `apply_merge`.
abbrev pub Done :
    String
    → String
    → String
    → Bool
    → MergeFresh
    → Catalog
    → Result MergeError MergeResult × Catalog
    → Type 0
Done source_id target_id reason attached f db (err e, db') = db' ≡ db
Done source_id target_id reason attached f db (ok result, db') =
    (source : Title) × (target : Title) × (lookup source_id db.titles ≡ some source)
    × (lookup target_id db.titles ≡ some target)
    × (is_safe (entity_of source) (entity_of target) attached ≡ true)
    × (db' ≡ apply_merge source_id target_id reason f source db)

merge_found-Done :
    (source_id target_id reason : String) (attached : Bool) (f : MergeFresh) (source target : Title)
    (db : Catalog)
    → lookup source_id db.titles ≡ some source
    → lookup target_id db.titles ≡ some target
    → Done source_id target_id reason attached f db
        (merge_found source_id target_id reason attached f source target db)
unfolding merge_found
merge_found-Done source_id target_id reason attached f source target db p q =
    elim (Bool-cases (verify_merge_safety (entity_of source) (entity_of target) attached).0) [
      | inl safe ↦ rw safe (source, target, p, q, safe, refl)
      | inr unsafe ↦ rw unsafe refl
    ]

pub execute_title_merge-Done :
    (source_id target_id reason : String) (attached : Bool) (f : MergeFresh) (db : Catalog)
    → Done source_id target_id reason attached f db
        (execute_title_merge source_id target_id reason attached f db)
unfolding execute_title_merge
execute_title_merge-Done source_id target_id reason attached f db =
    elim (Option-cases (lookup source_id db.titles)) [
      | inl p ↦ rw (p, execute_title_merge) refl
      | inr (source, p) ↦ elim (Option-cases (lookup target_id db.titles)) [
        | inl q ↦ rw (p, q, execute_title_merge) refl
        | inr (target, q) ↦
            rw (p, q, execute_title_merge)
              (merge_found-Done source_id target_id reason attached f source target db p q)
      ]
    ]
