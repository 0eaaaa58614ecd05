-- ===== src/Personal/Import/Twice.antt =====
-- services/api/repositories/personal.py: an import that keeps existing rows, and the same import again.
use mathlib.Core.Path.{subst}
use mathlib.Core.List.{append-nil}
use cine_vault.Prelude.{
  ℕ, true, false, ◌≡◌, ◌⊎◌, refl, sym, ap, ◌∙◌, List, [], ◌∷◌, map, arith, Result, ok, err,
  Bool-cases, Option-cases, Result-cases, inl, inr, All,
}
use cine_vault.Personal.Import.Resolve.{ImportItem, resolve_import_candidate_titles}
use cine_vault.Personal.Import.Apply.{
  Tables, no_rows, ImportError, overwrites, Work, RowIds, Import, count_applied, then_do,
  import_matched, import_item, import_items, joined, fits, commit, ImportApplyResponse, started,
  apply_user_import,
}
use cine_vault.Personal.Import.Covered.{IsCovered, items-step}
use cine_vault.Personal.Import.Still.{is_dated, later, matched-still}

abbrev committed : Tables → Result ImportError Tables
committed t = ok t

-- A run that adds nothing and changes nothing, or fails.
abbrev Stays : Work → Result ImportError Work → Type 0
Stays w r =
    ((v : Work) × (r ≡ ok v) × (v.visible ≡ w.visible) × (v.pending ≡ w.pending))
    ⊎ ((e : ImportError) × (r ≡ err e))

module _ (m : Import) (keep : overwrites m.strategy ≡ false) (now : ℕ)
    (redraw : RowIds → RowIds) where
  item-Stays :
      (item : ImportItem) (ids : RowIds) (w : Work)
      → IsCovered m keep w.visible item
      → is_dated m.rules item ≡ true
      → Stays w (import_item (later m now) item ids w)
  unfolding import_item
  item-Stays item ids w c dated =
      let found = (resolve_import_candidate_titles m.rules m.catalog item).matched in
      elim (Option-cases found) [
        | inl e ↦ inl (w, rw (import_item, e) refl, refl, refl)
        | inr (t, e) ↦
            (let at : import_item (later m now) item ids w
                  ≡ import_matched (later m now) t.title_id item ids w =
                rw (import_item, e) refl in
              elim (matched-still m keep now item ids t.title_id w (c t e) dated) [
                | inl k ↦ inl (count_applied w, at ∙ k, refl, refl)
                | inr (x, k) ↦ inr (x, at ∙ k)
              ])
      ]

  items-Stays :
      (items : List (ImportItem × RowIds)) (w : Work)
      → All (λ p. IsCovered m keep w.visible p.0) items
      → All (λ p. is_dated m.rules p.0 ≡ true) items
      → Stays w (import_items (later m now) (map (λ p. (p.0, redraw p.1)) items) w)
  items-Stays [] w c d = inl (w, refl, refl, refl)
  items-Stays ((item, ids) ∷ items) w c d =
      let rest = import_items (later m now) (map (λ p. (p.0, redraw p.1)) items) in
      elim (item-Stays item (redraw ids) w c.0 d.0) [
        | inr (x, k) ↦ inr (x, ap (λ r. then_do r rest) k)
        | inl (v, k, same, same') ↦
            elim (items-Stays items v
              (subst (λ t. All (λ p. IsCovered m keep t p.0) items) (sym same) c.1) d.1) [
                | inr (x, l) ↦ inr (x, ap (λ r. then_do r rest) k ∙ l)
                | inl (u, l, at, at') ↦
                    inl (u, ap (λ r. then_do r rest) k ∙ l, at ∙ same, at' ∙ same')
              ]
      ]

joined-nothing : (t : Tables) → joined t no_rows ≡ t
joined-nothing t =
    rw
      (
        append-nil t.events,
        append-nil t.ratings,
        append-nil t.states,
        append-nil t.library,
        append-nil t.notes,
      )
      refl

commit-nothing : (w : Work) (t : Tables) → w.visible ≡ t → w.pending ≡ no_rows → commit w ≡ ok t
commit-nothing w t same nothing =
    rw (commit, same, nothing) (ap (λ x. committed x) (joined-nothing t))

commit-ok : (w : Work) (t : Tables) → commit w ≡ ok t → joined w.visible w.pending ≡ t
commit-ok w t h = elim (Bool-cases (fits w)) [
  | inl e ↦ ground (arith, e)
  | inr e ↦ absurd (ground (arith, e))
]

apply-ok :
    (m : Import) (items : List (ImportItem × RowIds)) (t t' : Tables) (r : ImportApplyResponse)
    → apply_user_import m items t ≡ (ok r, t')
    → (w : Work) × (import_items m items (started t) ≡ ok w) × (joined w.visible w.pending ≡ t')
unfolding apply_user_import
apply-ok m items t t' r h = elim (Result-cases (import_items m items (started t))) [
  | inl (x, e) ↦ absurd (ground arith)
  | inr (w, e) ↦ elim (Result-cases (commit w)) [
    | inl (x, k) ↦ absurd (ground arith)
    | inr (u, k) ↦ (w, e, commit-ok w u k ∙ (let same : u ≡ t' = ground arith in same))
  ]
]

-- An import that keeps existing rows and commits adds rows, and changes and removes none. The same import
-- again, at any later time and with other ids for its rows, leaves exactly what the first one left, if every
-- time in the records can be read.
pub apply_user_import-again :
    (m : Import) (now : ℕ) (redraw : RowIds → RowIds) (items : List (ImportItem × RowIds))
    (t t' : Tables) (r : ImportApplyResponse)
    → overwrites m.strategy ≡ false
    → All (λ p. is_dated m.rules p.0 ≡ true) items
    → apply_user_import m items t ≡ (ok r, t')
    → ((added : Tables) × (t' ≡ joined t added))
      × ((apply_user_import (later m now) (map (λ p. (p.0, redraw p.1)) items) t').1 ≡ t')
unfolding apply_user_import
apply_user_import-again m now redraw items t t' r keep dated h =
    let (w, first, is) = apply-ok m items t t' r h in
    let (moved, covered) = items-step m keep items (started t) w first in
    let second = import_items (later m now) (map (λ p. (p.0, redraw p.1)) items) (started t') in
    (
      (w.pending, sym is ∙ ap (λ x. joined x w.pending) moved.same),
      elim (items-Stays m keep now redraw items (started t')
          (subst (λ x. All (λ p. IsCovered m keep x p.0) items) is covered) dated) [
            | inr (x, k) ↦ rw (apply_user_import, k) refl
            | inl (v, k, same, nothing) ↦
                (let done_again = commit-nothing v t' same nothing in
                  rw (apply_user_import, k) (rw done_again refl))
          ],
    )
