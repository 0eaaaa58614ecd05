-- ===== src/Personal/Import/Covered.antt =====
-- services/api/repositories/personal.py: what an import that keeps existing rows leaves for all its records.
use mathlib.Core.Path.{subst}
use cine_vault.Prelude.{
  String, true, false, ◌≡◌, refl, sym, ◌∙◌, List, [], ◌∷◌, none, some, arith, filter, Result, ok,
  err, string_eq, pair_eq, ◌==◌, Bool-cases, Option-cases, inl, inr, All,
}
use cine_vault.Personal.Ratings.{rated_by, some_row}
use cine_vault.Personal.Import.Resolve.{ImportItem, Title, resolve_import_candidate_titles}
use cine_vault.Personal.Import.Apply.{
  Tables, ImportError, overwrites, Work, RowIds, Import, import_event, import_rating, has_state,
  import_state, import_state_and_library, import_note, count_applied, then_do, import_matched,
  import_item, import_items,
}
use cine_vault.Personal.Import.Rows.{Within, all_rows, Moves, no_move, trans-Moves, count-Moves}
use cine_vault.Personal.Import.Steps.{
  has_viewing, has_value, has_status, has_entry, Covers, ok-work, event-step, rating-step,
  state-step, library-step, note-step,
}

then_do-ok :
    (r : Result ImportError Work) (f : Work → Result ImportError Work) (v : Work)
    → then_do r f ≡ ok v
    → (w : Work) × (r ≡ ok w) × (f w ≡ ok v)
then_do-ok (err e) f v h = absurd (ground arith)
then_do-ok (ok w) f v h = (w, refl, h)

module _ (m : Import) (title : String) (item : ImportItem) (t u : Tables) (w : Within t u) where
  viewing-Within : has_viewing m title item t ≡ true → has_viewing m title item u ≡ true
  viewing-Within v = elim (Bool-cases (item.watched_at == "")) [
    | inl e ↦ rw e refl
    | inr e ↦ rw e (w.events _ (ground (arith, v, e)))
  ]

  value-Within : has_value m title item t ≡ true → has_value m title item u ≡ true
  value-Within v = elim (Option-cases item.rating_value) [
    | inl e ↦ rw e refl
    | inr (x, e) ↦ rw e (
        w.ratings (rated_by m.user title) (
          subst
            (λ o.
              elim o [
                | none ↦ true
                | some value ↦ some_row (filter (rated_by m.user title) t.ratings)
              ]
              ≡ true)
            e v))
  ]

  status-Within : has_status m title item t ≡ true → has_status m title item u ≡ true
  status-Within v = (let more = w.states (m.user, title) in ground (arith, v, more))

  entry-Within : has_entry m title item t ≡ true → has_entry m title item u ≡ true
  entry-Within v = (let more = w.library (m.user, title) in ground (arith, v, more))

  Covers-Within : Covers m title item t → Covers m title item u
  Covers-Within c = record {
    viewing = viewing-Within c.viewing;
    value = value-Within c.value;
    status = status-Within c.status;
    entry = entry-Within c.entry;
    text = elim (Bool-cases (item.notes == "")) [
      | inl e ↦ rw e refl
      | inr e ↦ (let v = c.text in rw e (w.notes _ (ground (arith, v, e))))
    ];
  }

module _ (m : Import) (keep : overwrites m.strategy ≡ false) where
  state_and_library-step :
      (title : String) (item : ImportItem) (ids : RowIds) (w : Work)
      → let v = import_state_and_library m title item w in
        Moves w v
        × (has_status m title item (all_rows v) ≡ true)
        × (has_entry m title item (all_rows v) ≡ true)
  state_and_library-step title item ids w = elim (Bool-cases (has_state item)) [
    | inr e ↦ rw (import_state_and_library, e) (no_move w, refl, refl)
    | inl e ↦
        (let v = import_state m title item w in
          let (moved, status) = state-step m keep title item ids w in
          let (moved', entry) = library-step m keep title item ids v in
          let kept = moved'.within.states (m.user, title) status in
          rw (import_state_and_library, e) (trans-Moves moved moved', kept, entry))
  ]

  matched-step :
      (title : String) (item : ImportItem) (ids : RowIds) (w v : Work)
      → import_matched m title item ids w ≡ ok v
      → Moves w v × Covers m title item (all_rows v)
  unfolding import_matched
  matched-step title item ids w v h =
      let w0 = import_event m title item ids w in
      let (moved0, viewing) = event-step m keep title item ids w in
      let (w1, rated, rest) =
        then_do-ok (import_rating m title item ids w0)
          (λ x.
            then_do (import_note m title item ids (import_state_and_library m title item x))
              (λ y. ok (count_applied y)))
          v h in
      let (moved1, value) = rating-step m keep title item ids w0 w1 rated in
      let (moved2, status, entry) = state_and_library-step title item ids w1 in
      let w2 = import_state_and_library m title item w1 in
      let (w3, noted, last) =
        then_do-ok (import_note m title item ids w2) (λ y. ok (count_applied y)) v rest in
      let (moved3, text) = note-step m keep title item ids w2 w3 noted in
      let to1 = trans-Moves moved1 (trans-Moves moved2 moved3) in
      let to2 = trans-Moves moved2 moved3 in
      let end = all_rows w3 in
      subst (λ x. Moves w x × Covers m title item (all_rows x)) (ok-work (count_applied w3) v last)
        (
          trans-Moves moved0 (trans-Moves to1 (count-Moves w3)),
          record {
            viewing = viewing-Within m title item (all_rows w0) end to1.within viewing;
            value = value-Within m title item (all_rows w1) end to2.within value;
            status = status-Within m title item (all_rows w2) end moved3.within status;
            entry = entry-Within m title item (all_rows w2) end moved3.within entry;
            text = text;
          },
        )

  -- The record, if its title is found, is covered.
  abbrev pub IsCovered : Tables → ImportItem → Type 0
  IsCovered t item =
      (u : Title)
      → (resolve_import_candidate_titles m.rules m.catalog item).matched ≡ some u
      → Covers m u.title_id item t

  item-step :
      (item : ImportItem) (ids : RowIds) (w v : Work)
      → import_item m item ids w ≡ ok v
      → Moves w v × IsCovered (all_rows v) item
  unfolding import_item
  item-step item ids w v h =
      let found = (resolve_import_candidate_titles m.rules m.catalog item).matched in
      elim (Option-cases found) [
        | inl e ↦
            (let at : import_item m item ids w ≡ ok w = rw (import_item, e) refl in
              subst (λ x. Moves w x × IsCovered (all_rows x) item) (ok-work w v (sym at ∙ h))
                (no_move w, λ u k. absurd (ground (arith, k, e))))
        | inr (t, e) ↦
            (let at : import_item m item ids w ≡ import_matched m t.title_id item ids w =
                rw (import_item, e) refl in
              let (moved, covered) = matched-step t.title_id item ids w v (sym at ∙ h) in
              (
                moved,
                λ u k.
                    (let same : t ≡ u = ground (arith, k, e) in
                      subst (λ (x : Title). Covers m x.title_id item (all_rows v)) same covered),
              ))
      ]

  pub items-step :
      (items : List (ImportItem × RowIds)) (w v : Work)
      → import_items m items w ≡ ok v
      → Moves w v × All (λ p. IsCovered (all_rows v) p.0) items
  items-step [] w v h = subst (λ x. Moves w x × Unit) (ok-work w v h) (no_move w, tt)
  items-step ((item, ids) ∷ items) w v h =
      let (x, first, rest) = then_do-ok (import_item m item ids w) (import_items m items) v h in
      let (moved, covered) = item-step item ids w x first in
      let (moved', others) = items-step items x v rest in
      (
        trans-Moves moved moved',
        (
          λ u k.
              Covers-Within m u.title_id item (all_rows x) (all_rows v) moved'.within (covered u k),
          others,
        ),
      )
