-- ===== src/Personal/Import/Still.antt =====
-- services/api/repositories/personal.py: the steps of an import on a record whose rows are all there.
use mathlib.Core.Path.{subst}
use cine_vault.Prelude.{
  ℕ, String, Bool, true, false, ◌≡◌, ◌⊎◌, refl, sym, ap, ◌∙◌, none, some, arith, filter, ok, err,
  ◌==◌, Bool-cases, Option-cases, inl, inr, string_eq, pair_eq,
}
use cine_vault.Prelude.Dict.{lookup}
use cine_vault.Personal.Ratings.{rated_by, some_row}
use cine_vault.Personal.Import.Resolve.{ImportItem, TextRules}
use cine_vault.Personal.Import.Apply.{
  ImportError, overwrites, Work, RowIds, Import, is_same_viewing, time_of, import_event,
  import_rating, has_state, import_state, import_library, import_state_and_library, is_same_note,
  import_note, count_applied, then_do, import_matched, is_there,
}
use cine_vault.Personal.Import.Rows.{is_there-none}
use cine_vault.Personal.Import.Steps.{Covers, done, row-cases}

-- The time of the record, where there is one, is a time.
abbrev pub is_dated : TextRules → ImportItem → Bool
is_dated rules item = elim (rules.instant item.watched_at) [
  | none ↦ item.watched_at == ""
  | some t ↦ true
]

-- The same import at another time.
abbrev pub later : Import → ℕ → Import
later m now = record m { now = now }

module _ (m : Import) (keep : overwrites m.strategy ≡ false) (now : ℕ) (item : ImportItem)
    (ids : RowIds) where
  module _ (title : String) (w : Work) (c : Covers m title item w.visible) where
    event-still : is_dated m.rules item ≡ true → import_event (later m now) title item ids w ≡ w
    event-still dated = elim (Bool-cases (item.watched_at == "")) [
      | inl e ↦ rw (import_event, e) refl
      | inr e ↦ elim (Option-cases (m.rules.instant item.watched_at)) [
        | inl k ↦ absurd (
            let wrong =
              subst (λ o. elim o [ none ↦ item.watched_at == "" | some t ↦ true ] ≡ true) k dated in
            ground (arith, wrong, e))
        | inr (t, k) ↦
            (let at : time_of m item.watched_at ≡ t = rw (time_of, k) refl in
              let at' : time_of (later m now) item.watched_at ≡ t = rw (time_of, k) refl in
              let v = c.viewing in
              let seen : some_row (
                    filter (is_same_viewing m.user title (time_of m item.watched_at))
                      w.visible.events)
                  ≡ true =
                ground (arith, v, e) in
              let seen_later : some_row (
                    filter (is_same_viewing m.user title (time_of (later m now) item.watched_at))
                      w.visible.events)
                  ≡ true =
                subst
                  (λ x. some_row (filter (is_same_viewing m.user title x) w.visible.events) ≡ true)
                  (at ∙ sym at') seen in
              rw (import_event, e, seen_later) refl)
      ]
    ]

    rating-still :
        (import_rating (later m now) title item ids w ≡ ok w)
        ⊎ ((e : ImportError) × (import_rating (later m now) title item ids w ≡ err e))
    rating-still = elim (Option-cases item.rating_value) [
      | inl e ↦ inl (rw (import_rating, e) refl)
      | inr (value, e) ↦ elim (row-cases (filter (rated_by m.user title) w.visible.ratings)) [
        | inl f ↦ absurd (
            let v =
              subst
                (λ o.
                  elim o [
                    | none ↦ true
                    | some value ↦ some_row (filter (rated_by m.user title) w.visible.ratings)
                  ]
                  ≡ true)
                e c.value in
            let none_there = ap some_row f in ground (arith, v, none_there))
        | inr (inl (r, f)) ↦ inl (rw (import_rating, e, f, keep) refl)
        | inr (inr (r, q, qs, f)) ↦ inr (ImportError.multiple_rows, rw (import_rating, e, f) refl)
      ]
    ]

    note-still :
        (import_note (later m now) title item ids w ≡ ok w)
        ⊎ ((e : ImportError) × (import_note (later m now) title item ids w ≡ err e))
    note-still = elim (Bool-cases (item.notes == "")) [
      | inl e ↦ inl (rw (import_note, e) refl)
      | inr e ↦ elim (row-cases (filter (is_same_note m.user title item.notes) w.visible.notes)) [
        | inl f ↦
            absurd
              (let v = c.text in let none_there = ap some_row f in ground (arith, v, none_there, e))
        | inr (inl (r, f)) ↦ inl (rw (import_note, e, f) refl)
        | inr (inr (r, q, qs, f)) ↦ inr (ImportError.multiple_rows, rw (import_note, e, f) refl)
      ]
    ]

    library-still : has_state item ≡ true → import_library (later m now) title item w ≡ w
    library-still e = elim (Bool-cases (item.manual_status_override == "PLAN_TO_WATCH")) [
      | inl p ↦ rw (import_library, p) refl
      | inr p ↦
          (let key : String × String = (m.user, title) in
            let entry = c.entry in
            let known : is_there key w.visible.library ≡ true = ground (arith, entry, e, p) in
            elim (Option-cases (lookup key w.visible.library)) [
              | inl k ↦ absurd (is_there-none key w.visible.library known k)
              | inr (s, k) ↦ rw (import_library, p, k) refl
            ])
    ]

    state-still : import_state_and_library (later m now) title item w ≡ w
    state-still = elim (Bool-cases (has_state item)) [
      | inr e ↦ rw (import_state_and_library, e) refl
      | inl e ↦
          (let key : String × String = (m.user, title) in
            let status = c.status in
            let known : is_there key w.visible.states ≡ true = ground (arith, status, e) in
            elim (Option-cases (lookup key w.visible.states)) [
              | inl k ↦ absurd (is_there-none key w.visible.states known k)
              | inr (s, k) ↦
                  (let first : import_state (later m now) title item w ≡ w =
                      rw (import_state, k, keep) refl in
                    rw (import_state_and_library, e)
                      (ap (import_library (later m now) title item) first ∙ library-still e))
            ])
    ]

    pub matched-still :
        is_dated m.rules item ≡ true
        → (import_matched (later m now) title item ids w ≡ ok (count_applied w))
          ⊎ ((e : ImportError) × (import_matched (later m now) title item ids w ≡ err e))
    unfolding import_matched
    matched-still dated =
        let last = λ (y : Work). done (count_applied y) in
        let rest = λ (x : Work).
          then_do
            (import_note (later m now) title item ids
              (import_state_and_library (later m now) title item x))
            last in
        let first : import_matched (later m now) title item ids w
            ≡ then_do (import_rating (later m now) title item ids w) rest =
          ap (λ x. then_do (import_rating (later m now) title item ids x) rest)
            (event-still dated) in
        elim rating-still [
          | inr (e, k) ↦ inr (e, first ∙ ap (λ r. then_do r rest) k)
          | inl k ↦
              (let second : import_matched (later m now) title item ids w
                    ≡ then_do (import_note (later m now) title item ids w) last =
                  first
                  ∙ ap (λ r. then_do r rest) k
                  ∙ ap (λ x. then_do (import_note (later m now) title item ids x) last)
                      state-still in
                elim note-still [
                  | inl n ↦ inl (second ∙ ap (λ r. then_do r last) n)
                  | inr (e, n) ↦ inr (e, second ∙ ap (λ r. then_do r last) n)
                ])
        ]
