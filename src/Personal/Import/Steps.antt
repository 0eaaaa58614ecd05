-- ===== src/Personal/Import/Steps.antt =====
-- services/api/repositories/personal.py: what a step of an import that keeps existing rows leaves.
use mathlib.Core.Path.{subst}
use cine_vault.Prelude.{
  ℕ, String, Bool, true, false, not, ◌||◌, ◌≡◌, ◌⊎◌, refl, sym, ap, ◌∙◌, List, [], ◌∷◌, ◌++◌, none,
  some, arith, filter, Result, ok, err, string_eq, pair_eq, ◌==◌, Bool-cases, Option-cases, inl,
  inr,
}
use cine_vault.Prelude.Dict.{lookup}
use cine_vault.Personal.Ratings.{rated_by, some_row}
use cine_vault.Personal.Import.Resolve.{given, ImportItem}
use cine_vault.Personal.Import.Apply.{
  Tables, LibraryEntry, no_rows, ImportError, overwrites, Work, RowIds, Import, pend, is_near,
  is_same_viewing, time_of, imported_event, import_event, imported_rating, add_rating,
  import_rating, has_state, imported_state, import_state, import_library, is_same_note,
  imported_note, import_note, is_there,
}
use cine_vault.Personal.Import.Rows.{
  some_row-front, some_row-back, is_there-front, is_there-back, is_there-some, all_rows, Moves,
  no_move, pend-Moves,
}

-- Whether what a record asks for is there.
abbrev pub has_viewing : Import → String → ImportItem → Tables → Bool
has_viewing m title item t =
    item.watched_at == ""
    || some_row (filter (is_same_viewing m.user title (time_of m item.watched_at)) t.events)

abbrev pub has_value : Import → String → ImportItem → Tables → Bool
has_value m title item t = elim item.rating_value [
  | none ↦ true
  | some value ↦ some_row (filter (rated_by m.user title) t.ratings)
]

abbrev pub has_status : Import → String → ImportItem → Tables → Bool
has_status m title item t = not (has_state item) || is_there (m.user, title) t.states

abbrev pub has_entry : Import → String → ImportItem → Tables → Bool
has_entry m title item t =
    not (has_state item)
    || item.manual_status_override == "PLAN_TO_WATCH"
    || is_there (m.user, title) t.library

abbrev pub has_text : Import → String → ImportItem → Tables → Bool
has_text m title item t =
    item.notes == "" || some_row (filter (is_same_note m.user title item.notes) t.notes)

pub record Covers (m : Import) (title : String) (item : ImportItem) (t : Tables) : Type 0 where
  pub viewing : has_viewing m title item t ≡ true
  pub value : has_value m title item t ≡ true
  pub status : has_status m title item t ≡ true
  pub entry : has_entry m title item t ≡ true
  pub text : has_text m title item t ≡ true

abbrev pub done : Work → Result ImportError Work
done w = ok w

pub ok-work : (a b : Work) → done a ≡ done b → a ≡ b
ok-work a b h = ground arith

pub row-cases :
    {A : Type 0} (xs : List A)
    → (xs ≡ []) ⊎ (((x : A) × (xs ≡ x ∷ [])) ⊎ ((x y : A) × (ys : List A) × (xs ≡ x ∷ y ∷ ys)))
row-cases [] = inl refl
row-cases (x ∷ []) = inr (inl (x, refl))
row-cases (x ∷ y ∷ ys) = inr (inr (x, y, ys, refl))

pub is_near_self : (a : ℕ) → is_near a a ≡ true
is_near_self a = ground arith

pub own_row : {A : Type 0} (p : A → Bool) (x : A) → p x ≡ true → some_row (filter p (x ∷ [])) ≡ true
own_row p x h = rw h refl

pub own_key : {V : Type 0} (k : String × String) (v : V) → is_there k ((k, v) ∷ []) ≡ true
own_key k v = ground (arith, pair_eq.same_iff k k)

module _ (m : Import) (keep : overwrites m.strategy ≡ false) (title : String) (item : ImportItem)
    (ids : RowIds) where
  own_viewing :
      is_same_viewing m.user title (time_of m item.watched_at) (imported_event m title item ids)
      ≡ true
  own_viewing =
      let near = is_near_self (time_of m item.watched_at) in
      ground (arith, near, string_eq.same_iff m.user m.user, string_eq.same_iff title title)

  pub event-step :
      (w : Work)
      → Moves w (import_event m title item ids w)
        × (has_viewing m title item (all_rows (import_event m title item ids w)) ≡ true)
  event-step w =
      let same_viewing = is_same_viewing m.user title (time_of m item.watched_at) in
      elim (Bool-cases (item.watched_at == "")) [
        | inl e ↦ rw e (no_move w, refl)
        | inr e ↦ elim (Bool-cases (some_row (filter same_viewing w.visible.events))) [
          | inl f ↦
              rw (e, f) (no_move w, some_row-front same_viewing w.visible.events w.pending.events f)
          | inr f ↦
              rw (e, f)
                (
                  pend-Moves (record no_rows { events = imported_event m title item ids ∷ [] }) w,
                  some_row-back same_viewing w.visible.events
                      (w.pending.events ++ imported_event m title item ids ∷ [])
                      (some_row-back same_viewing w.pending.events
                        (imported_event m title item ids ∷ [])
                        (own_row same_viewing (imported_event m title item ids) own_viewing)),
                )
        ]
      ]

  pub rating-step :
      (w v : Work)
      → import_rating m title item ids w ≡ ok v
      → Moves w v × (has_value m title item (all_rows v) ≡ true)
  rating-step w v h = elim (Option-cases item.rating_value) [
    | inl e ↦
        (let at : import_rating m title item ids w ≡ ok w = rw (import_rating, e) refl in
          subst (λ x. Moves w x × (has_value m title item (all_rows x) ≡ true))
            (ok-work w v (sym at ∙ h)) (no_move w, rw e refl))
    | inr (value, e) ↦
        (let new = imported_rating m title value ids in
          let mine = rated_by m.user title in
          elim (row-cases (filter mine w.visible.ratings)) [
            | inl f ↦
                (let at : import_rating m title item ids w ≡ ok (add_rating new w) =
                    rw (import_rating, e, f) refl in
                  subst (λ x. Moves w x × (has_value m title item (all_rows x) ≡ true))
                    (ok-work (add_rating new w) v (sym at ∙ h))
                    (
                      pend-Moves (record no_rows { ratings = new ∷ [] }) w,
                      rw e (
                          some_row-back mine w.visible.ratings (w.pending.ratings ++ new ∷ []) (
                            some_row-back mine w.pending.ratings (new ∷ []) (
                              own_row mine new (
                                ground (
                                  arith,
                                  string_eq.same_iff m.user m.user,
                                  string_eq.same_iff title title,
                                ))))),
                    ))
            | inr (inl (r, f)) ↦
                (let at : import_rating m title item ids w ≡ ok w =
                    rw (import_rating, e, f, keep) refl in
                  subst (λ x. Moves w x × (has_value m title item (all_rows x) ≡ true))
                    (ok-work w v (sym at ∙ h))
                    (
                      no_move w,
                      rw e
                          (some_row-front mine w.visible.ratings w.pending.ratings (ap some_row f)),
                    ))
            | inr (inr (r, q, qs, f)) ↦
                (let at : import_rating m title item ids w ≡ err ImportError.multiple_rows =
                    rw (import_rating, e, f) refl in
                  let impossible = sym at ∙ h in absurd (ground (arith, impossible)))
          ])
  ]

  pub state-step :
      (w : Work)
      → Moves w (import_state m title item w)
        × (is_there (m.user, title) (all_rows (import_state m title item w)).states ≡ true)
  state-step w =
      let key : String × String = (m.user, title) in
      elim (Option-cases (lookup key w.visible.states)) [
        | inl e ↦
            rw (import_state, e)
              (
                pend-Moves (record no_rows { states = (key, imported_state m item) ∷ [] }) w,
                is_there-back key w.visible.states
                    (w.pending.states ++ (key, imported_state m item) ∷ [])
                    (is_there-back key w.pending.states ((key, imported_state m item) ∷ [])
                      (own_key key (imported_state m item))),
              )
        | inr (s, e) ↦
            rw (import_state, e, keep)
              (
                no_move w,
                is_there-front key w.visible.states w.pending.states
                    (is_there-some key w.visible.states s e),
              )
      ]

  pub library-step :
      (w : Work)
      → Moves w (import_library m title item w)
        × ((item.manual_status_override == "PLAN_TO_WATCH"
              || is_there (m.user, title) (all_rows (import_library m title item w)).library)
            ≡ true)
  library-step w =
      let key : String × String = (m.user, title) in
      let entry : LibraryEntry = record {
        added_at = m.now;
        status_override = given item.manual_status_override;
      } in
      elim (Bool-cases (item.manual_status_override == "PLAN_TO_WATCH")) [
        | inl p ↦ rw (import_library, p) (no_move w, refl)
        | inr p ↦ elim (Option-cases (lookup key w.visible.library)) [
          | inl e ↦
              rw (import_library, p, e)
                (
                  pend-Moves (record no_rows { library = (key, entry) ∷ [] }) w,
                  is_there-back key w.visible.library (w.pending.library ++ (key, entry) ∷ [])
                      (is_there-back key w.pending.library ((key, entry) ∷ []) (own_key key entry)),
                )
          | inr (s, e) ↦
              rw (import_library, p, e)
                (
                  no_move w,
                  is_there-front key w.visible.library w.pending.library
                      (is_there-some key w.visible.library s e),
                )
        ]
      ]

  pub note-step :
      (w v : Work)
      → import_note m title item ids w ≡ ok v
      → Moves w v × (has_text m title item (all_rows v) ≡ true)
  note-step w v h =
      let mine = is_same_note m.user title item.notes in
      let new = imported_note m title item ids in
      elim (Bool-cases (item.notes == "")) [
        | inl e ↦
            (let at : import_note m title item ids w ≡ ok w = rw (import_note, e) refl in
              subst (λ x. Moves w x × (has_text m title item (all_rows x) ≡ true))
                (ok-work w v (sym at ∙ h)) (no_move w, rw e refl))
        | inr e ↦ elim (row-cases (filter mine w.visible.notes)) [
          | inl f ↦
              (let added : Tables = record no_rows { notes = new ∷ [] } in
                let at : import_note m title item ids w ≡ ok (pend added w) =
                  rw (import_note, e, f) refl in
                subst (λ x. Moves w x × (has_text m title item (all_rows x) ≡ true))
                  (ok-work (pend added w) v (sym at ∙ h))
                  (
                    pend-Moves added w,
                    rw e (
                        some_row-back mine w.visible.notes (w.pending.notes ++ new ∷ []) (
                          some_row-back mine w.pending.notes (new ∷ []) (
                            own_row mine new (
                              ground (
                                arith,
                                string_eq.same_iff m.user m.user,
                                string_eq.same_iff title title,
                                string_eq.same_iff item.notes item.notes,
                              ))))),
                  ))
          | inr (inl (r, f)) ↦
              (let at : import_note m title item ids w ≡ ok w = rw (import_note, e, f) refl in
                subst (λ x. Moves w x × (has_text m title item (all_rows x) ≡ true))
                  (ok-work w v (sym at ∙ h))
                  (
                    no_move w,
                    rw e (some_row-front mine w.visible.notes w.pending.notes (ap some_row f)),
                  ))
          | inr (inr (r, q, qs, f)) ↦
              (let at : import_note m title item ids w ≡ err ImportError.multiple_rows =
                  rw (import_note, e, f) refl in
                let impossible = sym at ∙ h in absurd (ground (arith, impossible)))
        ]
      ]
