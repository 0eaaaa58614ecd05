-- ===== src/Personal/Ratings/Single.antt =====
-- services/api/repositories/personal.py: a user has one rating of a title.
use cine_vault.Prelude.{
  ℕ, ◌≤◌, String, Bool, false, not, ◌&&◌, ◌≡◌, refl, ap, ◌∙◌, List, [], ◌∷◌, some, arith, filter,
  length, ok, string_eq, ◌==◌, Bool-cases, ◌⊎◌, inl, inr,
}
use cine_vault.Personal.Ratings.{
  Rating, rated_by, rated, put_rating, set_rating, delete_rating, list_ratings,
}

-- No user has two ratings of a title.
abbrev pub IsSingle : List Rating → Type 0
IsSingle rs = (user title : String) → length (filter (rated_by user title) rs) ≤ 1

abbrev pub is_for : Rating → String → String → Bool
is_for new user title = new.user_id == user && new.title_id == title

-- The rows of a user and a title after a write.
rows_after : Rating → List Rating → List Rating
rows_after new [] = new ∷ []
rows_after new (r ∷ rs) = rated new r ∷ rs

put-own :
    (new : Rating) (rs : List Rating)
    → filter (rated_by new.user_id new.title_id) (put_rating new rs)
      ≡ rows_after new (filter (rated_by new.user_id new.title_id) rs)
unfolding rows_after
put-own new [] = ground (
  arith,
  string_eq.same_iff new.user_id new.user_id,
  string_eq.same_iff new.title_id new.title_id,
)
put-own new (r ∷ rs) = elim (Bool-cases (rated_by new.user_id new.title_id r)) [
  | inl e ↦ rw (e, e) refl
  | inr e ↦ rw (e, e) (put-own new rs)
]

put-other :
    (new : Rating) (user title : String) (rs : List Rating)
    → is_for new user title ≡ false
    → filter (rated_by user title) (put_rating new rs) ≡ filter (rated_by user title) rs
put-other new user title [] h = rw h refl
put-other new user title (r ∷ rs) h = elim (Bool-cases (rated_by new.user_id new.title_id r)) [
  | inl e ↦
      (let different : rated_by user title r ≡ false = ground (
        arith,
        string_eq.same_iff r.user_id new.user_id,
        string_eq.same_iff r.title_id new.title_id,
      ) in
        rw (e, different) refl)
  | inr e ↦ rw (e, put-other new user title rs h) refl
]

abbrev written : String → String → ℕ → String → ℕ → Rating
written user title value id now = record {
  rating_id = id;
  user_id = user;
  title_id = title;
  rating_value = value;
  rated_at = now;
}

single-cases :
    (rows : List Rating) → length rows ≤ 1 → (rows ≡ []) ⊎ ((r : Rating) × (rows ≡ r ∷ []))
single-cases [] h = inl refl
single-cases (r ∷ []) h = inr (r, refl)
single-cases (r ∷ q ∷ rows) h = absurd (omega arith)

list_ratings-title :
    (user title : String) (rs : List Rating)
    → (title == "") ≡ false
    → list_ratings user (some title) rs ≡ filter (rated_by user title) rs
unfolding list_ratings
list_ratings-title user title [] h = refl
list_ratings-title user title (r ∷ rs) h =
    let rest : list_ratings user (some title) rs ≡ filter (rated_by user title) rs =
      list_ratings-title user title rs h in
    ground (arith, rest)

length-rows_after :
    (new : Rating) (rs : List Rating) → length rs ≤ 1 → length (rows_after new rs) ≤ 1
unfolding rows_after
length-rows_after new [] h = omega arith
length-rows_after new (r ∷ rs) h = h

put-IsSingle : (new : Rating) (rs : List Rating) → IsSingle rs → IsSingle (put_rating new rs)
unfolding rows_after
put-IsSingle new rs v user title = elim (Bool-cases (is_for new user title)) [
  | inr e ↦ rw (put-other new user title rs e) (v user title)
  | inl e ↦
      (let same_user : new.user_id ≡ user = ground (arith, string_eq.same_iff new.user_id user) in
        let same_title : new.title_id ≡ title =
          ground (arith, string_eq.same_iff new.title_id title) in
        rw (← same_user, ← same_title)
          (rw (put-own new rs) (
            length-rows_after new (filter (rated_by new.user_id new.title_id) rs)
              (v new.user_id new.title_id))))
]

length-filter-filter :
    (p q : Rating → Bool) (rs : List Rating)
    → length (filter p (filter q rs)) ≤ length (filter p rs)
length-filter-filter p q [] = omega arith
length-filter-filter p q (r ∷ rs) = ground (arith, length-filter-filter p q rs)

set-IsSingle :
    (user title : String) (value : ℕ) (id : String) (now : ℕ) (rs : List Rating)
    → IsSingle rs
    → IsSingle (set_rating user title value id now rs).1
unfolding set_rating
set-IsSingle user title value id now rs v =
    elim (single-cases (filter (rated_by user title) rs) (v user title)) [
      | inl e ↦ rw (set_rating, e) (put-IsSingle (written user title value id now) rs v)
      | inr (r, e) ↦ rw (set_rating, e) (put-IsSingle (written user title value id now) rs v)
    ]

delete-IsSingle :
    (user title : String) (rs : List Rating)
    → IsSingle rs
    → IsSingle (delete_rating user title rs).1
unfolding delete_rating
delete-IsSingle user title rs v =
    elim (single-cases (filter (rated_by user title) rs) (v user title)) [
      | inl e ↦ rw (delete_rating, e) v
      | inr (r, e) ↦
          rw (delete_rating, e)
            (λ user' title'.
              (let le =
                  length-filter-filter (rated_by user' title') (λ q. not (rated_by user title q))
                    rs in
                let before = v user' title' in omega (arith, le, before)))
    ]

-- Calls that write ratings, of any users.
pub data Call : Type 0 where
  set : String → String → ℕ → String → ℕ → Call
  delete : String → String → Call

abbrev pub apply : Call → List Rating → List Rating
apply (set user title value id now) rs = (set_rating user title value id now rs).1
apply (delete user title) rs = (delete_rating user title rs).1

abbrev pub run : List Call → List Rating → List Rating
run [] rs = rs
run (c ∷ calls) rs = run calls (apply c rs)

run-IsSingle : (calls : List Call) (rs : List Rating) → IsSingle rs → IsSingle (run calls rs)
run-IsSingle [] rs v = v
run-IsSingle (set user title value id now ∷ calls) rs v =
    run-IsSingle calls _ (set-IsSingle user title value id now rs v)
run-IsSingle (delete user title ∷ calls) rs v =
    run-IsSingle calls _ (delete-IsSingle user title rs v)

pub set_rating-ok :
    (calls : List Call) (user title : String) (value : ℕ) (id : String) (now : ℕ)
    → (title == "") ≡ false
    → (r : Rating) × ((set_rating user title value id now (run calls [])).0 ≡ ok r)
      × (r.rating_value ≡ value)
      × (list_ratings user (some title) (set_rating user title value id now (run calls [])).1
          ≡ r ∷ [])
unfolding set_rating rows_after
set_rating-ok calls user title value id now h =
    let rs = run calls [] in
    let new = written user title value id now in
    let single : IsSingle rs = run-IsSingle calls [] (λ user' title'. omega arith) in
    let own = put-own new rs in
    let listed = list_ratings-title user title (put_rating new rs) h in
    elim (single-cases (filter (rated_by user title) rs) (single user title)) [
      | inl e ↦ (
        new,
        rw (set_rating, e) refl,
        refl,
        rw (set_rating, e) (listed ∙ own ∙ ap (rows_after new) e),
      )
      | inr (r, e) ↦ (
        rated new r,
        rw (set_rating, e) refl,
        refl,
        rw (set_rating, e) (listed ∙ own ∙ ap (rows_after new) e),
      )
    ]
