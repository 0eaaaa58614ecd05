-- ===== src/Personal/Ratings.antt =====
-- services/api/repositories/personal.py, lines 1336 to 1716: the ratings, notes and reviews of the users. Ids are
-- resolved UUIDs, times seconds.
pub mod Single
use cine_vault.Prelude.{
  ℕ, String, Bool, true, false, not, ◌&&◌, List, [], ◌∷◌, ◌++◌, map, Option, none, some, filter,
  or_text, Result, ok, err, string_eq, ◌==◌, if◌then◌else◌,
}

-- `MultipleResultsFound`.
pub data RowError : Type 0 where
  multiple_rows : RowError

abbrev pub scalar_one_or_none : {A : Type 0} → List A → Result RowError (Option A)
scalar_one_or_none [] = ok none
scalar_one_or_none (x ∷ []) = ok (some x)
scalar_one_or_none (x ∷ y ∷ xs) = err multiple_rows

-- The optional filter on the title, where an empty text is none.
abbrev pub about : Option String → String → Bool
about none title = true
about (some t) title = if t == "" then true else title == t

pub record Rating : Type 0 where
  pub rating_id : String
  pub user_id : String
  pub title_id : String
  pub rating_value : ℕ
  pub rated_at : ℕ

abbrev pub rated_by : String → String → Rating → Bool
rated_by user title r = r.user_id == user && r.title_id == title

unfoldable pub list_ratings : String → Option String → List Rating → List Rating
list_ratings user title ratings = filter (λ r. r.user_id == user && about title r.title_id) ratings

abbrev pub rated : Rating → Rating → Rating
rated new r = record r { rating_value = new.rating_value; rated_at = new.rated_at }

-- The new value in the user's row for the title, which is added if it is not there.
abbrev pub put_rating : Rating → List Rating → List Rating
put_rating new [] = new ∷ []
put_rating new (r ∷ rs) =
    let rest = put_rating new rs in
    if rated_by new.user_id new.title_id r then rated new r ∷ rs else r ∷ rest

-- `id` is drawn for a new row.
unfoldable pub set_rating :
    String → String → ℕ → String → ℕ → List Rating → Result RowError Rating × List Rating
set_rating user title value id now ratings =
    let new : Rating = record {
      rating_id = id;
      user_id = user;
      title_id = title;
      rating_value = value;
      rated_at = now;
    } in
    elim (scalar_one_or_none (filter (rated_by user title) ratings)) [
      | err e ↦ (err e, ratings)
      | ok none ↦ (ok new, put_rating new ratings)
      | ok (some r) ↦ (ok (rated new r), put_rating new ratings)
    ]

unfoldable pub delete_rating : String → String → List Rating → Result RowError Bool × List Rating
delete_rating user title ratings =
    elim (scalar_one_or_none (filter (rated_by user title) ratings)) [
      | err e ↦ (err e, ratings)
      | ok none ↦ (ok false, ratings)
      | ok (some r) ↦ (ok true, filter (λ r. not (rated_by user title r)) ratings)
    ]

pub record Note : Type 0 where
  pub note_id : String
  pub user_id : String
  pub title_id : String
  pub note_text : String
  pub created_at : ℕ

-- The rows; the database returns them newest first.
unfoldable pub list_notes : String → Option String → List Note → List Note
list_notes user title notes = filter (λ n. n.user_id == user && about title n.title_id) notes

unfoldable pub create_note : String → String → String → String → ℕ → List Note → Note × List Note
create_note user title text id now notes =
    let new : Note = record {
      note_id = id;
      user_id = user;
      title_id = title;
      note_text = text;
      created_at = now;
    } in
    (new, notes ++ new ∷ [])

abbrev pub is_note : String → String → Note → Bool
is_note user id n = n.note_id == id && n.user_id == user

abbrev pub some_row {ℓ} : {A : Type ℓ} → List A → Bool
some_row [] = false
some_row (x ∷ xs) = true

-- An id is the table's primary key, so one row at most is found.
unfoldable pub delete_note : String → String → List Note → Bool × List Note
delete_note user id notes =
    if some_row (filter (is_note user id) notes)
    then (true, filter (λ n. not (is_note user id n)) notes)
    else (false, notes)

pub record Review : Type 0 where
  pub review_id : String
  pub user_id : String
  pub title_id : String
  pub review_title : Option String
  pub review_text : String
  pub contains_spoilers : Bool
  pub created_at : ℕ

pub record ReviewResponse : Type 0 where
  pub id : String
  pub title_id : String
  pub review_title : String
  pub review_text : String
  pub is_public : Bool
  pub created_at : ℕ

-- The table has no column for `is_public`: it is kept, negated, as `contains_spoilers`.
abbrev pub review_response : Review → ReviewResponse
review_response r = record {
  id = r.review_id;
  title_id = r.title_id;
  review_title = or_text r.review_title "";
  review_text = r.review_text;
  is_public = not r.contains_spoilers;
  created_at = r.created_at;
}

-- The rows; the database returns them newest first.
unfoldable pub list_reviews : String → Option String → List Review → List ReviewResponse
list_reviews user title reviews =
    map review_response (filter (λ r. r.user_id == user && about title r.title_id) reviews)

pub record ReviewCreate : Type 0 where
  pub title_id : String
  pub review_title : String
  pub review_text : String
  pub is_public : Bool

unfoldable pub create_review :
    String → ReviewCreate → String → ℕ → List Review → ReviewResponse × List Review
create_review user body id now reviews =
    let new : Review = record {
      review_id = id;
      user_id = user;
      title_id = body.title_id;
      review_title = some body.review_title;
      review_text = body.review_text;
      contains_spoilers = not body.is_public;
      created_at = now;
    } in
    (
      record {
        id = id;
        title_id = body.title_id;
        review_title = body.review_title;
        review_text = body.review_text;
        is_public = body.is_public;
        created_at = now;
      },
      reviews ++ new ∷ [],
    )

abbrev pub is_review : String → String → Review → Bool
is_review user id r = r.review_id == id && r.user_id == user

unfoldable pub delete_review : String → String → List Review → Bool × List Review
delete_review user id reviews =
    if some_row (filter (is_review user id) reviews)
    then (true, filter (λ r. not (is_review user id r)) reviews)
    else (false, reviews)
