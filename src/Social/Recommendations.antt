-- ===== src/Social/Recommendations.antt =====
-- services/api/repositories/social.py, lines 424 to 634, and services/api/schemas/social.py, lines 33 to 46:
-- recommendations between friends and their lifecycle. The table and the seed store are a dictionary
-- from ids to rows; but for `list_recommendations`, the two branches of each method do the same on it. Ratings are in tenths.
pub mod Lifecycle
use cine_vault.Prelude.{
  ℕ, String, Bool, true, false, not, ◌||◌, List, Option, none, some, filter, Result, ok, err,
  string_eq, ◌==◌, if◌then◌else◌,
}
use cine_vault.Prelude.Dict.{Dict, lookup, insert, values}
use cine_vault.Social.Friendships.{Friendships, NewRow, are_friends_accepted}

pub data RecommendationStatus : Type 0 where
  sent accepted rejected watched rated : RecommendationStatus

-- `ALLOWED_STATE_TRANSITIONS`: whether the second status is listed for the first.
unfoldable pub is_allowed : RecommendationStatus → RecommendationStatus → Bool
is_allowed sent accepted = true
is_allowed sent rejected = true
is_allowed accepted watched = true
is_allowed watched rated = true
is_allowed _ _ = false

pub record Recommendation : Type 0 where
  pub recommendation_id : String
  pub sender_id : String
  pub recipient_id : String
  pub title_id : String
  pub status : RecommendationStatus
  pub sender_predicted_rating : Option ℕ
  pub recipient_actual_rating : Option ℕ
  pub context_note : Option String
  pub sent_at : ℕ
  pub updated_at : ℕ

pub record RecommendationCreate : Type 0 where
  pub recipient_id : String
  pub title_id : String
  pub context_note : Option String
  pub sender_predicted_rating : Option ℕ

pub record RecommendationStateUpdate : Type 0 where
  pub status : RecommendationStatus
  pub recipient_actual_rating : Option ℕ

pub data RecommendationError : Type 0 where
  to_self not_friends unknown_id not_recipient rating_required : RecommendationError
  invalid_transition : RecommendationStatus → RecommendationStatus → RecommendationError

abbrev pub Recommendations : Type 0
Recommendations = Dict String Recommendation

abbrev pub new_recommendation : String → RecommendationCreate → NewRow → Recommendation
new_recommendation sender body new = record {
  recommendation_id = new.id;
  sender_id = sender;
  recipient_id = body.recipient_id;
  title_id = body.title_id;
  status = sent;
  sender_predicted_rating = body.sender_predicted_rating;
  recipient_actual_rating = none;
  context_note = body.context_note;
  sent_at = new.now;
  updated_at = new.now;
}

unfoldable pub create_recommendation :
    String
    → RecommendationCreate
    → NewRow
    → Friendships
    → Recommendations
    → Result RecommendationError Recommendation × Recommendations
create_recommendation sender body new friendships rs =
    let made = new_recommendation sender body new in
    if sender == body.recipient_id
    then (err to_self, rs)
    else if not (are_friends_accepted sender body.recipient_id friendships)
    then (err not_friends, rs)
    else (ok made, insert new.id made rs)

unfoldable pub get_recommendation : String → Recommendations → Option Recommendation
get_recommendation id rs = lookup id rs

abbrev pub is_recipient : Option String → Recommendation → Bool
is_recipient none r = true
is_recipient (some actor) r = r.recipient_id == actor

abbrev pub is_rated : RecommendationStatus → Bool
is_rated rated = true
is_rated _ = false

abbrev pub is_none : Option ℕ → Bool
is_none none = true
is_none (some n) = false

-- The row after an allowed transition.
abbrev pub moved : RecommendationStateUpdate → ℕ → Recommendation → Recommendation
moved body now r = record r {
  status = body.status;
  recipient_actual_rating =
      if is_rated body.status then body.recipient_actual_rating else r.recipient_actual_rating;
  updated_at = now;
}

unfoldable pub transition :
    RecommendationStateUpdate
    → Option String
    → ℕ
    → Recommendation
    → Result RecommendationError Recommendation
unfolding is_allowed
transition body actor now r =
    if not (is_recipient actor r)
    then err not_recipient
    else if not (is_allowed r.status body.status)
    then err (invalid_transition r.status body.status)
    else if is_rated body.status
    then (if is_none body.recipient_actual_rating
        then err rating_required
        else ok (moved body now r))
    else ok (moved body now r)

unfoldable pub update_recommendation_state :
    String
    → RecommendationStateUpdate
    → Option String
    → ℕ
    → Recommendations
    → Result RecommendationError Recommendation × Recommendations
update_recommendation_state id body actor now rs = elim (lookup id rs) [
  | none ↦ (err unknown_id, rs)
  | some r ↦ elim (transition body actor now r) [
    | err e ↦ (err e, rs)
    | ok r' ↦ (ok r', insert id r' rs)
  ]
]

-- The database returns them newest first, the seed store in the order of its dictionary. A role that is neither
-- gives both sides on the database, as here, and none from the seed store.
unfoldable pub list_recommendations : String → String → Recommendations → List Recommendation
list_recommendations user role rs =
    if role == "sent"
    then filter (λ r. r.sender_id == user) (values rs)
    else if role == "received"
    then filter (λ r. r.recipient_id == user) (values rs)
    else filter (λ r. r.sender_id == user || r.recipient_id == user) (values rs)
