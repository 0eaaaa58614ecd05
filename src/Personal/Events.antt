-- ===== src/Personal/Events.antt =====
-- services/api/repositories/personal.py, lines 160 to 383 and 839 to 874: the log of what a user watched, with the
-- state of the title and the streak that it maintains. Ids are resolved UUIDs, times seconds, percentages tenths;
-- an answer has these in place of their texts. The number of
-- episodes of a series is a query on the catalog and a parameter.
pub mod Log
use cine_vault.Prelude.{
  ℕ, String, Bool, true, false, not, ◌&&◌, ◌||◌, List, [], ◌∷◌, ◌++◌, map, Option, none, some, ltb,
  leb, filter, length, contains, string_eq, pair_eq, ◌==◌, if◌then◌else◌,
}
use cine_vault.Prelude.Dict.{Dict, lookup, insert}
use cine_vault.Personal.States.{TitleState, States}
use cine_vault.Personal.Streaks.{Streak, update_user_streak}

pub record WatchEvent : Type 0 where
  pub watch_event_id : String
  pub user_id : String
  pub title_id : String
  pub edition_id : Option String
  pub season_id : Option String
  pub episode_id : Option String
  pub device_type : Option String
  pub notes : Option String
  pub watched_at : ℕ
  pub is_tombstoned : Bool
  pub created_at : ℕ

-- The time of watching, and the date that its text has, which is the one of its own time zone.
pub record WatchEventCreate : Type 0 where
  pub title_id : String
  pub edition_id : Option String
  pub season_id : Option String
  pub episode_id : Option String
  pub device_type : Option String
  pub notes : Option String
  pub watched_at : ℕ
  pub watch_date : ℕ
  pub progress_percentage : ℕ

pub record WatchEventResponse : Type 0 where
  pub id : String
  pub user_id : String
  pub title_id : String
  pub edition_id : Option String
  pub season_id : Option String
  pub episode_id : Option String
  pub device_type : Option String
  pub notes : Option String
  pub watched_at : ℕ
  pub progress_percentage : ℕ
  pub created_at : ℕ

pub record History : Type 0 where
  pub events : List WatchEvent
  pub states : States
  pub streaks : Dict String Streak

-- An optional filter on the title, where an empty text is none.
abbrev pub is_about : Option String → String → Bool
is_about none title = true
is_about (some t) title = if t == "" then true else title == t

-- The rows of `list_watch_events`, which returns them newest first.
unfoldable pub list_watch_events : String → Option String → History → List WatchEvent
list_watch_events user title h =
    filter (λ e. e.user_id == user && not e.is_tombstoned && is_about title e.title_id) h.events

abbrev pub find_event : String → List WatchEvent → Option WatchEvent
find_event id [] = none
find_event id (e ∷ es) = if e.watch_event_id == id then some e else find_event id es

abbrev pub new_event : String → WatchEventCreate → String → ℕ → WatchEvent
new_event user body id now = record {
  watch_event_id = id;
  user_id = user;
  title_id = body.title_id;
  edition_id = body.edition_id;
  season_id = body.season_id;
  episode_id = body.episode_id;
  device_type = body.device_type;
  notes = body.notes;
  watched_at = body.watched_at;
  is_tombstoned = false;
  created_at = now;
}

-- The user of the request and its percentage, which no row has, are those of the call that is answered.
abbrev pub event_response : String → ℕ → WatchEvent → WatchEventResponse
event_response user progress e = record {
  id = e.watch_event_id;
  user_id = user;
  title_id = e.title_id;
  edition_id = e.edition_id;
  season_id = e.season_id;
  episode_id = e.episode_id;
  device_type = e.device_type;
  notes = e.notes;
  watched_at = e.watched_at;
  progress_percentage = progress;
  created_at = e.created_at;
}

-- `count(distinct episode_id)` of the user's events of the series.
abbrev pub episodes_watched : String → String → List WatchEvent → List String
episodes_watched user title [] = []
episodes_watched user title (e ∷ es) =
    let rest = episodes_watched user title es in
    if e.user_id == user && e.title_id == title && not e.is_tombstoned
    then (elim e.episode_id [
      | none ↦ rest
      | some ep ↦ if contains ep rest then rest else ep ∷ rest
    ])
    else rest

abbrev pub target_status : ℕ → ℕ → Option String → String
target_status total watched none = "COMPLETED"
target_status total watched (some episode) =
    if ltb 0 total && leb total watched then "COMPLETED" else "WATCHING"

abbrev pub overridable : List String
overridable = "PLAN_TO_WATCH" ∷ "WATCHLIST" ∷ "WATCHING" ∷ []

abbrev pub may_override : Option String → Bool
may_override none = true
may_override (some status) = contains status overridable

abbrev pub watched_state : String → Option String → ℕ → Option TitleState → TitleState
watched_state target edition now none = record {
  manual_status_override = some target;
  is_favorite = false;
  preferred_edition_id = edition;
  updated_at = now;
}
watched_state target edition now (some s) =
    if target == "COMPLETED" || may_override s.manual_status_override
    then record s { manual_status_override = some target; updated_at = now }
    else s

-- `id` is the idempotency key, or drawn from `uuid4` where the request has no valid one.
unfoldable pub create_watch_event :
    (String → ℕ) → String → WatchEventCreate → String → ℕ → History → WatchEventResponse × History
create_watch_event total_episodes user body id now h = elim (find_event id h.events) [
  | some e ↦ (event_response user body.progress_percentage e, h)
  | none ↦
      (let e = new_event user body id now in
        let events = h.events ++ e ∷ [] in
        let watched = length (episodes_watched user body.title_id events) in
        let target = target_status (total_episodes body.title_id) watched body.episode_id in
        let key : String × String = (user, body.title_id) in
        (
          event_response user body.progress_percentage e,
          record {
            events = events;
            states =
                insert key (watched_state target body.edition_id now (lookup key h.states))
                  h.states;
            streaks =
                insert user (update_user_streak body.watch_date now (lookup user h.streaks))
                  h.streaks;
          },
        ))
]

abbrev pub tombstoned : String → String → WatchEvent → WatchEvent
tombstoned user id e =
    if e.watch_event_id == id && e.user_id == user then record e { is_tombstoned = true } else e

abbrev pub owns : String → String → List WatchEvent → Bool
owns user id [] = false
owns user id (e ∷ es) = (e.watch_event_id == id && e.user_id == user) || owns user id es

-- A soft delete. (A text that is no UUID gives the same answer as an unknown id.)
unfoldable pub delete_watch_event : String → String → History → Bool × History
delete_watch_event user id h =
    if owns user id h.events
    then (true, record h { events = map (tombstoned user id) h.events })
    else (false, h)
