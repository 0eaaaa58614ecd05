-- ===== src/Personal/Import/Apply.antt =====
-- services/api/repositories/personal.py, lines 2573 to 2722: `apply_user_import`. The session does not flush by
-- itself, so a query sees the rows of the database, changed where the import has changed them, and not those
-- that the import has added: these are pending until the commit, which the unique keys may refuse.
use cine_vault.Prelude.{
  ℕ, ◌+◌, ◌-◌, String, Bool, true, false, not, ◌&&◌, ◌||◌, List, [], ◌∷◌, ◌++◌, Option, none, some,
  leb, filter, Result, ok, err, string_eq, nat_eq, pair_eq, ◌==◌, if◌then◌else◌,
}
use cine_vault.Prelude.Dict.{Dict, lookup, insert}
use cine_vault.Personal.States.{TitleState, States}
use cine_vault.Personal.Events.{WatchEvent}
use cine_vault.Personal.Ratings.{Rating, Note, rated_by, put_rating, some_row}
use cine_vault.Personal.Import.Resolve.{
  ImportItem, Catalog, TextRules, given, resolve_import_candidate_titles,
}

pub record LibraryEntry : Type 0 where
  pub added_at : ℕ
  pub status_override : Option String

pub record Tables : Type 0 where
  pub events : List WatchEvent
  pub ratings : List Rating
  pub states : States
  pub library : Dict (String × String) LibraryEntry
  pub notes : List Note

abbrev pub no_rows : Tables
no_rows = record { events = []; ratings = []; states = []; library = []; notes = [] }

abbrev pub joined : Tables → Tables → Tables
joined t p = record {
  events = t.events ++ p.events;
  ratings = t.ratings ++ p.ratings;
  states = t.states ++ p.states;
  library = t.library ++ p.library;
  notes = t.notes ++ p.notes;
}

pub data ImportError : Type 0 where
  multiple_rows integrity_error : ImportError

pub data Strategy : Type 0 where
  keep_existing overwrite merge : Strategy

abbrev pub overwrites : Strategy → Bool
overwrites keep_existing = false
overwrites overwrite = true
overwrites merge = true

pub record Work : Type 0 where
  pub visible : Tables
  pub pending : Tables
  pub applied_count : ℕ
  pub conflicts_resolved : ℕ

-- `db.add(…)`
abbrev pub pend : Tables → Work → Work
pend added w = record w { pending = joined w.pending added }

-- The ids that the rows of a record draw.
pub record RowIds : Type 0 where
  pub event_id : String
  pub rating_id : String
  pub note_id : String

-- What is fixed for one import.
pub record Import : Type 0 where
  pub rules : TextRules
  pub catalog : Catalog
  pub user : String
  pub strategy : Strategy
  pub now : ℕ

-- `abs(a - b) <= timedelta(minutes=2)`
abbrev pub is_near : ℕ → ℕ → Bool
is_near a b = leb (a - b) 120 && leb (b - a) 120

abbrev pub is_same_viewing : String → String → ℕ → WatchEvent → Bool
is_same_viewing user title at e =
    e.user_id == user && e.title_id == title && not e.is_tombstoned && is_near e.watched_at at

abbrev pub time_of : Import → String → ℕ
time_of m text = elim (m.rules.instant text) [ none ↦ m.now | some t ↦ t ]

abbrev pub imported_event : Import → String → ImportItem → RowIds → WatchEvent
imported_event m title item ids = record {
  watch_event_id = ids.event_id;
  user_id = m.user;
  title_id = title;
  edition_id = none;
  season_id = none;
  episode_id = none;
  device_type = none;
  notes = given item.notes;
  watched_at = time_of m item.watched_at;
  is_tombstoned = false;
  created_at = m.now;
}

abbrev pub add_event : WatchEvent → Work → Work
add_event e w = pend (record no_rows { events = e ∷ [] }) w

abbrev pub import_event : Import → String → ImportItem → RowIds → Work → Work
import_event m title item ids w =
    if item.watched_at == ""
    then w
    else if some_row
        (filter (is_same_viewing m.user title (time_of m item.watched_at)) w.visible.events)
    then w
    else add_event (imported_event m title item ids) w

abbrev pub imported_rating : Import → String → ℕ → RowIds → Rating
imported_rating m title value ids = record {
  rating_id = ids.rating_id;
  user_id = m.user;
  title_id = title;
  rating_value = value;
  rated_at = m.now;
}

abbrev pub add_rating : Rating → Work → Work
add_rating r w = pend (record no_rows { ratings = r ∷ [] }) w

abbrev pub replace_rating : Rating → Work → Work
replace_rating r w = record w {
  visible = record w.visible { ratings = put_rating r w.visible.ratings };
  conflicts_resolved = w.conflicts_resolved + 1;
}

abbrev pub import_rating : Import → String → ImportItem → RowIds → Work → Result ImportError Work
import_rating m title item ids w = elim item.rating_value [
  | none ↦ ok w
  | some value ↦
      (let new = imported_rating m title value ids in
        elim (filter (rated_by m.user title) w.visible.ratings) [
          | [] ↦ ok (add_rating new w)
          | r ∷ rs ↦ elim rs [
            | [] ↦ if overwrites m.strategy then ok (replace_rating new w) else ok w
            | q ∷ qs ↦ err multiple_rows
          ]
        ])
]

abbrev pub is_favorite_given : ImportItem → Bool
is_favorite_given item = elim item.is_favorite [ none ↦ false | some b ↦ b ]

-- `item.is_favorite or item.manual_status_override`
abbrev pub has_state : ImportItem → Bool
has_state item = is_favorite_given item || not (item.manual_status_override == "")

abbrev pub imported_state : Import → ImportItem → TitleState
imported_state m item = record {
  manual_status_override = given item.manual_status_override;
  is_favorite = is_favorite_given item;
  preferred_edition_id = none;
  updated_at = m.now;
}

abbrev pub or_stored {ℓ} : {A : Type ℓ} → Option A → A → A
or_stored none stored = stored
or_stored (some a) stored = a

abbrev pub overwritten_state : Import → ImportItem → TitleState → TitleState
overwritten_state m item s = record s {
  manual_status_override =
      if item.manual_status_override == ""
      then s.manual_status_override
      else some item.manual_status_override;
  is_favorite = or_stored item.is_favorite s.is_favorite;
  updated_at = m.now;
}

abbrev pub import_state : Import → String → ImportItem → Work → Work
import_state m title item w = elim (lookup (m.user, title) w.visible.states) [
  | none ↦ pend (record no_rows { states = ((m.user, title), imported_state m item) ∷ [] }) w
  | some s ↦
      if overwrites m.strategy
      then record w {
        visible = record w.visible {
          states = insert (m.user, title) (overwritten_state m item s) w.visible.states;
        };
        conflicts_resolved = w.conflicts_resolved + 1;
      }
      else w
]

abbrev pub import_library : Import → String → ImportItem → Work → Work
import_library m title item w =
    let entry : LibraryEntry = record {
      added_at = m.now;
      status_override = given item.manual_status_override;
    } in
    if item.manual_status_override == "PLAN_TO_WATCH"
    then w
    else (elim (lookup (m.user, title) w.visible.library) [
      | none ↦ pend (record no_rows { library = ((m.user, title), entry) ∷ [] }) w
      | some e ↦ w
    ])

abbrev pub import_state_and_library : Import → String → ImportItem → Work → Work
import_state_and_library m title item w =
    if has_state item then import_library m title item (import_state m title item w) else w

abbrev pub is_same_note : String → String → String → Note → Bool
is_same_note user title text n = n.user_id == user && n.title_id == title && n.note_text == text

abbrev pub imported_note : Import → String → ImportItem → RowIds → Note
imported_note m title item ids = record {
  note_id = ids.note_id;
  user_id = m.user;
  title_id = title;
  note_text = item.notes;
  created_at = m.now;
}

abbrev pub import_note : Import → String → ImportItem → RowIds → Work → Result ImportError Work
import_note m title item ids w =
    if item.notes == ""
    then ok w
    else (elim (filter (is_same_note m.user title item.notes) w.visible.notes) [
      | [] ↦ ok (pend (record no_rows { notes = imported_note m title item ids ∷ [] }) w)
      | n ∷ ns ↦ elim ns [ [] ↦ ok w | q ∷ qs ↦ err multiple_rows ]
    ])

abbrev pub count_applied : Work → Work
count_applied w = record w { applied_count = w.applied_count + 1 }

abbrev pub then_do :
    Result ImportError Work → (Work → Result ImportError Work) → Result ImportError Work
then_do (err e) f = err e
then_do (ok w) f = f w

-- A record whose title is found.
unfoldable pub import_matched :
    Import → String → ImportItem → RowIds → Work → Result ImportError Work
import_matched m title item ids w =
    then_do (import_rating m title item ids (import_event m title item ids w)) (λ w.
      then_do (import_note m title item ids (import_state_and_library m title item w))
        (λ w. ok (count_applied w)))

unfoldable pub import_item : Import → ImportItem → RowIds → Work → Result ImportError Work
import_item m item ids w = elim (resolve_import_candidate_titles m.rules m.catalog item).matched [
  | none ↦ ok w
  | some t ↦ import_matched m t.title_id item ids w
]

abbrev pub import_items : Import → List (ImportItem × RowIds) → Work → Result ImportError Work
import_items m [] w = ok w
import_items m ((item, ids) ∷ rest) w = then_do (import_item m item ids w) (import_items m rest)

-- A unique key: no added row has the key of a row that is there, or of another added row.
abbrev pub has_rating : Rating → List Rating → Bool
has_rating r rs = some_row (filter (rated_by r.user_id r.title_id) rs)

abbrev pub ratings_fit : List Rating → List Rating → Bool
ratings_fit there [] = true
ratings_fit there (r ∷ rs) =
    not (has_rating r there) && not (has_rating r rs) && ratings_fit there rs

abbrev pub is_there {ℓ} : {V : Type ℓ} → String × String → Dict (String × String) V → Bool
is_there key [] = false
is_there key ((j, v) ∷ d) = if j == key then true else is_there key d

abbrev pub keys_fit {ℓ} : {V : Type ℓ} → Dict (String × String) V → Dict (String × String) V → Bool
keys_fit there [] = true
keys_fit there ((key, v) ∷ d) = not (is_there key there) && not (is_there key d) && keys_fit there d

abbrev pub fits : Work → Bool
fits w =
    ratings_fit w.visible.ratings w.pending.ratings
    && keys_fit w.visible.states w.pending.states
    && keys_fit w.visible.library w.pending.library

abbrev pub commit : Work → Result ImportError Tables
commit w = if fits w then ok (joined w.visible w.pending) else err integrity_error

pub record ImportApplyResponse : Type 0 where
  pub applied_count : ℕ
  pub conflicts_resolved : ℕ

abbrev pub started : Tables → Work
started t = record { visible = t; pending = no_rows; applied_count = 0; conflicts_resolved = 0 }

-- An error rolls everything back; it is raised, where seeds may not stand in.
unfoldable pub apply_user_import :
    Import → List (ImportItem × RowIds) → Tables → Result ImportError ImportApplyResponse × Tables
apply_user_import m items t = elim (import_items m items (started t)) [
  | err e ↦ (err e, t)
  | ok w ↦ elim (commit w) [
    | err e ↦ (err e, t)
    | ok t' ↦ (
      ok (record { applied_count = w.applied_count; conflicts_resolved = w.conflicts_resolved }),
      t',
    )
  ]
]
