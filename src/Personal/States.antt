-- ===== src/Personal/States.antt =====
-- services/api/repositories/personal.py, lines 471 to 719: what a user says of a title, and the watchlist. The
-- table is a dictionary from users and titles to rows. Ids are resolved UUIDs, times seconds.
pub mod Patch
use cine_vault.Prelude.{
  ℕ, zero, suc, String, Bool, true, false, ◌&&◌, ◌||◌, List, [], ◌∷◌, map, Option, none, some, leb,
  Result, ok, err, filter, length, drop, contains, or_text, string_eq, pair_eq, ◌==◌, if◌then◌else◌,
}
use cine_vault.Prelude.Dict.{Dict, lookup, insert}

pub record TitleState : Type 0 where
  pub manual_status_override : Option String
  pub is_favorite : Bool
  pub preferred_edition_id : Option String
  pub updated_at : ℕ

abbrev pub States : Type 0
States = Dict (String × String) TitleState

-- The fields that the request sets, `none` for one that it leaves out and `some none` for a null.
pub record UserTitleStateUpdate : Type 0 where
  pub manual_status_override : Option (Option String)
  pub is_favorite : Option (Option Bool)
  pub preferred_edition_id : Option (Option String)

pub record UserTitleStateResponse : Type 0 where
  pub title_id : String
  pub derived_status : String
  pub manual_status_override : Option String
  pub is_favorite : Bool
  pub preferred_edition_id : Option String
  pub updated_at : ℕ

abbrev pub response_of : String → TitleState → UserTitleStateResponse
response_of title s = record {
  title_id = title;
  derived_status = or_text s.manual_status_override "UNWATCHED";
  manual_status_override = s.manual_status_override;
  is_favorite = s.is_favorite;
  preferred_edition_id = s.preferred_edition_id;
  updated_at = s.updated_at;
}

abbrev pub no_state : ℕ → TitleState
no_state now = record {
  manual_status_override = none;
  is_favorite = false;
  preferred_edition_id = none;
  updated_at = now;
}

abbrev pub state_or_none : Option TitleState → ℕ → TitleState
state_or_none none now = no_state now
state_or_none (some s) now = s

unfoldable pub get_user_title_state : String → String → ℕ → States → UserTitleStateResponse
get_user_title_state user title now states =
    response_of title (state_or_none (lookup (user, title) states) now)

-- A field that is set, or the stored one.
abbrev pub set_or {ℓ} : {A : Type ℓ} → Option A → A → A
set_or none stored = stored
set_or (some value) stored = value

abbrev pub patched : UserTitleStateUpdate → Bool → ℕ → TitleState → TitleState
patched body fav now s = record {
  manual_status_override = set_or body.manual_status_override s.manual_status_override;
  is_favorite = fav;
  preferred_edition_id = set_or body.preferred_edition_id s.preferred_edition_id;
  updated_at = now;
}

-- The column refuses a null, and the error is raised after a rollback.
pub data StateError : Type 0 where
  null_is_favorite : StateError

unfoldable pub update_user_title_state :
    String
    → String
    → UserTitleStateUpdate
    → ℕ
    → States
    → Result StateError UserTitleStateResponse × States
update_user_title_state user title body now states =
    let before = state_or_none (lookup (user, title) states) now in
    elim (set_or body.is_favorite (some before.is_favorite)) [
      | none ↦ (err null_is_favorite, states)
      | some fav ↦
          (let s = patched body fav now before in
            (ok (response_of title s), insert (user, title) s states))
    ]

abbrev pub watchlist_status_values : List String
watchlist_status_values = "PLAN_TO_WATCH" ∷ "WATCHLIST" ∷ []

abbrev pub is_listed : TitleState → Bool
is_listed s = elim s.manual_status_override [
  | none ↦ false
  | some status ↦ contains status watchlist_status_values
]

pub record WatchlistItem : Type 0 where
  pub title_id : String
  pub canonical_title : String
  pub added_at : ℕ

pub record WatchlistPage : Type 0 where
  pub items : List WatchlistItem
  pub total : ℕ
  pub limit : ℕ
  pub offset : ℕ

-- What a title is called, as the catalog has it.
abbrev pub name_or_unknown : Option String → String
name_or_unknown none = "Unknown Title"
name_or_unknown (some name) = name

abbrev pub item_of : (String → Option String) → (String × String) × TitleState → WatchlistItem
item_of title_name ((user, title), s) = record {
  title_id = title;
  canonical_title = name_or_unknown (title_name title);
  added_at = s.updated_at;
}

-- `ORDER BY updated_at`, upwards or downwards; rows of the same time keep their order.
abbrev pub insert_item : Bool → WatchlistItem → List WatchlistItem → List WatchlistItem
insert_item upwards x [] = x ∷ []
insert_item upwards x (y ∷ ys) =
    let rest = insert_item upwards x ys in
    if (if upwards then leb x.added_at y.added_at else leb y.added_at x.added_at)
    then x ∷ y ∷ ys
    else y ∷ rest

abbrev pub sort_items : Bool → List WatchlistItem → List WatchlistItem
sort_items upwards [] = []
sort_items upwards (x ∷ xs) = insert_item upwards x (sort_items upwards xs)

abbrev pub take {ℓ} : {A : Type ℓ} → ℕ → List A → List A
take zero xs = []
take (suc n) [] = []
take (suc n) (x ∷ xs) = x ∷ take n xs

abbrev pub listed_rows : String → States → States
listed_rows user states = filter (λ p. p.0.0 == user && is_listed p.1) states

unfoldable pub list_watchlist :
    (String → Option String) → String → ℕ → ℕ → String → States → WatchlistPage
list_watchlist title_name user limit offset sort states =
    let rows = listed_rows user states in
    record {
      items =
          take limit
            (drop offset (sort_items (sort == "added_at_asc") (map (item_of title_name) rows)));
      total = length rows;
      limit = limit;
      offset = offset;
    }
