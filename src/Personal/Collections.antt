-- ===== src/Personal/Collections.antt =====
-- services/api/repositories/personal.py, lines 876 to 1335: the collections of a user and the library. Ids are
-- UUIDs as texts, times seconds; an id that is no UUID gives the answer of an unknown one. What the catalog says
-- of a title is a query, and a parameter.
pub mod Shelved
use cine_vault.Prelude.{
  ℕ, ◌+◌, String, Bool, true, false, not, ◌&&◌, List, [], ◌∷◌, ◌++◌, map, Option, none, some, leb,
  filter, length, drop, string_eq, pair_eq, ◌==◌, if◌then◌else◌,
}
use cine_vault.Prelude.Dict.{Dict, lookup, insert, delete}
use cine_vault.Personal.States.{WatchlistItem, WatchlistPage, name_or_unknown, sort_items, take}

pub record UserList : Type 0 where
  pub list_id : String
  pub user_id : String
  pub title : String
  pub description : Option String
  pub is_private : Bool
  pub created_at : ℕ

pub record ListItem : Type 0 where
  pub item_id : String
  pub list_id : String
  pub title_id : String
  pub position : ℕ
  pub notes : Option String
  pub added_at : ℕ

pub record Shelf : Type 0 where
  pub lists : List UserList
  pub items : List ListItem

-- What a new row draws from `uuid4` and the clock.
pub record Drawn : Type 0 where
  pub id : String
  pub now : ℕ

abbrev pub items_of : String → List ListItem → List ListItem
items_of list items = filter (λ i. i.list_id == list) items

pub record CollectionItemResponse : Type 0 where
  pub id : String
  pub name : String
  pub description : Option String
  pub item_count : ℕ
  pub is_private : Bool
  pub created_at : ℕ

abbrev pub collection_response : List ListItem → UserList → CollectionItemResponse
collection_response items l = record {
  id = l.list_id;
  name = l.title;
  description = l.description;
  item_count = length (items_of l.list_id items);
  is_private = l.is_private;
  created_at = l.created_at;
}

-- The rows; the database returns them newest first.
unfoldable pub list_collections : String → Shelf → List CollectionItemResponse
list_collections user s =
    map (collection_response s.items) (filter (λ l. l.user_id == user) s.lists)

unfoldable pub create_collection :
    String → String → Option String → Bool → Drawn → Shelf → CollectionItemResponse × Shelf
create_collection user name description is_private f s =
    let l : UserList = record {
      list_id = f.id;
      user_id = user;
      title = name;
      description = description;
      is_private = is_private;
      created_at = f.now;
    } in
    (
      record {
        id = f.id;
        name = name;
        description = description;
        item_count = 0;
        is_private = is_private;
        created_at = f.now;
      },
      record s { lists = s.lists ++ l ∷ [] },
    )

-- The user's list with the id.
abbrev pub own_list : String → String → List UserList → Option UserList
own_list user list [] = none
own_list user list (l ∷ ls) =
    if l.list_id == list && l.user_id == user then some l else own_list user list ls

-- The items of a list that is deleted go with it.
unfoldable pub delete_collection : String → String → Shelf → Bool × Shelf
delete_collection user list s = elim (own_list user list s.lists) [
  | none ↦ (false, s)
  | some l ↦ (
    true,
    record {
      lists = filter (λ l. not (l.list_id == list)) s.lists;
      items = filter (λ i. not (i.list_id == list)) s.items;
    },
  )
]

abbrev pub insert_by_position : ListItem → List ListItem → List ListItem
insert_by_position i [] = i ∷ []
insert_by_position i (j ∷ js) =
    let rest = insert_by_position i js in if leb i.position j.position then i ∷ j ∷ js else j ∷ rest

-- `sorted(ul.items, key=lambda i: i.position)`, which is stable.
abbrev pub by_position : List ListItem → List ListItem
by_position [] = []
by_position (i ∷ is) = insert_by_position i (by_position is)

pub record CollectionTitleItem : Type 0 where
  pub item_id : String
  pub title_id : String
  pub canonical_title : String
  pub notes : Option String
  pub added_at : ℕ

abbrev pub title_item : (String → Option String) → ListItem → CollectionTitleItem
title_item title_name i = record {
  item_id = i.item_id;
  title_id = i.title_id;
  canonical_title = name_or_unknown (title_name i.title_id);
  notes = i.notes;
  added_at = i.added_at;
}

abbrev pub CollectionDetail : Type 0
CollectionDetail = CollectionItemResponse × List CollectionTitleItem

unfoldable pub get_collection_detail :
    (String → Option String) → String → String → Shelf → Option CollectionDetail
get_collection_detail title_name user list s = elim (own_list user list s.lists) [
  | none ↦ none
  | some l ↦ some (
    collection_response s.items l,
    map (title_item title_name) (by_position (items_of list s.items)),
  )
]

abbrev pub is_in : String → String → ListItem → Bool
is_in list title i = i.list_id == list && i.title_id == title

abbrev pub has_item : String → String → List ListItem → Bool
has_item list title [] = false
has_item list title (i ∷ is) = if is_in list title i then true else has_item list title is

abbrev pub new_item : String → String → Option String → Drawn → List ListItem → ListItem
new_item list title notes f items = record {
  item_id = f.id;
  list_id = list;
  title_id = title;
  position = length (items_of list items);
  notes = notes;
  added_at = f.now;
}

abbrev pub add_item : String → String → Option String → Drawn → List ListItem → List ListItem
add_item list title notes f items =
    if has_item list title items then items else items ++ new_item list title notes f items ∷ []

unfoldable pub add_collection_item :
    (String → Option String)
    → String
    → String
    → String
    → Option String
    → Drawn
    → Shelf
    → Option CollectionDetail × Shelf
add_collection_item title_name user list title notes f s = elim (own_list user list s.lists) [
  | none ↦ (none, s)
  | some l ↦
      (let s' : Shelf = record s { items = add_item list title notes f s.items } in
        (get_collection_detail title_name user list s', s'))
]

unfoldable pub remove_collection_item : String → String → String → Shelf → Bool × Shelf
remove_collection_item user list title s = elim (own_list user list s.lists) [
  | none ↦ (false, s)
  | some l ↦
      if has_item list title s.items
      then (true, record s { items = filter (λ i. not (is_in list title i)) s.items })
      else (false, s)
]

-- The library: when each of its titles was added.
abbrev pub Library : Type 0
Library = Dict (String × String) ℕ

-- The fields of an item are those of an item of the watchlist.
abbrev pub LibraryItem : Type 0
LibraryItem = WatchlistItem

abbrev pub library_item : (String → Option String) → String → ℕ → LibraryItem
library_item title_name title added_at = record {
  title_id = title;
  canonical_title = name_or_unknown (title_name title);
  added_at = added_at;
}

unfoldable pub add_to_library :
    (String → Option String) → String → String → ℕ → Library → LibraryItem × Library
add_to_library title_name user title now library = elim (lookup (user, title) library) [
  | some added_at ↦ (library_item title_name title added_at, library)
  | none ↦ (library_item title_name title now, insert (user, title) now library)
]

unfoldable pub remove_from_library : String → String → Library → Bool × Library
remove_from_library user title library = elim (lookup (user, title) library) [
  | none ↦ (false, library)
  | some added_at ↦ (true, delete (user, title) library)
]

-- `None` and "ALL" ask for every title; `has_type` is the comparison with the catalog's type of a title.
abbrev pub is_asked : (String → String → Bool) → Option String → String → Bool
is_asked has_type none title = true
is_asked has_type (some type) title =
    if type == "" then true else if type == "ALL" then true else has_type type title

abbrev pub library_rows : (String → String → Bool) → Option String → String → Library → Library
library_rows has_type type user library =
    filter (λ p. p.0.0 == user && is_asked has_type type p.0.1) library

unfoldable pub list_library :
    (String → Option String)
    → (String → String → Bool)
    → String
    → ℕ
    → ℕ
    → Option String
    → Library
    → WatchlistPage
list_library title_name has_type user limit offset type library =
    let rows = library_rows has_type type user library in
    record {
      items =
          take limit
            (drop offset (sort_items false (map (λ p. library_item title_name p.0.1 p.1) rows)));
      total = length rows;
      limit = limit;
      offset = offset;
    }
