-- ===== src/Social/Clubs.antt =====
-- services/api/repositories/social.py, lines 2227 to 2437: watch clubs, their members and their feeds. A club is
-- filed under its slug, which is unique; the text of a slug and the ids are drawn. The two branches of each method
-- do the same on these rows.
pub mod Counted
use cine_vault.Prelude.{
  ℕ, ◌+◌, String, Bool, true, false, ◌&&◌, List, [], ◌∷◌, ◌++◌, map, Option, none, some, leb,
  filter, length, contains, Result, ok, err, string_eq, ◌==◌, if◌then◌else◌,
}
use cine_vault.Prelude.Dict.{Dict, lookup, insert, values}
use cine_vault.Personal.States.{take}

pub record Club : Type 0 where
  pub club_id : String
  pub name : String
  pub slug : String
  pub created_by : String
  pub avatar_url : Option String
  pub description : Option String
  pub member_count : ℕ
  pub created_at : ℕ

pub record Membership : Type 0 where
  pub club_id : String
  pub user_id : String
  pub role : String
  pub joined_at : ℕ

pub record Activity : Type 0 where
  pub activity_id : String
  pub club_id : String
  pub user_id : String
  pub activity_type : String
  pub reference_id : Option String
  pub created_at : ℕ

pub record Clubs : Type 0 where
  pub clubs : Dict String Club
  pub memberships : List Membership
  pub activities : List Activity

pub data ClubError : Type 0 where
  club_not_found : ClubError

pub record WatchClubCreate : Type 0 where
  pub name : String
  pub avatar_url : Option String
  pub description : Option String

-- The id and the slug of a new club, and the clock.
pub record ClubFresh : Type 0 where
  pub id : String
  pub slug : String
  pub now : ℕ

abbrev pub new_club : String → WatchClubCreate → ClubFresh → Club
new_club creator body f = record {
  club_id = f.id;
  name = body.name;
  slug = f.slug;
  created_by = creator;
  avatar_url = body.avatar_url;
  description = body.description;
  member_count = 1;
  created_at = f.now;
}

abbrev pub member : String → String → String → ℕ → Membership
member club user role now = record { club_id = club; user_id = user; role = role; joined_at = now }

unfoldable pub create_watch_club : String → WatchClubCreate → ClubFresh → Clubs → Club × Clubs
create_watch_club creator body f s =
    let club = new_club creator body f in
    (
      club,
      record s {
        clubs = insert f.slug club s.clubs;
        memberships = s.memberships ++ member f.id creator "OWNER" f.now ∷ [];
      },
    )

abbrev pub members_of : String → List Membership → List Membership
members_of club ms = filter (λ m. m.club_id == club) ms

unfoldable pub get_watch_club : String → Clubs → Result ClubError (Club × List Membership)
get_watch_club slug s = elim (lookup slug s.clubs) [
  | none ↦ err club_not_found
  | some club ↦ ok (club, members_of club.club_id s.memberships)
]

abbrev pub find_member : String → String → List Membership → Option Membership
find_member club user [] = none
find_member club user (m ∷ ms) =
    if m.club_id == club && m.user_id == user then some m else find_member club user ms

abbrev pub one_more : Club → Club
one_more club = record club { member_count = club.member_count + 1 }

unfoldable pub join_watch_club : String → String → ℕ → Clubs → Result ClubError Membership × Clubs
join_watch_club slug user now s = elim (lookup slug s.clubs) [
  | none ↦ (err club_not_found, s)
  | some club ↦ elim (find_member club.club_id user s.memberships) [
    | some m ↦ (ok m, s)
    | none ↦
        (let m = member club.club_id user "MEMBER" now in
          (
            ok m,
            record s {
              clubs = insert slug (one_more club) s.clubs;
              memberships = s.memberships ++ m ∷ [];
            },
          ))
  ]
]

abbrev pub has_joined : String → List Membership → Club → Bool
has_joined user ms club =
    contains club.club_id (map (λ m. m.club_id) (filter (λ m. m.user_id == user) ms))

unfoldable pub list_user_clubs : String → Clubs → List Club
list_user_clubs user s = filter (has_joined user s.memberships) (values s.clubs)

-- Nothing asks whether the user is a member, or whether the club is there.
unfoldable pub post_club_activity :
    String → String → String → Option String → String → ℕ → Clubs → Activity × Clubs
post_club_activity club user type reference id now s =
    let a : Activity = record {
      activity_id = id;
      club_id = club;
      user_id = user;
      activity_type = type;
      reference_id = reference;
      created_at = now;
    } in
    (a, record s { activities = s.activities ++ a ∷ [] })

-- Newest first; activities of the same time keep their order.
abbrev pub insert_activity : Activity → List Activity → List Activity
insert_activity a [] = a ∷ []
insert_activity a (b ∷ bs) =
    let rest = insert_activity a bs in
    if leb b.created_at a.created_at then a ∷ b ∷ bs else b ∷ rest

abbrev pub newest_first : List Activity → List Activity
newest_first [] = []
newest_first (a ∷ others) = insert_activity a (newest_first others)

unfoldable pub get_club_activity_feed : String → ℕ → Clubs → Result ClubError (List Activity)
get_club_activity_feed slug limit s = elim (lookup slug s.clubs) [
  | none ↦ err club_not_found
  | some club ↦
      ok (take limit (newest_first (filter (λ a. a.club_id == club.club_id) s.activities)))
]
