-- ===== src/Social/Clubs/Counted.antt =====
-- services/api/repositories/social.py: the member counts of clubs.
use mathlib.Core.Path.{subst}
use cine_vault.Prelude.{
  ℕ, ◌+◌, ◌≤◌, String, Bool, ◌&&◌, ◌≡◌, ◌≢◌, ◌⊎◌, refl, sym, ap, ◌∙◌, List, [], ◌∷◌, ◌++◌, none,
  some, arith, filter, length, string_eq, ◌==◌, if◌then◌else◌, Bool-cases, Option-cases, inl, inr,
}
use cine_vault.Prelude.Dict.{Dict, lookup, insert, lookup-insert}
use cine_vault.Social.Clubs.{
  Club, Membership, Clubs, WatchClubCreate, ClubFresh, new_club, member, create_watch_club,
  members_of, find_member, one_more, join_watch_club,
}

abbrev pub is_member : String → String → Membership → Bool
is_member club user m = m.club_id == club && m.user_id == user

-- The count of a club is the number of its members, a user is a member once, and two clubs have two ids.
pub record IsCounted (s : Clubs) : Type 0 where
  pub counted :
      (slug : String) (club : Club)
      → lookup slug s.clubs ≡ some club
      → club.member_count ≡ length (members_of club.club_id s.memberships)
  pub once : (club user : String) → length (filter (is_member club user) s.memberships) ≤ 1
  pub apart :
      (slug slug' : String) (club club' : Club)
      → lookup slug s.clubs ≡ some club
      → lookup slug' s.clubs ≡ some club'
      → club.club_id ≡ club'.club_id
      → slug ≡ slug'

insert-cases :
    (k j : String) (v w : Club) (d : Dict String Club)
    → lookup j (insert k v d) ≡ some w
    → ((k ≡ j) × (v ≡ w)) ⊎ ((k ≢ j) × (lookup j d ≡ some w))
insert-cases k j v w d h = elim (Bool-cases (k == j)) [
  | inl same ↦ inl ((string_eq.same_iff k j).0 same, ground (arith, lookup-insert k j v d))
  | inr other ↦
      inr (λ e. ground (arith, string_eq.same_iff k j), ground (arith, lookup-insert k j v d))
]

length-members_of-append :
    (club : String) (ms : List Membership) (m : Membership)
    → length (members_of club (ms ++ m ∷ []))
      ≡ length (members_of club ms) + (if m.club_id == club then 1 else 0)
length-members_of-append club [] m = ground arith
length-members_of-append club (n ∷ ms) m = ground (arith, length-members_of-append club ms m)

length-filter-append :
    (club user : String) (ms : List Membership) (m : Membership)
    → length (filter (is_member club user) (ms ++ m ∷ []))
      ≡ length (filter (is_member club user) ms) + (if is_member club user m then 1 else 0)
length-filter-append club user [] m = ground arith
length-filter-append club user (n ∷ ms) m = ground (arith, length-filter-append club user ms m)

find_member-none :
    (club user : String) (ms : List Membership)
    → find_member club user ms ≡ none
    → length (filter (is_member club user) ms) ≡ 0
find_member-none club user [] h = refl
find_member-none club user (m ∷ ms) h = ground (arith, find_member-none club user ms)

members_of-none :
    (club user : String) (ms : List Membership)
    → length (members_of club ms) ≡ 0
    → length (filter (is_member club user) ms) ≡ 0
members_of-none club user [] h = refl
members_of-none club user (m ∷ ms) h = ground (arith, members_of-none club user ms)

-- A member that is added where the user is none yet.
append-once :
    (club user role : String) (now : ℕ) (ms : List Membership)
    → ((c u : String) → length (filter (is_member c u) ms) ≤ 1)
    → length (filter (is_member club user) ms) ≡ 0
    → (c u : String) → length (filter (is_member c u) (ms ++ member club user role now ∷ [])) ≤ 1
append-once club user role now ms once absent c u =
    let size = length-filter-append c u ms (member club user role now) in
    let before = once c u in
    elim (Bool-cases (is_member c u (member club user role now))) [
      | inr e ↦ ground (arith, size, before, e)
      | inl e ↦
          (let same_club : club ≡ c = ground (arith, string_eq.same_iff club c) in
            let same_user : user ≡ u = ground (arith, string_eq.same_iff user u) in
            let none_here : length (filter (is_member c u) ms) ≡ 0 =
              rw (← same_club, ← same_user) absent in
            ground (arith, size, none_here, e))
    ]

-- The slug and the id of a new club are new.
pub record IsNew (f : ClubFresh) (s : Clubs) : Type 0 where
  pub slug_unused : lookup f.slug s.clubs ≡ none
  pub id_unused :
      (slug : String) (club : Club) → lookup slug s.clubs ≡ some club → club.club_id ≢ f.id
  pub no_members : length (members_of f.id s.memberships) ≡ 0

create-IsCounted :
    (creator : String) (body : WatchClubCreate) (f : ClubFresh) (s : Clubs)
    → IsNew f s
    → IsCounted s
    → IsCounted (create_watch_club creator body f s).1
unfolding create_watch_club
create-IsCounted creator body f s new v =
    let club = new_club creator body f in
    let size = λ (c : String).
      length-members_of-append c s.memberships (member f.id creator "OWNER" f.now) in
    let no_members = new.no_members in
    record {
      counted = λ slug c h. elim (insert-cases f.slug slug club c s.clubs h) [
        | inl (k, same) ↦
            subst
              (λ x.
                x.member_count
                ≡ length (
                    members_of x.club_id (s.memberships ++ member f.id creator "OWNER" f.now ∷ [])))
              same
              (let at_id = size f.id in
                ground (arith, at_id, no_members, string_eq.same_iff f.id f.id))
        | inr (k, old) ↦
            (let at_id = size c.club_id in
              let before = v.counted slug c old in
              let other = new.id_unused slug c old in
              ground (arith, at_id, before, other, string_eq.same_iff f.id c.club_id))
      ];
      once =
          append-once f.id creator "OWNER" f.now s.memberships v.once
            (members_of-none f.id creator s.memberships no_members);
      apart = λ slug slug' c c' h h' same. elim (insert-cases f.slug slug club c s.clubs h) [
        | inl (k, e) ↦ elim (insert-cases f.slug slug' club c' s.clubs h') [
          | inl (k', e') ↦ sym k ∙ k'
          | inr (k', old') ↦
              absurd (new.id_unused slug' c' old' (sym same ∙ sym (ap (λ (x : Club). x.club_id) e)))
        ]
        | inr (k, old) ↦ elim (insert-cases f.slug slug' club c' s.clubs h') [
          | inl (k', e') ↦
              absurd (new.id_unused slug c old (same ∙ sym (ap (λ (x : Club). x.club_id) e')))
          | inr (k', old') ↦ v.apart slug slug' c c' old old' same
        ]
      ];
    }

-- Where a row of the changed table comes from.
origin :
    (slug slug' : String) (club c : Club) (d : Dict String Club)
    → lookup slug d ≡ some club
    → lookup slug' (insert slug (one_more club) d) ≡ some c
    → (old : Club) × (lookup slug' d ≡ some old) × (old.club_id ≡ c.club_id)
origin slug slug' club c d known h = elim (insert-cases slug slug' (one_more club) c d h) [
  | inl (k, e) ↦ (club, subst (λ x. lookup x d ≡ some club) k known, ap (λ (x : Club). x.club_id) e)
  | inr (k, old) ↦ (c, old, refl)
]

join-IsCounted :
    (slug user : String) (now : ℕ) (s : Clubs)
    → IsCounted s
    → IsCounted (join_watch_club slug user now s).1
unfolding join_watch_club
join-IsCounted slug user now s v = elim (Option-cases (lookup slug s.clubs)) [
  | inl e ↦ rw (join_watch_club, e) v
  | inr (club, e) ↦ elim (Option-cases (find_member club.club_id user s.memberships)) [
    | inr (m, k) ↦ rw (join_watch_club, e, k) v
    | inl k ↦
        (let size = λ (c : String).
            length-members_of-append c s.memberships (member club.club_id user "MEMBER" now) in
          let count = v.counted slug club e in
          rw (join_watch_club, e, k)
            (record {
              counted = λ slug' c h. elim (insert-cases slug slug' (one_more club) c s.clubs h) [
                | inl (at, same) ↦
                    subst
                      (λ x.
                        x.member_count
                        ≡ length (
                            members_of x.club_id
                              (s.memberships ++ member club.club_id user "MEMBER" now ∷ [])))
                      same
                      (let at_id = size club.club_id in
                        ground (arith, at_id, count, string_eq.same_iff club.club_id club.club_id))
                | inr (at, old) ↦
                    (let at_id = size c.club_id in
                      let before = v.counted slug' c old in
                      let other : club.club_id ≢ c.club_id =
                        λ ids. at (v.apart slug slug' club c e old ids) in
                      ground
                        (arith, at_id, before, other, string_eq.same_iff club.club_id c.club_id))
              ];
              once =
                  append-once club.club_id user "MEMBER" now s.memberships v.once
                    (find_member-none club.club_id user s.memberships k);
              apart = λ a b c c' h h' same.
                  (let (o, at, id) = origin slug a club c s.clubs e h in
                    let (o', at', id') = origin slug b club c' s.clubs e h' in
                    v.apart a b o o' at at' (id ∙ same ∙ sym id'));
            }))
  ]
]

-- Calls that write clubs, of any users.
pub data Call : Type 0 where
  create : String → WatchClubCreate → ClubFresh → Call
  join : String → String → ℕ → Call

abbrev pub apply : Call → Clubs → Clubs
apply (create creator body f) s = (create_watch_club creator body f s).1
apply (join slug user now) s = (join_watch_club slug user now s).1

-- What the ids and slugs that are drawn are like.
abbrev pub IsFresh : Call → Clubs → Type 0
IsFresh (create creator body f) s = IsNew f s
IsFresh (join slug user now) s = Unit

-- The clubs that calls make of none.
pub data Formed : Clubs → Type 0 where
  from_none : Formed (record { clubs = []; memberships = []; activities = [] })
  after : {s : Clubs} → Formed s → (c : Call) → IsFresh c s → Formed (apply c s)

-- After any calls, in which the ids and slugs that are drawn are unused, the count of every club is the number
-- of its members, and a user is a member of a club once, however often the user joins.
pub Formed-IsCounted : {s : Clubs} → Formed s → IsCounted s
Formed-IsCounted from_none = record {
  counted = λ slug club h. absurd (ground arith);
  once = λ club user. omega arith;
  apart = λ slug slug' club club' h h' same. absurd (ground arith);
}
Formed-IsCounted (after {s = s} path (create creator body f) new) =
    create-IsCounted creator body f s new (Formed-IsCounted path)
Formed-IsCounted (after {s = s} path (join slug user now) new) =
    join-IsCounted slug user now s (Formed-IsCounted path)
