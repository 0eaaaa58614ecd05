-- ===== src/Social/Friendships.antt =====
-- services/api/repositories/social.py, lines 132 to 416: the friendships. The table and the seed store are
-- both a dictionary from ids to rows, on which the two branches of each method do the same. Ids are
-- resolved UUIDs as texts; what a method draws from `uuid4` and the clock is an argument.
pub mod Pairs
use cine_vault.Prelude.{
  ℕ, String, Bool, true, false, not, ◌&&◌, ◌||◌, List, [], ◌∷◌, Option, none, some, filter, Result,
  ok, err, string_eq, ◌==◌, if◌then◌else◌,
}
use cine_vault.Prelude.Dict.{Dict, lookup, insert, delete, values}

pub data FriendshipStatus : Type 0 where
  pending accepted blocked : FriendshipStatus

pub record Friendship : Type 0 where
  pub friendship_id : String
  pub requester_id : String
  pub addressee_id : String
  pub status : FriendshipStatus
  pub trust_score : ℕ
  pub created_at : ℕ
  pub updated_at : ℕ

pub data FriendshipError : Type 0 where
  self_friendship not_participant only_recipient_accepts accepted_to_pending : FriendshipError

abbrev pub Friendships : Type 0
Friendships = Dict String Friendship

-- The other side of a friendship, for one who is a side of it.
unfoldable pub resolve_friend_id : String → String → String → Option String
resolve_friend_id requester_id addressee_id caller_id =
    if requester_id == caller_id
    then some addressee_id
    else if addressee_id == caller_id
    then some requester_id
    else none

-- The condition of the queries for a pair, in either direction.
abbrev pub links : String → String → Friendship → Bool
links a b f =
    (f.requester_id == a && f.addressee_id == b) || (f.requester_id == b && f.addressee_id == a)

abbrev pub is_accepted : FriendshipStatus → Bool
is_accepted accepted = true
is_accepted _ = false

abbrev pub first : List Friendship → Option Friendship
first [] = none
first (f ∷ fs) = some f

abbrev pub rows_of : String → String → Friendships → List Friendship
rows_of a b fs = filter (links a b) (values fs)

abbrev pub is_empty : List Friendship → Bool
is_empty [] = true
is_empty (f ∷ fs) = false

unfoldable pub are_friends_accepted : String → String → Friendships → Bool
are_friends_accepted a b fs =
    if a == b
    then false
    else not (is_empty (filter (λ f. is_accepted f.status && links a b f) (values fs)))

-- The two tests of an existing relation: every status passes one of them.
abbrev pub is_preserved : FriendshipStatus → Bool
is_preserved accepted = true
is_preserved blocked = true
is_preserved pending = true

-- What a method draws from `uuid4` and the clock.
pub record NewRow : Type 0 where
  pub id : String
  pub now : ℕ

unfoldable pub create_friendship :
    String
    → String
    → FriendshipStatus
    → ℕ
    → NewRow
    → Friendships
    → Result FriendshipError Friendship × Friendships
create_friendship requester addressee status trust_score new fs =
    let created : Friendship = record {
      friendship_id = new.id;
      requester_id = requester;
      addressee_id = addressee;
      status = status;
      trust_score = trust_score;
      created_at = new.now;
      updated_at = new.now;
    } in
    if requester == addressee
    then (err self_friendship, fs)
    else (elim (first (rows_of requester addressee fs)) [
      | none ↦ (ok created, insert new.id created fs)
      | some f ↦
          (let updated : Friendship = record f {
            status = status;
            trust_score = trust_score;
            updated_at = new.now;
          } in
            if is_preserved f.status
            then (ok f, fs)
            else (ok updated, insert f.friendship_id updated fs))
    ])

abbrev pub is_participant : String → Friendship → Bool
is_participant actor f = actor == f.requester_id || actor == f.addressee_id

-- The tests on the actor, where one is given.
abbrev pub check_actor : Option String → FriendshipStatus → Friendship → Option FriendshipError
check_actor none status f = none
check_actor (some actor) status f =
    if not (is_participant actor f)
    then some not_participant
    else if is_accepted status && not (actor == f.addressee_id)
    then some only_recipient_accepts
    else none

abbrev pub is_pending : FriendshipStatus → Bool
is_pending pending = true
is_pending _ = false

abbrev pub or_current : Option ℕ → ℕ → ℕ
or_current none current = current
or_current (some n) current = n

-- `None` for an unknown id is `ok none`.
unfoldable pub update_friendship_status :
    String
    → FriendshipStatus
    → Option ℕ
    → Option String
    → ℕ
    → Friendships
    → Result FriendshipError (Option Friendship) × Friendships
update_friendship_status id status trust_score actor now fs = elim (lookup id fs) [
  | none ↦ (ok none, fs)
  | some f ↦
      (let updated : Friendship = record f {
        status = status;
        trust_score = or_current trust_score f.trust_score;
        updated_at = now;
      } in
        elim (check_actor actor status f) [
          | some e ↦ (err e, fs)
          | none ↦
              (if is_accepted f.status && is_pending status
                then (err accepted_to_pending, fs)
                else (ok (some updated), insert id updated fs))
        ])
]

abbrev pub may_delete : Option String → Friendship → Bool
may_delete none f = true
may_delete (some actor) f = is_participant actor f

unfoldable pub delete_friendship :
    String → Option String → Friendships → Result FriendshipError Bool × Friendships
delete_friendship id actor fs = elim (lookup id fs) [
  | none ↦ (ok false, fs)
  | some f ↦ if may_delete actor f then (ok true, delete id fs) else (err not_participant, fs)
]

-- The database returns them newest first, the seed store in the order of its dictionary.
unfoldable pub list_friendships : String → Friendships → List Friendship
list_friendships user fs =
    filter (λ f. f.requester_id == user || f.addressee_id == user) (values fs)
