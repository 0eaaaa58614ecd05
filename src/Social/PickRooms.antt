-- ===== src/Social/PickRooms.antt =====
-- services/api/repositories/social.py, lines 1636 to 1995: group-pick rooms on the database, and the closing of
-- one on the seed store. A room holds the rows of its candidates; of a title only its name is kept, from a
-- query that is a parameter. Times are in seconds.
pub mod Ballot
use cine_vault.Prelude.{
  ℕ, ◌+◌, ◌*◌, String, Bool, true, false, not, ◌&&◌, List, [], ◌∷◌, ◌++◌, map, Option, none, some,
  ltb, leb, filter, length, contains, or_text, Result, ok, err, string_eq, nat_eq, ◌==◌,
  if◌then◌else◌,
}
use cine_vault.Prelude.Dict.{Dict, lookup, insert}

pub record Room : Type 0 where
  pub room_id : String
  pub host_id : String
  pub slug : String
  pub title : String
  pub status : String
  pub winning_title_id : Option String
  pub expires_at : Option ℕ
  pub created_at : ℕ
  pub candidate_title_ids : List String

pub record Vote : Type 0 where
  pub vote_id : String
  pub room_id : String
  pub user_id : Option String
  pub guest_name : String
  pub voter_fingerprint : String
  pub title_id : String
  pub vote_type : String
  pub created_at : ℕ

pub record Rooms : Type 0 where
  pub rooms : Dict String Room
  pub votes : List Vote

pub data RoomError : Type 0 where
  room_not_found window_expired not_a_candidate only_host : RoomError
  room_closed : String → RoomError

pub record PickRoomCreate : Type 0 where
  pub title : String
  pub candidate_title_ids : List String
  pub expires_in_hours : ℕ

pub record PickVoteCreate : Type 0 where
  pub title_id : String
  pub voter_fingerprint : Option String
  pub guest_name : Option String
  pub vote_type : String

-- The new ids, the slug and the clock.
pub record RoomFresh : Type 0 where
  pub id : String
  pub text : String
  pub now : ℕ

-- `set(…)`, in the order of the last occurrences.
abbrev pub set_of : List String → List String
set_of [] = []
set_of (x ∷ xs) = let rest = set_of xs in if contains x rest then rest else x ∷ rest

-- `data.expires_in_hours or 48`
abbrev pub hours_or_default : ℕ → ℕ
hours_or_default h = if h == 0 then 48 else h

unfoldable pub create_pick_room : String → PickRoomCreate → RoomFresh → Rooms → Room × Rooms
create_pick_room host body f s =
    let room : Room = record {
      room_id = f.id;
      host_id = host;
      slug = f.text;
      title = body.title;
      status = "OPEN";
      winning_title_id = none;
      expires_at = some (f.now + hours_or_default body.expires_in_hours * 3600);
      created_at = f.now;
      candidate_title_ids = set_of body.candidate_title_ids;
    } in
    (room, record s { rooms = insert f.text room s.rooms })

pub record CandidateSummary : Type 0 where
  pub title_id : String
  pub canonical_title : String
  pub upvotes : ℕ
  pub voter_names : List String

pub record PickRoomDetail : Type 0 where
  pub room : Room
  pub winning_title_name : Option String
  pub total_votes : ℕ
  pub candidates : List CandidateSummary
  pub is_expired : Bool

abbrev pub has_expired : Option ℕ → ℕ → Bool
has_expired none now = false
has_expired (some t) now = ltb t now

abbrev pub votes_in : String → List Vote → List Vote
votes_in room_id votes = filter (λ v. v.room_id == room_id) votes

abbrev pub is_upvote : Vote → Bool
is_upvote v = v.vote_type == "UPVOTE"

-- `v.guest_name or "Circle Member"`
abbrev pub name_of : Vote → String
name_of v = or_text (some v.guest_name) "Circle Member"

-- A stable sort by upvotes, the most first.
abbrev pub insert_candidate : CandidateSummary → List CandidateSummary → List CandidateSummary
insert_candidate c [] = c ∷ []
insert_candidate c (d ∷ ds) =
    if leb d.upvotes c.upvotes then c ∷ d ∷ ds else d ∷ insert_candidate c ds

abbrev pub sort_candidates : List CandidateSummary → List CandidateSummary
sort_candidates [] = []
sort_candidates (c ∷ cs) = insert_candidate c (sort_candidates cs)

-- The row of the title `tid`, which the join finds or not, with its voters.
abbrev pub summaries : (String → Option String) → List Vote → List String → List CandidateSummary
summaries title_name votes [] = []
summaries title_name votes (tid ∷ tids) =
    let rest = summaries title_name votes tids in
    let voters = map name_of (filter (λ v. is_upvote v && v.title_id == tid) votes) in
    elim (title_name tid) [
      | none ↦ rest
      | some name ↦
          record {
            title_id = tid;
            canonical_title = name;
            upvotes = length voters;
            voter_names = voters;
          }
          ∷ rest
    ]

unfoldable pub get_pick_room_by_slug :
    (String → Option String) → String → ℕ → Rooms → Option PickRoomDetail
get_pick_room_by_slug title_name slug now s = elim (lookup slug s.rooms) [
  | none ↦ none
  | some room ↦
      (let votes = votes_in room.room_id s.votes in
        some (record {
          room = room;
          winning_title_name = elim room.winning_title_id [
            | none ↦ none
            | some tid ↦ title_name tid
          ];
          total_votes = length votes;
          candidates = sort_candidates (summaries title_name votes room.candidate_title_ids);
          is_expired = has_expired room.expires_at now;
        }))
]

-- `data.voter_fingerprint or (str(u_uuid) if u_uuid else secrets.token_hex(8))`
abbrev pub fingerprint_of : PickVoteCreate → Option String → String → String
fingerprint_of body none drawn = or_text body.voter_fingerprint drawn
fingerprint_of body (some user) drawn = or_text body.voter_fingerprint user

abbrev pub voter_name_of : PickVoteCreate → Option String → String
voter_name_of body none = or_text body.guest_name "Guest Voter"
voter_name_of body (some user) = or_text body.guest_name "Circle Member"

abbrev pub is_vote_of : String → String → String → Vote → Bool
is_vote_of room_id fingerprint title_id v =
    v.room_id == room_id && v.voter_fingerprint == fingerprint && v.title_id == title_id

-- The voter's row for the candidate: changed if it is there, added if not. (Two such rows, which no call makes,
-- would raise.)
abbrev pub put_vote : Vote → List Vote → List Vote
put_vote new [] = new ∷ []
put_vote new (v ∷ vs) =
    let rest = put_vote new vs in
    if is_vote_of new.room_id new.voter_fingerprint new.title_id v
    then record v { vote_type = new.vote_type; guest_name = new.guest_name; user_id = new.user_id }
      ∷ vs
    else v ∷ rest

abbrev pub check_room : Room → String → ℕ → Option RoomError
check_room room title_id now =
    if not (room.status == "OPEN")
    then some (room_closed room.status)
    else if has_expired room.expires_at now
    then some window_expired
    else if not (contains title_id room.candidate_title_ids)
    then some not_a_candidate
    else none

abbrev pub new_vote : Room → Option String → PickVoteCreate → RoomFresh → Vote
new_vote room voter body f = record {
  vote_id = f.id;
  room_id = room.room_id;
  user_id = voter;
  guest_name = voter_name_of body voter;
  voter_fingerprint = fingerprint_of body voter f.text;
  title_id = body.title_id;
  vote_type = body.vote_type;
  created_at = f.now;
}

-- The vote as it was cast.
unfoldable pub cast_pick_vote :
    String → Option String → PickVoteCreate → RoomFresh → Rooms → Result RoomError Vote × Rooms
cast_pick_vote slug voter body f s = elim (lookup slug s.rooms) [
  | none ↦ (err room_not_found, s)
  | some room ↦ elim (check_room room body.title_id f.now) [
    | some e ↦ (err e, s)
    | none ↦
        (let new = new_vote room voter body f in
          (ok new, record s { votes = put_vote new s.votes }))
  ]
]

abbrev pub count_of : String → List String → ℕ
count_of t ts = length (filter (λ u. u == t) ts)

-- The first row of the tally, ordered by the count: the database is free among titles with the same count, and
-- here the one that was voted for first comes first.
unfoldable pub most_voted : List String → List String → Option String
most_voted all [] = none
most_voted all (t ∷ ts) =
    let rest = most_voted all ts in
    elim rest [
      | none ↦ some t
      | some u ↦ if ltb (count_of t all) (count_of u all) then some u else some t
    ]

abbrev pub upvoted : String → List Vote → List String
upvoted room_id votes = map (λ v. v.title_id) (filter is_upvote (votes_in room_id votes))

abbrev pub first_of : List String → Option String
first_of [] = none
first_of (t ∷ ts) = some t

-- The first candidate where nobody voted.
abbrev pub winner_of : Room → List Vote → Option String
winner_of room votes = elim (most_voted (upvoted room.room_id votes) (upvoted room.room_id votes)) [
  | some t ↦ some t
  | none ↦ first_of room.candidate_title_ids
]

abbrev pub resolved : Room → List Vote → Room
resolved room votes = record room { status = "RESOLVED"; winning_title_id = winner_of room votes }

pub record PickRoomClose : Type 0 where
  pub room_id : String
  pub winning_title_id : Option String
  pub total_votes_cast : ℕ

unfoldable pub close_pick_room : String → String → Rooms → Result RoomError PickRoomClose × Rooms
unfolding most_voted
close_pick_room slug host s = elim (lookup slug s.rooms) [
  | none ↦ (err room_not_found, s)
  | some room ↦ if not (room.host_id == host) then (err only_host, s) else (
    ok (record {
      room_id = room.room_id;
      winning_title_id = winner_of room s.votes;
      total_votes_cast = length (votes_in room.room_id s.votes);
    }),
    record s { rooms = insert slug (resolved room s.votes) s.rooms },
  )
]

-- The branch without a database declares the first candidate; `drawn` stands for `uuid4`.
unfoldable pub seed_close_pick_room :
    String → String → String → Rooms → Result RoomError PickRoomClose × Rooms
seed_close_pick_room slug host drawn s = elim (lookup slug s.rooms) [
  | none ↦ (err room_not_found, s)
  | some room ↦
      if not (room.host_id == host)
      then (err only_host, s)
      else (let winner : String = elim (first_of room.candidate_title_ids) [
        | none ↦ drawn
        | some t ↦ t
      ] in
          let room' : Room = record room { status = "RESOLVED"; winning_title_id = some winner } in
          (
            ok (record {
              room_id = room.room_id;
              winning_title_id = some winner;
              total_votes_cast = length (votes_in room.room_id s.votes);
            }),
            record s { rooms = insert slug room' s.rooms },
          ))
]
