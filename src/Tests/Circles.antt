-- ===== src/Tests/Circles.antt =====
-- services/api/repositories/social.py: friendships, recommendations and pick rooms at concrete values.
use cine_vault.Prelude.{
  arith, String, ◌≡◌, ◌≢◌, ◌⊎◌, ◌≤◌, refl, List, [], ◌∷◌, none, some, ok, err, string_eq, ◌+◌,
}
use cine_vault.Prelude.Dict.{lookup}
use cine_vault.Social.Friendships.{
  Friendship, Friendships, pending, accepted, FriendshipError, are_friends_accepted,
  update_friendship_status,
}
use cine_vault.Social.Friendships.Pairs.{IsPaired}
use cine_vault.Social.Invites.{Network}
use cine_vault.Social.Network.{
  Call, create, update, apply, Grown, from_none, after, Grown-IsPaired,
  update_friendship_status-authorised,
}
use cine_vault.Social.Recommendations.{
  Recommendation, RecommendationCreate, RecommendationStatus, sent, rated, is_allowed, transition,
  create_recommendation, update_recommendation_state,
}
use cine_vault.Social.Recommendations.Lifecycle.{
  Update, successes, rank, IsSound, change, run, successes-le, run-IsSound,
}
use cine_vault.Social.Recommendations.Lifecycle
use cine_vault.Social.PickRooms.{Room, Rooms, Vote, PickRoomClose, most_voted, close_pick_room}
use cine_vault.Social.PickRooms.Ballot.{Wins, close_pick_room-ok}

abbrev no_network : Network
no_network = record { friendships = []; invites = []; referrals = [] }

abbrev request : Call
request = create "ann" "bob" pending 50 (record { id = "f1"; now = 100 })

abbrev acceptance : Call
acceptance = update "f1" accepted none (some "bob") 200

abbrev grown : Grown (apply acceptance (apply request no_network))
grown = after (after (from_none no_network refl) request refl) acceptance tt

Grown-IsPaired_example : IsPaired (apply acceptance (apply request no_network)).friendships
Grown-IsPaired_example = Grown-IsPaired grown

abbrev asked : Friendship
asked = record {
  friendship_id = "f1";
  requester_id = "ann";
  addressee_id = "bob";
  status = pending;
  trust_score = 50;
  created_at = 100;
  updated_at = 100;
}

abbrev agreed : Friendship
agreed = record asked { status = accepted; updated_at = 200 }

bob_accepts :
    update_friendship_status "f1" accepted none (some "bob") 200 (("f1", asked) ∷ [])
    ≡ (ok (some agreed), ("f1", agreed) ∷ [])
unfolding update_friendship_status
bob_accepts = refl

ann_is_refused :
    (update_friendship_status "f1" accepted none (some "ann") 200 (("f1", asked) ∷ [])).0
    ≡ err FriendshipError.only_recipient_accepts
unfolding update_friendship_status
ann_is_refused = refl

update_friendship_status-authorised_example :
    ((accepted ≡ accepted) × ("bob" ≡ asked.addressee_id))
    ⊎ ((accepted ≢ accepted) × (("bob" ≡ asked.requester_id) ⊎ ("bob" ≡ asked.addressee_id)))
update_friendship_status-authorised_example =
    update_friendship_status-authorised "f1" "bob" accepted none 200 (("f1", asked) ∷ [])
      (("f1", agreed) ∷ []) agreed bob_accepts

abbrev film : RecommendationCreate
film = record {
  recipient_id = "bob";
  title_id = "t1";
  context_note = none;
  sender_predicted_rating = some 80;
}

abbrev friends : Friendships
friends = ("f1", agreed) ∷ []

abbrev recommended : Recommendation
recommended = record {
  recommendation_id = "r1";
  sender_id = "ann";
  recipient_id = "bob";
  title_id = "t1";
  status = sent;
  sender_predicted_rating = some 80;
  recipient_actual_rating = none;
  context_note = none;
  sent_at = 300;
  updated_at = 300;
}

abbrev to_accepted : Update
to_accepted = record {
  id = "r1";
  body = record { status = RecommendationStatus.accepted; recipient_actual_rating = none };
  actor = some "bob";
  now = 400;
}

abbrev to_rated : Update
to_rated = record {
  id = "r1";
  body = record { status = rated; recipient_actual_rating = some 90 };
  actor = some "bob";
  now = 500;
}

-- The new recommendation has another id.
abbrev updates : List Lifecycle.Call
updates =
    change to_accepted
    ∷ Lifecycle.create "ann" film (record { id = "r2"; now = 450 }) friends
    ∷ change to_accepted
    ∷ change to_rated
    ∷ []

-- The second acceptance and the rating of an unwatched title are refused.
one_success : successes "r1" updates (("r1", recommended) ∷ []) ≡ 1
unfolding update_recommendation_state transition is_allowed create_recommendation
    are_friends_accepted
one_success = refl

successes-le_example :
    successes "r1" updates (("r1", recommended) ∷ []) + rank recommended.status ≤ 3
successes-le_example =
    successes-le "r1" updates (("r1", recommended) ∷ []) recommended refl
      (tt, ((λ same. ground (arith, same, string_eq.same_iff "r2" "r1")), (tt, (tt, tt))))

abbrev calls : List Lifecycle.Call
calls =
    Lifecycle.create "ann" film (record { id = "r1"; now = 300 }) friends ∷ change to_accepted ∷ []

abbrev taken : Recommendation
taken = record recommended { status = RecommendationStatus.accepted; updated_at = 400 }

recommendation_taken : lookup "r1" (run calls []) ≡ some taken
unfolding update_recommendation_state transition is_allowed create_recommendation
    are_friends_accepted
recommendation_taken = refl

run-IsSound_example : IsSound taken
run-IsSound_example = run-IsSound calls "r1" taken recommendation_taken

abbrev room : Room
room = record {
  room_id = "p1";
  host_id = "ann";
  slug = "night";
  title = "Friday";
  status = "OPEN";
  winning_title_id = none;
  expires_at = none;
  created_at = 0;
  candidate_title_ids = "t1" ∷ "t2" ∷ [];
}

abbrev vote : String → String → Vote
vote by title = record {
  vote_id = by;
  room_id = "p1";
  user_id = none;
  guest_name = by;
  voter_fingerprint = by;
  title_id = title;
  vote_type = "UPVOTE";
  created_at = 1;
}

abbrev votes : List Vote
votes = vote "ann" "t1" ∷ vote "bob" "t2" ∷ vote "cat" "t2" ∷ []

abbrev open_rooms : Rooms
open_rooms = record { rooms = ("night", room) ∷ []; votes = votes }

abbrev closing : PickRoomClose
closing = record { room_id = "p1"; winning_title_id = some "t2"; total_votes_cast = 3 }

abbrev closed_rooms : Rooms
closed_rooms = record open_rooms {
  rooms = ("night", record room { status = "RESOLVED"; winning_title_id = some "t2" }) ∷ [];
}

closes : close_pick_room "night" "ann" open_rooms ≡ (ok closing, closed_rooms)
unfolding close_pick_room most_voted
closes = refl

close_pick_room-ok_example :
    (room.host_id ≡ "ann")
    × (lookup "night" closed_rooms.rooms
        ≡ some (record room { status = "RESOLVED"; winning_title_id = some "t2" }))
    × Wins room votes (some "t2")
close_pick_room-ok_example =
    close_pick_room-ok "night" "ann" open_rooms closed_rooms closing room refl closes
