-- ===== src/Social/Challenges.antt =====
-- services/api/repositories/social.py, lines 2439 to 2680: viewing challenges and their participants, on the
-- database, which refuses a participant of an unknown challenge by its foreign key. Times are in seconds.
pub mod Progress
use cine_vault.Prelude.{
  ℕ, ◌+◌, String, Bool, true, false, not, ◌&&◌, ◌||◌, List, [], ◌∷◌, ◌++◌, map, Option, none, some,
  ltb, leb, filter, length, Result, ok, err, string_eq, nat_eq, ◌==◌, if◌then◌else◌,
}
use cine_vault.Prelude.Dict.{Dict, lookup, insert, values}

pub record Challenge : Type 0 where
  pub challenge_id : String
  pub title : String
  pub description : Option String
  pub challenge_type : String
  pub club_id : Option String
  pub goal_count : ℕ
  pub starts_at : ℕ
  pub ends_at : ℕ
  pub created_at : ℕ

pub record Participant : Type 0 where
  pub challenge_id : String
  pub user_id : String
  pub progress : ℕ
  pub completed : Bool
  pub completed_at : Option ℕ
  pub joined_at : ℕ

pub record Challenges : Type 0 where
  pub challenges : Dict String Challenge
  pub participants : List Participant

pub data ChallengeError : Type 0 where
  challenge_not_found inactive not_participating : ChallengeError

pub record ChallengeCreate : Type 0 where
  pub title : String
  pub description : Option String
  pub challenge_type : String
  pub club_id : Option String
  pub goal_count : ℕ
  pub starts_at : ℕ
  pub ends_at : ℕ

unfoldable pub create_challenge : ChallengeCreate → String → ℕ → Challenges → Challenge × Challenges
create_challenge body id now s =
    let ch : Challenge = record {
      challenge_id = id;
      title = body.title;
      description = body.description;
      challenge_type = body.challenge_type;
      club_id = body.club_id;
      goal_count = body.goal_count;
      starts_at = body.starts_at;
      ends_at = body.ends_at;
      created_at = now;
    } in
    (ch, record s { challenges = insert id ch s.challenges })

abbrev pub is_participant_of : String → String → Participant → Bool
is_participant_of challenge user p = p.challenge_id == challenge && p.user_id == user

abbrev pub find_participant : String → String → List Participant → Option Participant
find_participant challenge user [] = none
find_participant challenge user (p ∷ ps) =
    if is_participant_of challenge user p then some p else find_participant challenge user ps

abbrev pub joined : String → String → ℕ → Participant
joined challenge user now = record {
  challenge_id = challenge;
  user_id = user;
  progress = 0;
  completed = false;
  completed_at = none;
  joined_at = now;
}

unfoldable pub join_challenge :
    String → String → ℕ → Challenges → Result ChallengeError Participant × Challenges
join_challenge challenge user now s = elim (find_participant challenge user s.participants) [
  | some p ↦ (ok p, s)
  | none ↦ elim (lookup challenge s.challenges) [
    | none ↦ (err challenge_not_found, s)
    | some ch ↦
        (let p = joined challenge user now in
          (ok p, record s { participants = s.participants ++ p ∷ [] }))
  ]
]

-- `ch.goal_count or 1`
abbrev pub goal_of : Challenge → ℕ
goal_of ch = if ch.goal_count == 0 then 1 else ch.goal_count

abbrev pub is_inactive : ℕ → Challenge → Bool
is_inactive now ch = ltb now ch.starts_at || leb ch.ends_at now

abbrev pub advanced : ℕ → ℕ → ℕ → Participant → Participant
advanced goal increment now p =
    let progress = p.progress + increment in
    if leb goal progress && not p.completed
    then record p { progress = progress; completed = true; completed_at = some now }
    else record p { progress = progress }

-- The first row of the participant, changed.
abbrev pub advance_in : String → String → ℕ → ℕ → ℕ → List Participant → List Participant
advance_in challenge user goal increment now [] = []
advance_in challenge user goal increment now (p ∷ ps) =
    let rest = advance_in challenge user goal increment now ps in
    if is_participant_of challenge user p then advanced goal increment now p ∷ ps else p ∷ rest

unfoldable pub update_challenge_progress :
    String → String → ℕ → ℕ → Challenges → Result ChallengeError Participant × Challenges
update_challenge_progress challenge user increment now s = elim (lookup challenge s.challenges) [
  | none ↦ (err challenge_not_found, s)
  | some ch ↦
      if is_inactive now ch
      then (err inactive, s)
      else (elim (find_participant challenge user s.participants) [
        | none ↦ (err not_participating, s)
        | some p ↦ (
          ok (advanced (goal_of ch) increment now p),
          record s {
            participants = advance_in challenge user (goal_of ch) increment now s.participants;
          },
        )
      ])
]

abbrev pub participants_of : String → List Participant → List Participant
participants_of challenge ps = filter (λ p. p.challenge_id == challenge) ps

unfoldable pub get_challenge_detail :
    String → Challenges → Result ChallengeError (Challenge × List Participant)
get_challenge_detail challenge s = elim (lookup challenge s.challenges) [
  | none ↦ err challenge_not_found
  | some ch ↦ ok (ch, participants_of challenge s.participants)
]

-- A challenge as it is listed, with the caller's own progress where the caller takes part.
pub record ChallengeResponse : Type 0 where
  pub challenge : Challenge
  pub participant_count : ℕ
  pub my_progress : Option ℕ
  pub my_completed : Bool

abbrev pub listed_for : Option String → List Participant → Challenge → ChallengeResponse
listed_for caller ps ch =
    let listed : Option ℕ → Bool → ChallengeResponse = λ progress completed. record {
      challenge = ch;
      participant_count = length (participants_of ch.challenge_id ps);
      my_progress = progress;
      my_completed = completed;
    } in
    elim caller [
      | none ↦ listed none false
      | some user ↦ elim (find_participant ch.challenge_id user ps) [
        | none ↦ listed none false
        | some p ↦ listed (some p.progress) p.completed
      ]
    ]

-- The database orders them by their ends.
unfoldable pub list_active_challenges : Option String → ℕ → Challenges → List ChallengeResponse
list_active_challenges caller now s =
    map (listed_for caller s.participants)
      (filter (λ ch. not (is_inactive now ch)) (values s.challenges))
