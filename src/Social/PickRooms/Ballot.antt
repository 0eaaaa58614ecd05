-- ===== src/Social/PickRooms/Ballot.antt =====
-- services/api/repositories/social.py: votes in a pick room and the winner.
use mathlib.Core.Path.{subst}
use cine_vault.Prelude.{
  Bool, Option, ◌&&◌, ◌<◌, sym, ap, ◌∙◌, if◌then◌else◌, suc, ℕ, ◌≤◌, String, ◌≡◌, ◌≢◌, ◌⊎◌, refl,
  List, [], ◌∷◌, none, some, arith, ok, string_eq, ◌==◌, Bool-cases, Option-cases, inl, inr, All,
  All-imp, ltb,
}
use cine_vault.Prelude.Dict.{lookup, lookup-insert_self}
use cine_vault.Social.PickRooms.{
  Room, Vote, Rooms, PickRoomClose, count_of, most_voted, upvoted, first_of, winner_of, resolved,
  close_pick_room,
}

most_voted-some : (all ts : List String) (t : String) → most_voted all (t ∷ ts) ≢ none
unfolding most_voted
most_voted-some all ts t h = ground arith

greatest :
    (all ts : List String) (w : String)
    → most_voted all ts ≡ some w
    → All (λ t. count_of t all ≤ count_of w all) ts
unfolding most_voted
greatest all [] w h = tt
greatest all (t ∷ []) w h = (
  let q : t ≡ w = ground arith in subst (λ x. count_of t all ≤ count_of x all) q (omega arith),
  tt,
)
greatest all (t ∷ t' ∷ ts) w h = elim (Option-cases (most_voted all (t' ∷ ts))) [
  | inl e ↦ absurd (most_voted-some all ts t' e)
  | inr (u, e) ↦ elim (Bool-cases (ltb (count_of t all) (count_of u all))) [
    | inl less ↦
        (let q : u ≡ w = ground arith in
          subst (λ x. All (λ t. count_of t all ≤ count_of x all) (t ∷ t' ∷ ts)) q
            (ground arith, greatest all (t' ∷ ts) u e))
    | inr more ↦
        (let q : t ≡ w = ground arith in
          subst (λ x. All (λ t. count_of t all ≤ count_of x all) (t ∷ t' ∷ ts)) q
            (
              omega arith,
              All-imp (λ x. count_of x all ≤ count_of u all) (λ x. count_of x all ≤ count_of t all)
                  (λ x k. ground arith) (t' ∷ ts) (greatest all (t' ∷ ts) u e),
            ))
  ]
]

count_of_all :
    (t : String) (P : String → Type 0) (ts : List String) → All P ts → (count_of t ts ≡ 0) ⊎ P t
count_of_all t P [] h = inl refl
count_of_all t P (u ∷ ts) h = elim (Bool-cases (u == t)) [
  | inl e ↦ inr (subst P ((string_eq.same_iff u t).0 e) h.0)
  | inr e ↦ rw e (count_of_all t P ts h.1)
]

-- A vote for the title, cast in the room with UPVOTE.
abbrev pub is_upvote_for : String → Room → Vote → Bool
is_upvote_for t room v = v.room_id == room.room_id && v.vote_type == "UPVOTE" && v.title_id == t

abbrev pub upvotes_of : String → Room → List Vote → ℕ
upvotes_of t room [] = 0
upvotes_of t room (v ∷ votes) =
    let rest = upvotes_of t room votes in if is_upvote_for t room v then suc rest else rest

count-upvoted :
    (t : String) (room : Room) (votes : List Vote)
    → count_of t (upvoted room.room_id votes) ≡ upvotes_of t room votes
count-upvoted t room [] = refl
count-upvoted t room (v ∷ votes) =
    let rest = count-upvoted t room votes in
    elim (Bool-cases (v.room_id == room.room_id)) [
      | inr e ↦ rw e rest
      | inl e ↦ elim (Bool-cases (v.vote_type == "UPVOTE")) [
        | inr f ↦ rw (e, f) rest
        | inl f ↦ elim (Bool-cases (v.title_id == t)) [
          | inl g ↦ rw (e, f, g) (omega (arith, rest))
          | inr g ↦ rw (e, f, g) rest
        ]
      ]
    ]

no_votes : (ts : List String) → most_voted ts ts ≡ none → ts ≡ []
no_votes [] h = refl
no_votes (t ∷ ts) h = absurd (most_voted-some (t ∷ ts) ts t h)

-- The winner is the title with the most upvotes, or where the room has none, the first candidate.
pub data Wins (room : Room) (votes : List Vote) : Option String → Type 0 where
  most_upvotes :
      (w : String)
      → 0 < upvotes_of w room votes
      → ((t : String) → upvotes_of t room votes ≤ upvotes_of w room votes)
      → Wins room votes (some w)
  first_candidate :
      (t : String) (ts : List String)
      → ((u : String) → upvotes_of u room votes ≡ 0)
      → room.candidate_title_ids ≡ t ∷ ts
      → Wins room votes (some t)
  no_candidate :
      ((u : String) → upvotes_of u room votes ≡ 0)
      → room.candidate_title_ids ≡ []
      → Wins room votes none

count_of_first :
    (all ts : List String) (w : String) → most_voted all ts ≡ some w → 0 < count_of w ts
unfolding most_voted
count_of_first all [] w h = absurd (ground arith)
count_of_first all (t ∷ ts) w h = elim (Option-cases (most_voted all ts)) [
  | inl e ↦
      (let q : t ≡ w = ground arith in
        subst (λ x. 0 < count_of x (t ∷ ts)) q (ground (arith, string_eq.same_iff t t)))
  | inr (u, e) ↦
      (let before = count_of_first all ts u e in
        elim (Bool-cases (ltb (count_of t all) (count_of u all))) [
          | inl less ↦
              (let q : u ≡ w = ground arith in
                subst (λ x. 0 < count_of x (t ∷ ts)) q
                  (elim (Bool-cases (t == u)) [
                    | inl same ↦ rw same (omega arith)
                    | inr other ↦ rw other before
                  ]))
          | inr more ↦
              (let q : t ≡ w = ground arith in
                subst (λ x. 0 < count_of x (t ∷ ts)) q (ground (arith, string_eq.same_iff t t)))
        ])
]

first_of-Wins :
    (room : Room) (votes : List Vote)
    → ((u : String) → upvotes_of u room votes ≡ 0)
    → (candidates : List String) → room.candidate_title_ids ≡ candidates
    → Wins room votes (first_of candidates)
first_of-Wins room votes none_up [] e = no_candidate none_up e
first_of-Wins room votes none_up (t ∷ ts) e = first_candidate t ts none_up e

winner_of-Wins : (room : Room) (votes : List Vote) → Wins room votes (winner_of room votes)
winner_of-Wins room votes =
    let ts = upvoted room.room_id votes in
    elim (Option-cases (most_voted ts ts)) [
      | inl e ↦
          (let none_up : (u : String) → upvotes_of u room votes ≡ 0 =
              λ u. sym (count-upvoted u room votes) ∙ ap (count_of u) (no_votes ts e) in
            rw (winner_of, e) (first_of-Wins room votes none_up room.candidate_title_ids refl))
      | inr (w, e) ↦
          (let votes_for = count-upvoted w room votes in
            let some_up = count_of_first ts ts w e in
            rw (winner_of, e)
              (most_upvotes w (omega (arith, votes_for, some_up)) (λ t.
                let votes_for_t = count-upvoted t room votes in
                elim (count_of_all t (λ u. count_of u ts ≤ count_of w ts) ts (greatest ts ts w e)) [
                  | inl zero_votes ↦ omega (arith, zero_votes, votes_for_t)
                  | inr less ↦ omega (arith, less, votes_for, votes_for_t)
                ])))
    ]

-- Where there is a database, only the host closes a room. Closing it sets its status to RESOLVED and records
-- the winner that is announced, and nothing else of the room: a title with at least one UPVOTE in the room and
-- at least as many as any other title; or where nobody voted up, the first candidate, if there is one.
pub close_pick_room-ok :
    (slug host : String) (s s' : Rooms) (c : PickRoomClose) (room : Room)
    → lookup slug s.rooms ≡ some room
    → close_pick_room slug host s ≡ (ok c, s')
    → (room.host_id ≡ host)
      × (lookup slug s'.rooms
          ≡ some (record room { status = "RESOLVED"; winning_title_id = c.winning_title_id }))
      × Wins room s.votes c.winning_title_id
unfolding close_pick_room
close_pick_room-ok slug host s s' c room e h = elim (Bool-cases (room.host_id == host)) [
  | inr other ↦ absurd (ground arith)
  | inl same ↦
      (let q : c.winning_title_id ≡ winner_of room s.votes = ground arith in
        (
          (string_eq.same_iff room.host_id host).0 same,
          rw q (ground (arith, lookup-insert_self slug (resolved room s.votes) s.rooms)),
          rw q (winner_of-Wins room s.votes),
        ))
]
