-- ===== src/Social/Challenges/Progress.antt =====
-- services/api/repositories/social.py: what the progress in a challenge says.
use mathlib.Core.Path.{subst}
use cine_vault.Prelude.{
  ℕ, ◌+◌, String, Bool, true, false, not, ◌&&◌, ◌≡◌, refl, sym, List, [], ◌∷◌, Option, none, some,
  arith, leb, string_eq, nat_eq, ◌==◌, Bool-cases, Option-cases, inl, inr, All, All-imp, All-append,
}
use cine_vault.Prelude.Dict.{Dict, lookup, insert, lookup-insert}
use cine_vault.Social.Challenges.{
  Challenge, Participant, Challenges, ChallengeCreate, create_challenge, is_participant_of,
  find_participant, joined, join_challenge, goal_of, is_inactive, advanced, advance_in,
  update_challenge_progress,
}

abbrev pub has_time : Option ℕ → Bool
has_time none = false
has_time (some t) = true

-- A participant of a challenge that is there, marked as completed exactly when the goal is reached, and then
-- with the time of it.
pub record Fair (challenges : Dict String Challenge) (p : Participant) : Type 0 where
  pub challenge : Challenge
  pub found : lookup p.challenge_id challenges ≡ some challenge
  pub exact : p.completed ≡ leb (goal_of challenge) p.progress
  pub timed : has_time p.completed_at ≡ p.completed

abbrev pub AllFair : Challenges → Type 0
AllFair s = All (Fair s.challenges) s.participants

goal_of-positive : (ch : Challenge) → leb (goal_of ch) 0 ≡ false
goal_of-positive ch = ground (arith, nat_eq.same_iff ch.goal_count 0)

advanced-Fair :
    (challenges : Dict String Challenge) (ch : Challenge) (increment now : ℕ) (p : Participant)
    → lookup p.challenge_id challenges ≡ some ch
    → Fair challenges p
    → Fair challenges (advanced (goal_of ch) increment now p)
advanced-Fair challenges ch increment now p known fair =
    let same : fair.challenge ≡ ch = (let at = fair.found in ground (arith, at, known)) in
    let exact : p.completed ≡ leb (goal_of ch) p.progress =
      subst (λ c. p.completed ≡ leb (goal_of c) p.progress) same fair.exact in
    let timed = fair.timed in
    elim (Bool-cases (leb (goal_of ch) (p.progress + increment) && not p.completed)) [
      | inl e ↦
          rw e (record { challenge = ch; found = known; exact = ground (arith, e); timed = refl })
      | inr e ↦ rw e (record {
        challenge = ch;
        found = known;
        exact = ground (arith, e, exact);
        timed = timed;
      })
    ]

advance_in-Fair :
    (challenges : Dict String Challenge) (id user : String) (ch : Challenge) (increment now : ℕ)
    (ps : List Participant)
    → lookup id challenges ≡ some ch
    → All (Fair challenges) ps
    → All (Fair challenges) (advance_in id user (goal_of ch) increment now ps)
advance_in-Fair challenges id user ch increment now [] known h = tt
advance_in-Fair challenges id user ch increment now (p ∷ ps) known h =
    elim (Bool-cases (is_participant_of id user p)) [
      | inl e ↦
          (let same : p.challenge_id ≡ id = ground (arith, string_eq.same_iff p.challenge_id id) in
            rw e (
              advanced-Fair challenges ch increment now p
                  (subst (λ i. lookup i challenges ≡ some ch) (sym same) known) h.0,
              h.1,
            ))
      | inr e ↦ rw e (h.0, advance_in-Fair challenges id user ch increment now ps known h.1)
    ]

insert-Fair :
    (challenges : Dict String Challenge) (id : String) (ch : Challenge) (p : Participant)
    → lookup id challenges ≡ none
    → Fair challenges p
    → Fair (insert id ch challenges) p
insert-Fair challenges id ch p unused fair = elim (Bool-cases (id == p.challenge_id)) [
  | inl e ↦
      (let same : id ≡ p.challenge_id = (string_eq.same_iff id p.challenge_id).0 e in
        let known = subst (λ i. lookup i challenges ≡ some fair.challenge) (sym same) fair.found in
        absurd (ground (arith, known, unused)))
  | inr e ↦ record {
    challenge = fair.challenge;
    found = rw (lookup-insert id p.challenge_id ch challenges) (rw e fair.found);
    exact = fair.exact;
    timed = fair.timed;
  }
]

-- Calls that write challenges, of any users.
pub data Call : Type 0 where
  create : ChallengeCreate → String → ℕ → Call
  join : String → String → ℕ → Call
  progress : String → String → ℕ → ℕ → Call

abbrev pub apply : Call → Challenges → Challenges
apply (create body id now) s = (create_challenge body id now s).1
apply (join id user now) s = (join_challenge id user now s).1
apply (progress id user increment now) s = (update_challenge_progress id user increment now s).1

-- `uuid4` gives an id that no challenge has.
abbrev pub IsUnused : Call → Challenges → Type 0
IsUnused (create body id now) s = lookup id s.challenges ≡ none
IsUnused _ s = Unit

-- The states that calls make of no challenges.
pub data Played : Challenges → Type 0 where
  from_none : Played (record { challenges = []; participants = [] })
  after : {s : Challenges} → Played s → (c : Call) → IsUnused c s → Played (apply c s)

join-AllFair :
    (id user : String) (now : ℕ) (s : Challenges)
    → AllFair s
    → AllFair (join_challenge id user now s).1
unfolding join_challenge
join-AllFair id user now s v = elim (Option-cases (find_participant id user s.participants)) [
  | inr (p, e) ↦ rw (join_challenge, e) v
  | inl e ↦ elim (Option-cases (lookup id s.challenges)) [
    | inl k ↦ rw (join_challenge, e, k) v
    | inr (ch, k) ↦
        rw (join_challenge, e, k)
          (All-append (Fair s.challenges) s.participants (joined id user now ∷ []) v (
            record { challenge = ch; found = k; exact = sym (goal_of-positive ch); timed = refl },
            tt,
          ))
  ]
]

progress-AllFair :
    (id user : String) (increment now : ℕ) (s : Challenges)
    → AllFair s
    → AllFair (update_challenge_progress id user increment now s).1
unfolding update_challenge_progress
progress-AllFair id user increment now s v = elim (Option-cases (lookup id s.challenges)) [
  | inl e ↦ rw (update_challenge_progress, e) v
  | inr (ch, e) ↦ elim (Bool-cases (is_inactive now ch)) [
    | inl i ↦ rw (update_challenge_progress, e, i) v
    | inr i ↦ elim (Option-cases (find_participant id user s.participants)) [
      | inl k ↦ rw (update_challenge_progress, e, i, k) v
      | inr (p, k) ↦
          rw (update_challenge_progress, e, i, k)
            (advance_in-Fair s.challenges id user ch increment now s.participants e v)
    ]
  ]
]

-- After any calls, in which `uuid4` makes unused ids, every participant is in a challenge that is there, is
-- marked as completed exactly when the progress has reached the goal, and has a time of completion exactly then.
pub Played-AllFair : {s : Challenges} → Played s → AllFair s
unfolding create_challenge
Played-AllFair from_none = tt
Played-AllFair (after {s = s} path (create body id now) unused) =
    All-imp (Fair s.challenges) (Fair (apply (create body id now) s).challenges)
      (λ p fair. insert-Fair s.challenges id _ p unused fair) s.participants (Played-AllFair path)
Played-AllFair (after {s = s} path (join id user now) unused) =
    join-AllFair id user now s (Played-AllFair path)
Played-AllFair (after {s = s} path (progress id user increment now) unused) =
    progress-AllFair id user increment now s (Played-AllFair path)
