-- ===== src/Social/Recommendations/Lifecycle.antt =====
-- services/api/repositories/social.py: what a recommendation goes through.
use mathlib.Core.Path.{subst}
use cine_vault.Prelude.{
  ℕ, ◌+◌, ◌≤◌, ◌<◌, String, Bool, true, false, ◌≡◌, ◌≢◌, refl, sym, ap, List, [], ◌∷◌, Option, some,
  arith, Result, ok, err, string_eq, ◌==◌, if◌then◌else◌, Bool-cases, Option-cases, Result-cases,
  ◌⊎◌, inl, inr, All, ◌∙◌,
}
use cine_vault.Prelude.Dict.{lookup, found_in_insert, lookup-insert}
use cine_vault.Social.Friendships.{Friendships, NewRow, are_friends_accepted}
use cine_vault.Social.Recommendations.{
  RecommendationStatus, sent, accepted, rejected, watched, rated, is_allowed, Recommendation,
  Recommendations, RecommendationCreate, RecommendationStateUpdate, RecommendationError, is_rated,
  is_none, moved, transition, create_recommendation, update_recommendation_state,
  new_recommendation,
}

-- How far a recommendation has come.
abbrev pub rank : RecommendationStatus → ℕ
rank sent = 0
rank accepted = 1
rank rejected = 1
rank watched = 2
rank rated = 3

rank-is_allowed : (s t : RecommendationStatus) → is_allowed s t ≡ true → rank s < rank t
unfolding is_allowed
rank-is_allowed s t h = ground arith

open-is_allowed : (s t : RecommendationStatus) → is_allowed s t ≡ true → is_rated s ≡ false
unfolding is_allowed
open-is_allowed s t h = ground arith

-- A recommendation has the rating of its recipient exactly when it is RATED.
abbrev pub RatedOnce : Recommendation → Type 0
RatedOnce r = is_none r.recipient_actual_rating ≡ (if is_rated r.status then false else true)

transition-ok :
    (body : RecommendationStateUpdate) (actor : Option String) (now : ℕ) (r r' : Recommendation)
    → transition body actor now r ≡ ok r'
    → (is_allowed r.status body.status ≡ true)
      × (r' ≡ moved body now r)
      × ((is_rated body.status ≡ false) ⊎ (is_none body.recipient_actual_rating ≡ false))
unfolding transition
transition-ok body actor now r r' h = ground arith

transition-RatedOnce :
    (body : RecommendationStateUpdate) (actor : Option String) (now : ℕ) (r r' : Recommendation)
    → transition body actor now r ≡ ok r'
    → RatedOnce r
    → RatedOnce r'
transition-RatedOnce body actor now r r' h v =
    let (a, e, c) = transition-ok body actor now r r' h in
    let open_before = open-is_allowed r.status body.status a in
    subst RatedOnce (sym e) (ground arith)

-- One call: an update of a recommendation, with its actor and the clock.
pub record Update : Type 0 where
  pub id : String
  pub body : RecommendationStateUpdate
  pub actor : Option String
  pub now : ℕ

abbrev pub update :
    Update → Recommendations → Result RecommendationError Recommendation × Recommendations
update u rs = update_recommendation_state u.id u.body u.actor u.now rs

-- Calls of the repository, each with the friendships that it finds.
pub data Call : Type 0 where
  create : String → RecommendationCreate → NewRow → Friendships → Call
  change : Update → Call

abbrev pub apply : Call → Recommendations → Recommendations
apply (create sender body new friendships) rs =
    (create_recommendation sender body new friendships rs).1
apply (change u) rs = (update u rs).1

abbrev pub run : List Call → Recommendations → Recommendations
run [] rs = rs
run (c ∷ calls) rs = run calls (apply c rs)

abbrev pub succeeds_for : String → Update → Result RecommendationError Recommendation → Bool
succeeds_for id u (ok r) = u.id == id
succeeds_for id u (err e) = false

-- The updates of one recommendation that succeed in a sequence of calls.
abbrev pub successes : String → List Call → Recommendations → ℕ
successes id [] rs = 0
successes id (create sender body new friendships ∷ calls) rs =
    successes id calls (apply (create sender body new friendships) rs)
successes id (change u ∷ calls) rs =
    (if succeeds_for id u (update u rs).0 then 1 else 0) + successes id calls (apply (change u) rs)

-- A call that makes a recommendation draws another id.
abbrev pub Spares : String → Call → Type 0
Spares id (create sender body new friendships) = new.id ≢ id
Spares id (change u) = Unit

rank-le : (s : RecommendationStatus) → rank s ≤ 3
rank-le s = ground arith

-- A call leaves a recommendation where it was, or moves it on.
advances :
    (id : String) (u : Update) (rs : Recommendations) (r : Recommendation)
    → lookup id rs ≡ some r
    → (r' : Recommendation) × (lookup id (update u rs).1 ≡ some r')
      × ((if succeeds_for id u (update u rs).0 then 1 else 0) + rank r.status ≤ rank r'.status)
unfolding update_recommendation_state
advances id u rs r h = elim (Option-cases (lookup u.id rs)) [
  | inl e ↦
      (r, rw (update_recommendation_state, e) h, rw (update_recommendation_state, e) (omega arith))
  | inr (q, e) ↦ elim (Result-cases (transition u.body u.actor u.now q)) [
    | inl (x, t) ↦ (
      r,
      rw (update_recommendation_state, e, t) h,
      rw (update_recommendation_state, e, t) (omega arith),
    )
    | inr (q', t) ↦
        (let (a, m, c) = transition-ok u.body u.actor u.now q q' t in
          let further = rank-is_allowed q.status u.body.status a in
          let status : q'.status ≡ u.body.status = ap (λ (x : Recommendation). x.status) m in
          elim (Bool-cases (u.id == id)) [
            | inl same ↦
                (let known : lookup u.id rs ≡ some r = rw ((string_eq.same_iff u.id id).0 same) h in
                  let q_is_r : q ≡ r = ground arith in
                  let rank_is : rank q.status ≡ rank r.status =
                    ap (λ (x : Recommendation). rank x.status) q_is_r in
                  let rank_after : rank q'.status ≡ rank u.body.status = ap rank status in
                  (
                    q',
                    rw (update_recommendation_state, e, t)
                        (ground (arith, lookup-insert u.id id q' rs)),
                    rw (update_recommendation_state, e, t)
                        (rw same (omega (arith, further, rank_is, rank_after))),
                  ))
            | inr other ↦ (
              r,
              rw (update_recommendation_state, e, t) (ground (arith, lookup-insert u.id id q' rs)),
              rw (update_recommendation_state, e, t) (rw other (omega arith)),
            )
          ])
  ]
]

-- A recommendation that is made leaves those of other ids as they are.
create-spares :
    (id : String) (sender : String) (body : RecommendationCreate) (new : NewRow) (fs : Friendships)
    (rs : Recommendations)
    → new.id ≢ id
    → lookup id (create_recommendation sender body new fs rs).1 ≡ lookup id rs
unfolding create_recommendation
create-spares id sender body new fs rs other = elim (Bool-cases (sender == body.recipient_id)) [
  | inl e ↦ rw (create_recommendation, e) refl
  | inr e ↦ elim (Bool-cases (are_friends_accepted sender body.recipient_id fs)) [
    | inr a ↦ rw (create_recommendation, e, a) refl
    | inl a ↦
        (let made = new_recommendation sender body new in
          rw (create_recommendation, e, a)
            (ground (arith, lookup-insert new.id id made rs, string_eq.same_iff new.id id)))
  ]
]

-- At most three updates of a recommendation that is there succeed, whatever updates and new recommendations
-- come in between, and fewer the further it has come, provided that no new one draws its id.
pub successes-le :
    (id : String) (calls : List Call) (rs : Recommendations) (r : Recommendation)
    → lookup id rs ≡ some r
    → All (Spares id) calls
    → successes id calls rs + rank r.status ≤ 3
successes-le id [] rs r h spares = omega (arith, rank-le r.status)
successes-le id (create sender body new fs ∷ calls) rs r h spares =
    successes-le id calls _ r (create-spares id sender body new fs rs spares.0 ∙ h) spares.1
successes-le id (change u ∷ calls) rs r h spares =
    let (r', found, less) = advances id u rs r h in
    omega (arith, less, successes-le id calls (update u rs).1 r' found spares.1)

-- What a recommendation is like at any time.
pub record IsSound (r : Recommendation) : Type 0 where
  pub not_to_self : r.sender_id ≢ r.recipient_id
  pub rated_once : RatedOnce r

abbrev AllSound : Recommendations → Type 0
AllSound rs = (id : String) (r : Recommendation) → lookup id rs ≡ some r → IsSound r

create-AllSound :
    (sender : String) (body : RecommendationCreate) (new : NewRow) (fs : Friendships)
    (rs : Recommendations)
    → AllSound rs
    → AllSound (create_recommendation sender body new fs rs).1
unfolding create_recommendation
create-AllSound sender body new fs rs v = elim (Bool-cases (sender == body.recipient_id)) [
  | inl e ↦ rw (create_recommendation, e) v
  | inr e ↦ elim (Bool-cases (are_friends_accepted sender body.recipient_id fs)) [
    | inr a ↦ rw (create_recommendation, e, a) v
    | inl a ↦
        rw (create_recommendation, e, a)
          (λ id r h. elim (found_in_insert new.id id (new_recommendation sender body new) r rs h) [
            | inl (p, q) ↦ subst IsSound q (record {
              not_to_self = λ same. ground (arith, string_eq.same_iff sender body.recipient_id);
              rated_once = refl;
            })
            | inr old ↦ v id r old
          ])
  ]
]

update-AllSound : (u : Update) (rs : Recommendations) → AllSound rs → AllSound (update u rs).1
unfolding update_recommendation_state
update-AllSound u rs v = elim (Option-cases (lookup u.id rs)) [
  | inl e ↦ rw (update_recommendation_state, e) v
  | inr (q, e) ↦ elim (Result-cases (transition u.body u.actor u.now q)) [
    | inl (x, t) ↦ rw (update_recommendation_state, e, t) v
    | inr (q', t) ↦
        rw (update_recommendation_state, e, t)
          (λ id r h. elim (found_in_insert u.id id q' r rs h) [
            | inl (p, same) ↦ subst IsSound same (record {
              not_to_self =
                  subst (λ x. x.sender_id ≢ x.recipient_id)
                    (sym (transition-ok u.body u.actor u.now q q' t).1) (v u.id q e).not_to_self;
              rated_once = transition-RatedOnce u.body u.actor u.now q q' t (v u.id q e).rated_once;
            })
            | inr old ↦ v id r old
          ])
  ]
]

run-AllSound : (calls : List Call) (rs : Recommendations) → AllSound rs → AllSound (run calls rs)
run-AllSound [] rs v = v
run-AllSound (create sender body new fs ∷ calls) rs v =
    run-AllSound calls _ (create-AllSound sender body new fs rs v)
run-AllSound (change u ∷ calls) rs v = run-AllSound calls _ (update-AllSound u rs v)

-- After any calls on an empty repository no recommendation goes to its sender, and a recommendation has the
-- rating of its recipient exactly when it is RATED.
pub run-IsSound :
    (calls : List Call) (id : String) (r : Recommendation)
    → lookup id (run calls []) ≡ some r
    → IsSound r
run-IsSound calls = run-AllSound calls [] (λ id r h. absurd (ground arith))
