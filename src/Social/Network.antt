-- ===== src/Social/Network.antt =====
-- services/api/repositories/social.py: what holds of the friendships after any calls on the database.
use cine_vault.Prelude.{
  ℕ, String, false, ◌≡◌, ◌≢◌, ◌⊎◌, refl, List, [], ◌∷◌, Option, none, some, arith, filter, ok,
  string_eq, ◌==◌, Bool-cases, Option-cases, Result-cases, inl, inr,
}
use cine_vault.Prelude.Dict.{lookup, insert}
use cine_vault.Social.Friendships.{
  Friendship, Friendships, FriendshipStatus, pending, accepted, blocked, NewRow, first, rows_of,
  create_friendship, update_friendship_status, delete_friendship,
}
use cine_vault.Social.Friendships.Pairs.{
  IsPaired, init-IsPaired, insert-IsPaired, create_friendship-IsPaired,
  update_friendship_status-IsPaired, delete_friendship-IsPaired,
}
use cine_vault.Social.Invites.{
  Network, InviteToken, Referral, AcceptFresh, invited, refers, has_expired, one_or_none, connect,
  accept_invite_token,
}

-- Calls that write friendships.
pub data Call : Type 0 where
  create : String → String → FriendshipStatus → ℕ → NewRow → Call
  update : String → FriendshipStatus → Option ℕ → Option String → ℕ → Call
  delete : String → Option String → Call
  accept : String → String → AcceptFresh → Call

abbrev pub on_friendships : Friendships → Network → Network
on_friendships fs n = record n { friendships = fs }

abbrev pub apply : Call → Network → Network
apply (create a b status trust new) n =
    on_friendships (create_friendship a b status trust new n.friendships).1 n
apply (update id status trust actor now) n =
    on_friendships (update_friendship_status id status trust actor now n.friendships).1 n
apply (delete id actor) n = on_friendships (delete_friendship id actor n.friendships).1 n
apply (accept token invitee f) n = (accept_invite_token token invitee f n).1

-- `uuid4` gives an id that no friendship has.
abbrev pub IsUnused : Call → Network → Type 0
IsUnused (create a b status trust new) n = lookup new.id n.friendships ≡ none
IsUnused (accept token invitee f) n = lookup f.friendship_id n.friendships ≡ none
IsUnused _ n = Unit

-- The networks that calls make of one without friendships.
pub data Grown : Network → Type 0 where
  from_none : (n : Network) → n.friendships ≡ [] → Grown n
  after : {n : Network} → Grown n → (c : Call) → IsUnused c n → Grown (apply c n)

one_or_none-none : (fs : List Friendship) → one_or_none fs ≡ ok none → first fs ≡ none
one_or_none-none [] h = refl
one_or_none-none (f ∷ []) h = absurd (ground arith)
one_or_none-none (f ∷ g ∷ fs) h = absurd (ground arith)

-- What an acceptance that is not refused has found.
pub record Accepts (token invitee : String) (f : AcceptFresh) (n : Network) (t : InviteToken)
    (friendship : Option Friendship) (referral : Option Referral) : Type 0 where
  pub found : lookup token n.invites ≡ some t
  pub live : has_expired t.expires_at f.now ≡ false
  pub other : t.inviter_id ≢ invitee
  pub rows : one_or_none (rows_of t.inviter_id invitee n.friendships) ≡ ok friendship
  pub referrals : one_or_none (filter (refers t.inviter_id invitee) n.referrals) ≡ ok referral

connect-IsPaired :
    (token invitee : String) (f : AcceptFresh) (n : Network) (t : InviteToken)
    (friendship : Option Friendship) (referral : Option Referral)
    → lookup f.friendship_id n.friendships ≡ none
    → Accepts token invitee f n t friendship referral
    → IsPaired n.friendships
    → IsPaired (connect t invitee f friendship referral n).1.friendships
unfolding connect
connect-IsPaired token invitee f n t none referral unused a v =
    insert-IsPaired f.friendship_id (invited t invitee f) n.friendships unused refl a.other
      (one_or_none-none (rows_of t.inviter_id invitee n.friendships) a.rows) v
connect-IsPaired token invitee f n t (some g) referral unused a v = v

accept-IsPaired :
    (token invitee : String) (f : AcceptFresh) (n : Network)
    → lookup f.friendship_id n.friendships ≡ none
    → IsPaired n.friendships
    → IsPaired (accept_invite_token token invitee f n).1.friendships
unfolding accept_invite_token
accept-IsPaired token invitee f n unused v = elim (Option-cases (lookup token n.invites)) [
  | inl e ↦ rw (accept_invite_token, e) v
  | inr (t, e) ↦ elim (Bool-cases (has_expired t.expires_at f.now)) [
    | inl x ↦ rw (accept_invite_token, e, x) v
    | inr x ↦ elim (Bool-cases (t.inviter_id == invitee)) [
      | inl s ↦ rw (accept_invite_token, e, x, s) v
      | inr s ↦ elim (Result-cases (one_or_none (rows_of t.inviter_id invitee n.friendships))) [
        | inl (y, p) ↦ rw (accept_invite_token, e, x, s, p) v
        | inr (friendship, p) ↦
            elim (Result-cases (one_or_none (filter (refers t.inviter_id invitee) n.referrals))) [
              | inl (y, q) ↦ rw (accept_invite_token, e, x, s, p, q) v
              | inr (referral, q) ↦
                  rw (accept_invite_token, e, x, s, p, q)
                    (connect-IsPaired token invitee f n t friendship referral unused
                      (record {
                        found = e;
                        live = x;
                        other = λ same. ground (arith, string_eq.same_iff t.inviter_id invitee);
                        rows = p;
                        referrals = q;
                      })
                      v)
            ]
      ]
    ]
  ]
]

-- After any calls on a database without friendships, in which `uuid4` makes unused ids: nobody is their own
-- friend, every friendship is filed under its id, and two users have one friendship at most, whoever asked.
pub Grown-IsPaired : {n : Network} → Grown n → IsPaired n.friendships
Grown-IsPaired (from_none n e) = rw e init-IsPaired
Grown-IsPaired (after {n = n} path (create a b status trust new) unused) =
    create_friendship-IsPaired a b status trust new n.friendships unused (Grown-IsPaired path)
Grown-IsPaired (after {n = n} path (update id status trust actor now) unused) =
    update_friendship_status-IsPaired id status trust actor now n.friendships (Grown-IsPaired path)
Grown-IsPaired (after {n = n} path (delete id actor) unused) =
    delete_friendship-IsPaired id actor n.friendships (Grown-IsPaired path)
Grown-IsPaired (after {n = n} path (accept token invitee f) unused) =
    accept-IsPaired token invitee f n unused (Grown-IsPaired path)

-- An actor who makes a friendship ACCEPTED is its addressee. An actor who sets any status is a side of it.
pub update_friendship_status-authorised :
    (id actor : String) (status : FriendshipStatus) (trust : Option ℕ) (now : ℕ)
    (fs fs' : Friendships) (f : Friendship)
    → update_friendship_status id status trust (some actor) now fs ≡ (ok (some f), fs')
    → ((status ≡ accepted) × (actor ≡ f.addressee_id))
      ⊎ ((status ≢ accepted) × ((actor ≡ f.requester_id) ⊎ (actor ≡ f.addressee_id)))
unfolding update_friendship_status
update_friendship_status-authorised id actor accepted trust now fs fs' f h =
    elim (Option-cases (lookup id fs)) [
      | inl e ↦ absurd (ground arith)
      | inr (g, e) ↦
          ground (
            arith,
            string_eq.same_iff actor g.requester_id,
            string_eq.same_iff actor g.addressee_id,
          )
    ]
update_friendship_status-authorised id actor blocked trust now fs fs' f h =
    elim (Option-cases (lookup id fs)) [
      | inl e ↦ absurd (ground arith)
      | inr (g, e) ↦
          ground (
            arith,
            string_eq.same_iff actor g.requester_id,
            string_eq.same_iff actor g.addressee_id,
          )
    ]
update_friendship_status-authorised id actor pending trust now fs fs' f h =
    elim (Option-cases (lookup id fs)) [
      | inl e ↦ absurd (ground arith)
      | inr (g, e) ↦
          ground (
            arith,
            string_eq.same_iff actor g.requester_id,
            string_eq.same_iff actor g.addressee_id,
          )
    ]

-- A BLOCKED friendship is lifted by the addressee alone, who may be the one who was blocked.
pub blocked_addressee_accepts :
    (id : String) (f : Friendship) (now : ℕ) (fs : Friendships)
    → lookup id fs ≡ some f
    → f.status ≡ blocked
    → let lifted : Friendship = record f { status = accepted; updated_at = now } in
      update_friendship_status id accepted none (some f.addressee_id) now fs
      ≡ (ok (some lifted), insert id lifted fs)
unfolding update_friendship_status
blocked_addressee_accepts id f now fs e b =
    ground (arith, string_eq.same_iff f.addressee_id f.addressee_id)
