-- ===== src/Social/Invites.antt =====
-- services/api/repositories/social.py, lines 1320 to 1634: invite tokens and referrals, on the database and
-- on the seed store. The queries behind the preview of a token are a parameter. An exception leaves
-- the rows as they were, since the session is rolled back.
use cine_vault.Prelude.{
  ℕ, ◌+◌, ◌*◌, String, Bool, true, false, ◌&&◌, ◌||◌, List, [], ◌∷◌, ◌++◌, Option, none, some, ltb,
  filter, length, Result, ok, err, string_eq, ◌==◌, if◌then◌else◌,
}
use cine_vault.Prelude.Dict.{Dict, lookup, insert, values}
use cine_vault.Social.Friendships.{Friendship, Friendships, accepted, rows_of}

-- `preview_data_json`.
pub record Preview : Type 0 where
  pub top_genres : List String
  pub recent_watched_titles : List String
  pub total_watched_count : ℕ

pub record InviteToken : Type 0 where
  pub token : String
  pub inviter_id : String
  pub preview_data : Preview
  pub expires_at : Option ℕ
  pub converted_user_id : Option String
  pub created_at : ℕ

pub record Referral : Type 0 where
  pub referral_id : String
  pub inviter_id : String
  pub invitee_id : String
  pub status : String
  pub reward_issued : Bool
  pub created_at : ℕ

pub record Network : Type 0 where
  pub friendships : Friendships
  pub invites : Dict String InviteToken
  pub referrals : List Referral

pub data InviteError : Type 0 where
  token_not_found token_expired own_token multiple_results : InviteError

-- Thirty days, in seconds.
abbrev pub token_lifetime : ℕ
token_lifetime = 30 * 24 * 3600

-- `token` is drawn from `secrets`; `preview` is what the queries found.
unfoldable pub create_invite_token : String → String → Preview → ℕ → Network → InviteToken × Network
create_invite_token inviter token preview now n =
    let made : InviteToken = record {
      token = token;
      inviter_id = inviter;
      preview_data = preview;
      expires_at = some (now + token_lifetime);
      converted_user_id = none;
      created_at = now;
    } in
    (made, record n { invites = insert token made n.invites })

pub record InvitePreview : Type 0 where
  pub inviter_id : String
  pub preview : Preview
  pub is_expired : Bool
  pub is_converted : Bool
  pub created_at : ℕ

abbrev pub has_expired : Option ℕ → ℕ → Bool
has_expired none now = false
has_expired (some t) now = ltb t now

abbrev pub is_some : Option String → Bool
is_some none = false
is_some (some s) = true

unfoldable pub get_invite_preview : String → ℕ → Network → Option InvitePreview
get_invite_preview token now n = elim (lookup token n.invites) [
  | none ↦ none
  | some t ↦ some (record {
    inviter_id = t.inviter_id;
    preview = t.preview_data;
    is_expired = has_expired t.expires_at now;
    is_converted = is_some t.converted_user_id;
    created_at = t.created_at;
  })
]

-- `scalar_one_or_none`: more than one row raises.
abbrev pub one_or_none : {A : Type 0} → List A → Result InviteError (Option A)
one_or_none [] = ok none
one_or_none (x ∷ []) = ok (some x)
one_or_none (x ∷ y ∷ xs) = err multiple_results

abbrev pub or_converted : Option String → String → Option String
or_converted none invitee = some invitee
or_converted (some user) invitee = some user

-- The ids that the new rows of an acceptance get, and the clock.
pub record AcceptFresh : Type 0 where
  pub friendship_id : String
  pub referral_id : String
  pub now : ℕ

abbrev pub invited : InviteToken → String → AcceptFresh → Friendship
invited t invitee f = record {
  friendship_id = f.friendship_id;
  requester_id = t.inviter_id;
  addressee_id = invitee;
  status = accepted;
  trust_score = 75;
  created_at = f.now;
  updated_at = f.now;
}

abbrev pub referred : InviteToken → String → AcceptFresh → Referral
referred t invitee f = record {
  referral_id = f.referral_id;
  inviter_id = t.inviter_id;
  invitee_id = invitee;
  status = "PENDING";
  reward_issued = false;
  created_at = f.now;
}

-- The friendship of the two, made if there is none.
abbrev pub befriend : Friendship → Option Friendship → Friendships → Friendship × Friendships
befriend new none fs = (new, insert new.friendship_id new fs)
befriend new (some f) fs = (f, fs)

abbrev pub refer : Referral → Option Referral → List Referral → List Referral
refer new none rs = rs ++ new ∷ []
refer new (some r) rs = rs

abbrev pub refers : String → String → Referral → Bool
refers inviter invitee r = r.inviter_id == inviter && r.invitee_id == invitee

abbrev pub converted : String → InviteToken → InviteToken
converted invitee t = record t { converted_user_id = or_converted t.converted_user_id invitee }

-- The part of `accept_invite_token` behind the tests, on the rows that the two queries found.
unfoldable pub connect :
    InviteToken
    → String
    → AcceptFresh
    → Option Friendship
    → Option Referral
    → Network
    → (InviteToken × Friendship) × Network
connect t invitee f friendship referral n =
    let (made, friendships) = befriend (invited t invitee f) friendship n.friendships in
    (
      (converted invitee t, made),
      record {
        friendships = friendships;
        invites = insert t.token (converted invitee t) n.invites;
        referrals = refer (referred t invitee f) referral n.referrals;
      },
    )

unfoldable pub accept_invite_token :
    String
    → String
    → AcceptFresh
    → Network
    → Result InviteError (InviteToken × Friendship) × Network
unfolding connect
accept_invite_token token invitee f n = elim (lookup token n.invites) [
  | none ↦ (err token_not_found, n)
  | some t ↦
      if has_expired t.expires_at f.now
      then (err token_expired, n)
      else (if t.inviter_id == invitee
          then (err own_token, n)
          else (elim (one_or_none (rows_of t.inviter_id invitee n.friendships)) [
            | err e ↦ (err e, n)
            | ok friendship ↦
                elim (one_or_none (filter (refers t.inviter_id invitee) n.referrals)) [
                  | err e ↦ (err e, n)
                  | ok referral ↦
                      (let (made, n') = connect t invitee f friendship referral n in (ok made, n'))
                ]
          ]))
]

-- The branch without a database: no test of the expiry, and a new friendship and referral each time.
unfoldable pub seed_accept_invite_token :
    String
    → String
    → AcceptFresh
    → Network
    → Result InviteError (InviteToken × Friendship) × Network
seed_accept_invite_token token invitee f n = elim (lookup token n.invites) [
  | none ↦ (err token_not_found, n)
  | some t ↦
      if t.inviter_id == invitee
      then (err own_token, n)
      else (let t' : InviteToken = record t { converted_user_id = some invitee } in
          (
            ok (t', invited t invitee f),
            record {
              friendships = insert f.friendship_id (invited t invitee f) n.friendships;
              invites = insert token t' n.invites;
              referrals = n.referrals ++ referred t invitee f ∷ [];
            },
          ))
]

pub record ReferralStats : Type 0 where
  pub inviter_id : String
  pub total_invites_sent : ℕ
  pub total_conversions : ℕ
  pub qualified_referrals : ℕ
  pub referrals : List Referral

abbrev pub is_qualified : Referral → Bool
is_qualified r = r.status == "QUALIFIED" || r.status == "REWARDED" || r.reward_issued

-- The database returns the referrals newest first, the seed store in the order of its list.
unfoldable pub get_referral_stats : String → Network → ReferralStats
get_referral_stats user n =
    let referrals = filter (λ r. r.inviter_id == user) n.referrals in
    record {
      inviter_id = user;
      total_invites_sent = length (filter (λ t. t.inviter_id == user) (values n.invites));
      total_conversions = length referrals;
      qualified_referrals = length (filter is_qualified referrals);
      referrals = referrals;
    }
