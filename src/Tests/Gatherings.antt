-- ===== src/Tests/Gatherings.antt =====
-- services/api/repositories/social.py: clubs and challenges at concrete values.
use cine_vault.Prelude.{ℕ, ◌≡◌, refl, true, [], ◌∷◌, none, some, string_eq, arith}
use cine_vault.Social.Clubs.{Clubs, WatchClubCreate}
use cine_vault.Social.Clubs.Counted
use cine_vault.Social.Clubs.Counted.{Formed, IsCounted, IsNew, Formed-IsCounted}
use cine_vault.Social.Challenges.{
  Challenges, ChallengeCreate, create_challenge, join_challenge, update_challenge_progress,
}
use cine_vault.Social.Challenges.Progress
use cine_vault.Social.Challenges.Progress.{Played, AllFair, Played-AllFair}

abbrev no_clubs : Clubs
no_clubs = record { clubs = []; memberships = []; activities = [] }

abbrev noir : WatchClubCreate
noir = record { name = "Noir"; avatar_url = none; description = none }

abbrev founding : Counted.Call
founding = Counted.create "ann" noir (record { id = "c1"; slug = "noir-1a2b3c"; now = 1 })

abbrev joining : Counted.Call
joining = Counted.join "noir-1a2b3c" "bob" 2

founding-IsNew : IsNew (record { id = "c1"; slug = "noir-1a2b3c"; now = 1 }) no_clubs
founding-IsNew = record {
  slug_unused = refl;
  id_unused = λ slug club h. absurd (ground arith);
  no_members = refl;
}

-- Bob joins twice.
abbrev formed :
    Formed (Counted.apply joining (Counted.apply joining (Counted.apply founding no_clubs)))
formed =
    Counted.after
      (Counted.after (Counted.after Counted.from_none founding founding-IsNew) joining tt) joining
      tt

Formed-IsCounted_example :
    IsCounted (Counted.apply joining (Counted.apply joining (Counted.apply founding no_clubs)))
Formed-IsCounted_example = Formed-IsCounted formed

abbrev no_challenges : Challenges
no_challenges = record { challenges = []; participants = [] }

abbrev october : ChallengeCreate
october = record {
  title = "October";
  description = none;
  challenge_type = "GLOBAL";
  club_id = none;
  goal_count = 2;
  starts_at = 10;
  ends_at = 100;
}

abbrev opening : Progress.Call
opening = Progress.create october "h1" 5

abbrev enrolling : Progress.Call
enrolling = Progress.join "h1" "ann" 20

abbrev film_at : ℕ → Progress.Call
film_at now = Progress.progress "h1" "ann" 1 now

abbrev played_out : Challenges
played_out =
    Progress.apply (film_at 40) (
      Progress.apply (film_at 30) (Progress.apply enrolling (Progress.apply opening no_challenges)))

abbrev played : Played played_out
played =
    Progress.after
      (Progress.after (Progress.after (Progress.after Progress.from_none opening refl) enrolling tt)
        (film_at 30) tt)
      (film_at 40) tt

Played-AllFair_example : AllFair played_out
Played-AllFair_example = Played-AllFair played

ann_is_done :
    played_out.participants
    ≡ record {
      challenge_id = "h1";
      user_id = "ann";
      progress = 2;
      completed = true;
      completed_at = some 40;
      joined_at = 20;
    }
      ∷ []
unfolding create_challenge join_challenge update_challenge_progress
ann_is_done = refl
