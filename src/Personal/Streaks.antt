-- ===== src/Personal/Streaks.antt =====
-- services/api/repositories/personal.py, lines 385 to 469: the streak of consecutive days of a user. A date is
-- the number of its day, a time a number of seconds.
pub mod Runs
use cine_vault.Prelude.{
  ℕ, ◌+◌, max, String, Option, none, some, ltb, nat_eq, string_eq, ◌==◌, if◌then◌else◌,
}
use cine_vault.Prelude.Dict.{Dict, lookup}

pub record Streak : Type 0 where
  pub current_streak : ℕ
  pub longest_streak : ℕ
  pub last_watch_date : Option ℕ
  pub updated_at : ℕ

abbrev pub new_streak : ℕ → ℕ → Streak
new_streak day now = record {
  current_streak = 1;
  longest_streak = 1;
  last_watch_date = some day;
  updated_at = now;
}

-- The row with another run, which is the longest if it is longer.
abbrev pub moved_to : ℕ → ℕ → ℕ → Streak → Streak
moved_to run day now s = record {
  current_streak = run;
  longest_streak = max s.longest_streak run;
  last_watch_date = some day;
  updated_at = now;
}

-- The user's row after a day, from the row before, if there is one.
unfoldable pub update_user_streak : ℕ → ℕ → Option Streak → Streak
update_user_streak day now none = new_streak day now
update_user_streak day now (some s) = elim s.last_watch_date [
  | none ↦ moved_to 1 day now s
  | some last ↦
      if day == last
      then record s { updated_at = now }
      else if day == last + 1
      then moved_to (s.current_streak + 1) day now s
      else if ltb (last + 1) day
      then moved_to 1 day now s
      else s
]

pub record UserStreakResponse : Type 0 where
  pub user_id : String
  pub current_streak : ℕ
  pub longest_streak : ℕ
  pub last_watch_date : Option ℕ
  pub updated_at : ℕ

unfoldable pub get_user_streak : String → ℕ → Dict String Streak → UserStreakResponse
get_user_streak user now streaks = elim (lookup user streaks) [
  | some s ↦ record {
    user_id = user;
    current_streak = s.current_streak;
    longest_streak = s.longest_streak;
    last_watch_date = s.last_watch_date;
    updated_at = s.updated_at;
  }
  | none ↦ record {
    user_id = user;
    current_streak = 0;
    longest_streak = 0;
    last_watch_date = none;
    updated_at = now;
  }
]
