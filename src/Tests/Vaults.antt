-- ===== src/Tests/Vaults.antt =====
-- services/api/repositories/personal.py and sync.py: what a user keeps, and a push of mutations, at concrete
-- values.
use cine_vault.Prelude.{
  ◌⊎◌, ℕ, String, ◌≡◌, refl, true, false, List, [], ◌∷◌, none, some, ok, err, string_eq, arith, ◌+◌,
}
use cine_vault.Sync.Stores.{
  MutationItem, SyncError, Stores, Server, Done, Context, check_and_set_idempotency, check_database,
  stage_outbox,
}
use cine_vault.Sync.Push.{
  PersonalRepository, dispatch, execute_item, process_item, SyncPushResponse, response,
  process_push_mutations,
}
use cine_vault.Sync.Repeat.{Answers, all_acknowledged, push_again, push-Answers}
use cine_vault.Personal.Streaks.{update_user_streak}
use cine_vault.Personal.Streaks.Runs.{Log, days_of, streak_of, Tells, streak_of-Tells}
use cine_vault.Personal.States.{
  States, TitleState, UserTitleStateResponse, null_is_favorite, UserTitleStateUpdate,
  get_user_title_state, update_user_title_state,
}
use cine_vault.Personal.States.Patch.{update_user_title_state-ok}
use cine_vault.Personal.Events.{WatchEventCreate, History, create_watch_event}
use cine_vault.Personal.Events.Log.{AppendOnly, run-AppendOnly, create_watch_event-again}
use cine_vault.Personal.Events.Log
use cine_vault.Personal.Ratings.{Rating, set_rating, list_ratings}
use cine_vault.Personal.Ratings.Single.{set_rating-ok}
use cine_vault.Personal.Ratings.Single
use cine_vault.Personal.Collections.{Shelf, Drawn}
use cine_vault.Personal.Collections.Shelved.{IsShelved, run-IsShelved}
use cine_vault.Personal.Collections.Shelved

-- A repository that counts its calls in the seeds, and refuses notes.
abbrev counted : Stores ℕ ℕ → Done × Stores ℕ ℕ
counted st = (ok tt, record st { seeds = st.seeds + 1 })

abbrev repository : PersonalRepository ℕ ℕ
repository = record {
  create_watch_event = λ user body key st. counted st;
  set_rating = λ user body st. counted st;
  update_user_title_state = λ user title body st. counted st;
  create_note = λ user body st. (err (SyncError.domain_error "note_text"), st);
  create_review = λ user body st. counted st;
}

abbrev context : Context
context = record { allow_seed_fallback = false; uuid = λ s. some s; now_text = "now" }

abbrev mutation : String → String → MutationItem
mutation id type = record { mutation_id = id; mutation_type = type; payload = [] }

abbrev pushed : List MutationItem
pushed = mutation "m1" "SET_RATING" ∷ mutation "m2" "CREATE_NOTE" ∷ mutation "m1" "SET_RATING" ∷ []

abbrev fresh_server : Server ℕ ℕ
fresh_server = record {
  valkey = record { available = true; keys = ("idempotency:mutation:ann:m2", 60) ∷ [] };
  processed = [];
  stores = record { seeds = 0; session = none };
}

abbrev pushed_server : Server ℕ ℕ
pushed_server = record {
  valkey = record {
    available = true;
    keys =
        ("idempotency:mutation:ann:m2", 86501)
        ∷ ("idempotency:mutation:ann:m1", 86500)
        ∷ ("idempotency:mutation:ann:m2", 60)
        ∷ [];
  };
  processed = "m1" ∷ [];
  stores = record { seeds = 1; session = none };
}

abbrev answer : SyncPushResponse
answer = response ("m1" ∷ "m1" ∷ []) (("m2", SyncError.domain_error "note_text") ∷ [])

abbrev first_times : ℕ → ℕ
first_times n = n + 100

-- Almost a day later.
abbrev second_times : ℕ → ℕ
second_times n = n + 86400

push_runs :
    process_push_mutations context repository "ann" first_times pushed fresh_server
    ≡ (ok answer, pushed_server)
unfolding process_push_mutations process_item execute_item dispatch check_and_set_idempotency
    check_database stage_outbox
push_runs = refl

-- The note that failed is acknowledged, and not written, when it is pushed again.
push_again_example :
    process_push_mutations context repository "ann" second_times pushed pushed_server
    ≡ (ok (all_acknowledged pushed), pushed_server)
push_again_example =
    push_again context repository "ann" 100 86499 first_times second_times pushed fresh_server
      pushed_server answer refl (λ n k. (omega (arith, k), omega (arith, k)))
      (refl, (refl, (refl, tt))) (λ n k. omega (arith, k)) push_runs

push-Answers_example : Answers pushed answer
push-Answers_example =
    push-Answers context repository "ann" first_times pushed fresh_server pushed_server answer
      push_runs

-- Days 1, 2, 3, 3, 7, 8, with the newest first.
abbrev watching : Log
watching = (7, 50) ∷ (3, 40) ∷ (3, 31) ∷ (2, 20) ∷ (1, 10) ∷ []

streak_of-Tells_example :
    Tells (8 ∷ days_of watching) 8 (update_user_streak 8 60 (streak_of watching))
streak_of-Tells_example =
    streak_of-Tells 8 60 watching
      (omega arith, (omega arith, (omega arith, (omega arith, (omega arith, tt)))))

streak_runs :
    update_user_streak 8 60 (streak_of watching)
    ≡ record { current_streak = 2; longest_streak = 3; last_watch_date = some 8; updated_at = 60 }
unfolding update_user_streak
streak_runs = refl

abbrev favorite : TitleState
favorite = record {
  manual_status_override = some "PLAN_TO_WATCH";
  is_favorite = true;
  preferred_edition_id = none;
  updated_at = 1;
}

abbrev states : States
states = (("ann", "t1"), favorite) ∷ []

-- The status is cleared, the favorite left out.
abbrev clearing : UserTitleStateUpdate
clearing = record {
  manual_status_override = some none;
  is_favorite = none;
  preferred_edition_id = none;
}

update_user_title_state-ok_example :
    let (result, after) = update_user_title_state "ann" "t1" clearing 2 states in
    let got = get_user_title_state "ann" "t1" 3 after in
    let before = get_user_title_state "ann" "t1" 3 states in
    ((clearing.is_favorite ≡ some none) × (result ≡ err null_is_favorite) × (after ≡ states))
    ⊎ ((r : UserTitleStateResponse) × (result ≡ ok r)
        × (got.manual_status_override ≡ none)
        × (some got.is_favorite ≡ some before.is_favorite)
        × (got.preferred_edition_id ≡ before.preferred_edition_id)
        × (get_user_title_state "bob" "t1" 3 after ≡ get_user_title_state "bob" "t1" 3 states))
update_user_title_state-ok_example =
    update_user_title_state-ok "ann" "t1" clearing 2 states "bob" "t1" 3

abbrev empty_history : History
empty_history = record { events = []; states = []; streaks = [] }

abbrev viewing : WatchEventCreate
viewing = record {
  title_id = "t1";
  edition_id = none;
  season_id = none;
  episode_id = some "e1";
  device_type = none;
  notes = none;
  watched_at = 100;
  watch_date = 1;
  progress_percentage = 1000;
}

abbrev history_calls : List Log.Call
history_calls = Log.create "ann" viewing "k1" 100 ∷ Log.delete "ann" "k1" ∷ []

run-AppendOnly_example :
    AppendOnly empty_history.events (Log.run (λ t. 2) history_calls empty_history).events
run-AppendOnly_example = run-AppendOnly (λ t. 2) history_calls empty_history tt

create_watch_event-again_example :
    create_watch_event
      (λ t. 2)
      "bob"
      viewing
      "k1"
      200
      (create_watch_event (λ t. 2) "ann" viewing "k1" 100 empty_history).1
    ≡ (
      record (create_watch_event (λ t. 2) "ann" viewing "k1" 100 empty_history).0 {
        user_id = "bob";
        progress_percentage = 1000;
        created_at = 100;
      },
      (create_watch_event (λ t. 2) "ann" viewing "k1" 100 empty_history).1,
    )
unfolding create_watch_event
create_watch_event-again_example =
    create_watch_event-again (λ t. 2) (λ t. 2) "ann" "bob" viewing viewing "k1" 100 200
      empty_history

abbrev rating_calls : List Single.Call
rating_calls = Single.set "ann" "t1" 7 "r1" 1 ∷ Single.set "bob" "t1" 4 "r2" 2 ∷ []

set_rating-ok_example :
    (r : Rating) × ((set_rating "ann" "t1" 9 "r3" 3 (Single.run rating_calls [])).0 ≡ ok r)
    × (r.rating_value ≡ 9)
    × (list_ratings "ann"
          (some "t1")
          (set_rating "ann" "t1" 9 "r3" 3 (Single.run rating_calls [])).1
        ≡ r ∷ [])
set_rating-ok_example = set_rating-ok rating_calls "ann" "t1" 9 "r3" 3 refl

abbrev drawn : String → Drawn
drawn id = record { id = id; now = 1 }

abbrev shelf_calls : List Shelved.Call
shelf_calls =
    Shelved.create "ann" "Noir" none true (drawn "l1")
    ∷ Shelved.add "ann" "l1" "t1" none (drawn "i1")
    ∷ Shelved.add "ann" "l1" "t1" none (drawn "i2")
    ∷ Shelved.remove_list "bob" "l1"
    ∷ []

abbrev empty_shelf : Shelf
empty_shelf = record { lists = []; items = [] }

run-IsShelved_example : IsShelved (Shelved.run (λ t. none) shelf_calls empty_shelf)
run-IsShelved_example =
    run-IsShelved (λ t. none) shelf_calls empty_shelf
      (record { once = λ list title. omega arith; known = tt })
