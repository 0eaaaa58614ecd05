-- ===== src/Sync/Push.antt =====
-- services/api/repositories/sync.py, `process_push_mutations`. The methods of the personal repository are an
-- interface.
use Prim.Native.String.{◌++◌ as str_append}
use cine_vault.Prelude.{
  ℕ, String, true, false, not, ◌||◌, List, [], ◌∷◌, none, some, length, contains, Result, ok, err,
  string_eq, ◌==◌, if◌then◌else◌, suc,
}
use cine_vault.Prelude.Dict.{Dict, lookup}
use cine_vault.Prelude.Json.{Json}
use cine_vault.Sync.Stores.{
  MutationItem, SyncError, Stores, Server, Done, Context, check_and_set_idempotency, check_database,
  stage_outbox, idempotency_ttl,
}

-- The bodies of the calls, with fields as the client sent them: the schemas' validation, which may raise, is
-- a part of the method that is called.
pub record WatchEventCreate : Type 0 where
  pub title_id : Json
  pub edition_id : Json
  pub watched_at : Json
  pub progress_percentage : Json

pub record RatingCreate : Type 0 where
  pub title_id : Json
  pub rating_value : Json

pub record UserTitleStateUpdate : Type 0 where
  pub manual_status_override : Json
  pub is_favorite : Json
  pub preferred_edition_id : Json

pub record NoteCreate : Type 0 where
  pub title_id : Json
  pub note_text : Json

pub record ReviewCreate : Type 0 where
  pub title_id : Json
  pub review_title : Json
  pub review_text : Json
  pub contains_spoilers : Json

-- The methods that a push calls. One that fails may have changed its stores, or have rolled them back.
pub record PersonalRepository (S W : Type 0) : Type 0 where
  pub create_watch_event : String → WatchEventCreate → String → Stores S W → Done × Stores S W
  pub set_rating : String → RatingCreate → Stores S W → Done × Stores S W
  pub update_user_title_state :
      String → Json → UserTitleStateUpdate → Stores S W → Done × Stores S W
  pub create_note : String → NoteCreate → Stores S W → Done × Stores S W
  pub create_review : String → ReviewCreate → Stores S W → Done × Stores S W

abbrev pub valkey_key : String → String → String
valkey_key user mid = str_append "mutation:" (str_append user (str_append ":" mid))

-- `payload.get(k, default)`
abbrev pub get_or : Dict String Json → String → Json → Json
get_or payload k fallback = elim (lookup k payload) [ none ↦ fallback | some v ↦ v ]

abbrev pub default_title : Json
default_title = Json.str "018f4a00-0000-7000-8000-000000000001"

abbrev pub title_of : Dict String Json → Json
title_of payload = get_or payload "title_id" default_title

-- What becomes of a mutation: `raised` leaves the loop.
pub data Outcome : Type 0 where
  acknowledged : Outcome
  failed raised : SyncError → Outcome

module _ {S W : Type 0} where
  -- The call for the type of the mutation. Nothing is called for a type that is not listed.
  unfoldable pub dispatch :
      Context → PersonalRepository S W → String → MutationItem → Stores S W → Done × Stores S W
  dispatch c repo user item st =
      let get = get_or item.payload in
      let title = title_of item.payload in
      if item.mutation_type == "CREATE_WATCH_EVENT"
      then repo.create_watch_event user
          (record {
            title_id = title;
            edition_id = get "edition_id" Json.null;
            watched_at = get "watched_at" (Json.str c.now_text);
            progress_percentage = get "progress_percentage" (Json.num 100);
          })
          item.mutation_id st
      else if item.mutation_type == "SET_RATING"
      then repo.set_rating user
          (record { title_id = title; rating_value = get "rating_value" (Json.num 8) }) st
      else if item.mutation_type == "UPDATE_TITLE_STATE"
      then repo.update_user_title_state user title
          (record {
            manual_status_override = get "manual_status_override" Json.null;
            is_favorite = get "is_favorite" (Json.bool false);
            preferred_edition_id = get "preferred_edition_id" Json.null;
          })
          st
      else if item.mutation_type == "CREATE_NOTE"
      then repo.create_note user
          (record {
            title_id = title;
            note_text = get "note_text" (Json.str "Offline synchronized personal note");
          })
          st
      else if item.mutation_type == "CREATE_REVIEW"
      then repo.create_review user
          (record {
            title_id = title;
            review_title = get "review_title" Json.null;
            review_text = get "review_text" (Json.str "Offline synchronized review");
            contains_spoilers = get "contains_spoilers" (Json.bool false);
          })
          st
      else (ok tt, st)

  -- A mutation that is not a duplicate.
  unfoldable pub execute_item :
      Context → PersonalRepository S W → String → MutationItem → Server S W → Outcome × Server S W
  execute_item c repo user item s =
      let (done, st) = dispatch c repo user item s.stores in
      elim done [
        | err e ↦ (failed e, record s { stores = st })
        | ok _ ↦
            (let (staged, st') = stage_outbox c user item st in
              let s' : Server S W = record s {
                processed = item.mutation_id ∷ s.processed;
                stores = st';
              } in
              elim staged [ err e ↦ (failed e, s') | ok _ ↦ (acknowledged, s') ])
      ]

  unfoldable pub process_item :
      Context
      → PersonalRepository S W
      → String
      → ℕ
      → MutationItem
      → Server S W
      → Outcome × Server S W
  process_item c repo user now item s =
      let (is_new, valkey) =
        check_and_set_idempotency now (valkey_key user item.mutation_id) idempotency_ttl s.valkey in
      let s' : Server S W = record s { valkey = valkey } in
      if not is_new || contains item.mutation_id s.processed
      then (acknowledged, s')
      else (let (found, st) = check_database c user item.mutation_id s.stores in
          let s'' : Server S W = record s' { stores = st } in
          elim found [
            | err e ↦ (raised e, s'')
            | ok true ↦ (acknowledged, s'')
            | ok false ↦ execute_item c repo user item s''
          ])

-- The two lists of an answer, and the count of the first.
pub record SyncPushResponse : Type 0 where
  pub processed_count : ℕ
  pub acknowledged_mutation_ids : List String
  pub failed_mutations : List (String × SyncError)

abbrev pub response : List String → List (String × SyncError) → SyncPushResponse
response acknowledged_ids failed_mutations = record {
  processed_count = length acknowledged_ids;
  acknowledged_mutation_ids = acknowledged_ids;
  failed_mutations = failed_mutations;
}

-- `acknowledged_ids.append(mid)` and `failed_mutations.append(…)`, before those of the rest.
abbrev pub acknowledge : String → SyncPushResponse → SyncPushResponse
acknowledge mid r = response (mid ∷ r.acknowledged_mutation_ids) r.failed_mutations

abbrev pub fail : String → SyncError → SyncPushResponse → SyncPushResponse
fail mid e r = response r.acknowledged_mutation_ids ((mid, e) ∷ r.failed_mutations)

abbrev pub answered :
    (SyncPushResponse → SyncPushResponse)
    → Result SyncError SyncPushResponse
    → Result SyncError SyncPushResponse
answered f (ok r) = ok (f r)
answered f (err e) = err e

module _ {S W : Type 0} where
  -- `times n` is the time at which Valkey is asked about the mutation of index n.
  unfoldable pub process_push_mutations :
      Context
      → PersonalRepository S W
      → String
      → (ℕ → ℕ)
      → List MutationItem
      → Server S W
      → Result SyncError SyncPushResponse × Server S W
  process_push_mutations c repo user times [] s = (ok (response [] []), s)
  process_push_mutations c repo user times (item ∷ items) s =
      let (outcome, s') = process_item c repo user (times 0) item s in
      let times' : ℕ → ℕ = λ n. times (suc n) in
      elim outcome [
        | acknowledged ↦
            (let (rest, s'') = process_push_mutations c repo user times' items s' in
              (answered (acknowledge item.mutation_id) rest, s''))
        | failed e ↦
            (let (rest, s'') = process_push_mutations c repo user times' items s' in
              (answered (fail item.mutation_id e) rest, s''))
        | raised e ↦ (err e, s')
      ]
