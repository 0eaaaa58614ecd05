-- ===== src/Sync/Stores.antt =====
-- services/api/repositories/sync.py: what a push of mutations reads and writes. The stores of the personal
-- repository are of any types; `uuid` stands for Python's `UUID`, with `none` for a text that it refuses. Texts
-- of errors are data.
use Prim.Native.String.{◌++◌ as str_append}
use cine_vault.Prelude.{
  String, Bool, true, false, not, ◌&&◌, ◌||◌, List, [], ◌∷◌, ◌++◌, Option, none, some, Result, ok,
  err, string_eq, ◌==◌, if◌then◌else◌, ℕ, ltb, ◌+◌,
}
use cine_vault.Prelude.Dict.{Dict}
use cine_vault.Prelude.Json.{Json}

pub record MutationItem : Type 0 where
  pub mutation_id : String
  pub mutation_type : String
  pub payload : Dict String Json

pub data SyncError : Type 0 where
  bad_uuid duplicate_key domain_error : String → SyncError
  no_connection : SyncError

-- A row of `sync_outbox_mutation`; its primary key is the mutation's id alone.
pub record OutboxRow : Type 0 where
  pub mutation_id : String
  pub user_id : String
  pub mutation_type : String
  pub payload : Dict String Json
  pub processing_state : String

pub record Tables (W : Type 0) : Type 0 where
  pub world : W
  pub outbox : List OutboxRow

-- A session in its transaction. `answers` is whether the connection does.
pub record Session (W : Type 0) : Type 0 where
  pub committed : Tables W
  pub current : Tables W
  pub answers : Bool

pub record Stores (S W : Type 0) : Type 0 where
  pub seeds : S
  pub session : Option (Session W)

-- `available` is whether a client is there that raises nothing. Each key has the second at which it expires.
pub record Valkey : Type 0 where
  pub available : Bool
  pub keys : List (String × ℕ)

-- `processed` is `PROCESSED_MUTATIONS_CACHE`.
pub record Server (S W : Type 0) : Type 0 where
  pub valkey : Valkey
  pub processed : List String
  pub stores : Stores S W

-- What a call that returns nothing of interest gives.
abbrev pub Done : Type 0
Done = Result {0, 0} SyncError Unit

-- What a request finds: the configuration, the parser of UUIDs, the clock as a text.
pub record Context : Type 0 where
  pub allow_seed_fallback : Bool
  pub uuid : String → Option String
  pub now_text : String

-- Whether the key is there at a time: it was set, and has not expired.
abbrev pub is_set : String → ℕ → List (String × ℕ) → Bool
is_set key now [] = false
is_set key now ((k, expiry) ∷ ks) = (k == key && ltb now expiry) || is_set key now ks

-- The `ttl` of a mutation's key, a day.
abbrev pub idempotency_ttl : ℕ
idempotency_ttl = 86400

-- valkey.py, `check_and_set_idempotency`: whether the key is new, or Valkey cannot say. `now` is the time at
-- Valkey, in seconds.
unfoldable pub check_and_set_idempotency : ℕ → String → ℕ → Valkey → Bool × Valkey
check_and_set_idempotency now key ttl v =
    let full_key = str_append "idempotency:" key in
    if not v.available
    then (true, v)
    else if is_set full_key now v.keys
    then (false, v)
    else (true, record v { keys = (full_key, now + ttl) ∷ v.keys })

abbrev pub any_row : String → String → List OutboxRow → Bool
any_row user mid [] = false
any_row user mid (r ∷ rs) = (r.user_id == user && r.mutation_id == mid) || any_row user mid rs

abbrev pub has_key : String → List OutboxRow → Bool
has_key mid [] = false
has_key mid (r ∷ rs) = r.mutation_id == mid || has_key mid rs

-- The two UUIDs, the mutation's first.
abbrev pub ids_of : Context → String → String → Result SyncError (String × String)
ids_of c user mid = elim (c.uuid mid) [
  | none ↦ err (bad_uuid mid)
  | some m ↦ elim (c.uuid user) [ none ↦ err (bad_uuid user) | some u ↦ ok (m, u) ]
]

-- An error of the database, after the rollback: it is raised again unless seeds may stand in.
abbrev pub recover {ℓ} : {A : Type ℓ} → Context → A → SyncError → Result SyncError A
recover c fallback e = if c.allow_seed_fallback then ok fallback else err e

module _ {W : Type 0} where
  abbrev pub rollback : Session W → Session W
  rollback d = record d { current = d.committed }

  abbrev pub find_outbox : Context → String → String → Session W → Result SyncError Bool
  find_outbox c user mid d = elim (ids_of c user mid) [
    | err e ↦ err e
    | ok (m, u) ↦ if d.answers then ok (any_row u m d.current.outbox) else err no_connection
  ]

  abbrev pub add_row : OutboxRow → Session W → Session W
  add_row row d = record d { current = record d.current { outbox = d.current.outbox ++ row ∷ [] } }

  abbrev pub insert_outbox :
      Context → String → MutationItem → Session W → Result SyncError (Session W)
  insert_outbox c user item d = elim (ids_of c user item.mutation_id) [
    | err e ↦ err e
    | ok (m, u) ↦
        if not d.answers
        then err no_connection
        else if has_key m d.current.outbox
        then err (duplicate_key m)
        else ok (
            add_row
              (record {
                mutation_id = m;
                user_id = u;
                mutation_type = item.mutation_type;
                payload = item.payload;
                processing_state = "PROCESSED";
              })
              d)
  ]

module _ {S W : Type 0} where
  abbrev pub with_session : Session W → Stores S W → Stores S W
  with_session d st = record st { session = some d }

  -- Whether the table knows the mutation.
  unfoldable pub check_database :
      Context → String → String → Stores S W → Result SyncError Bool × Stores S W
  check_database c user mid st = elim st.session [
    | none ↦ (ok false, st)
    | some d ↦ elim (find_outbox c user mid d) [
      | ok found ↦ (ok found, st)
      | err e ↦ (recover c false e, with_session (rollback d) st)
    ]
  ]

  -- The row of a mutation that was executed.
  unfoldable pub stage_outbox : Context → String → MutationItem → Stores S W → Done × Stores S W
  stage_outbox c user item st = elim st.session [
    | none ↦ (ok tt, st)
    | some d ↦ elim (insert_outbox c user item d) [
      | ok d' ↦ (ok tt, with_session d' st)
      | err e ↦ (recover c tt e, with_session (rollback d) st)
    ]
  ]
