-- ===== src/Auth/RateLimit.antt =====
-- services/api/rate_limiter.py: the limiter over Valkey and its fallback in the memory of the process.
-- Clock readings and windows are in whole ticks. The counter in Valkey, which the Lua script of the module
-- increments, is a parameter.
pub mod Window
use cine_vault.Prelude.{
  ℕ, ◌+◌, ◌*◌, String, Bool, true, false, List, [], ◌∷◌, ◌++◌, Option, none, some, ltb, leb, length,
  filter, Result, ok, err, pair_eq, string_eq, ◌==◌, if◌then◌else◌,
}
use cine_vault.Prelude.Dict.{Dict, lookup, insert}

-- `RateLimitExceededError`, with the scope, the limit and the window of its text.
pub data RateLimitError : Type 0 where
  rate_limit_exceeded : String → ℕ → ℕ → RateLimitError

-- `InMemoryRateLimiter.requests`: the times of the admitted requests, by client and scope.
abbrev pub Requests : Type 0
Requests = Dict (String × String) (List ℕ)

-- `request.client.host if request.client else "127.0.0.1"`
abbrev pub client_ip : Option String → String
client_ip none = "127.0.0.1"
client_ip (some host) = host

abbrev pub timestamps_of : String × String → Requests → List ℕ
timestamps_of key requests = elim (lookup key requests) [ none ↦ [] | some ts ↦ ts ]

-- `now - ts < window_sec`, without a subtraction.
abbrev pub is_live : ℕ → ℕ → ℕ → Bool
is_live window_sec now ts = ltb now (ts + window_sec)

unfoldable pub check_in_memory :
    String × String → ℕ → ℕ → ℕ → Requests → Result RateLimitError (Unit {0}) × Requests
check_in_memory key limit window_sec now requests =
    let timestamps = filter (is_live window_sec now) (timestamps_of key requests) in
    if leb limit (length timestamps)
    then (err (rate_limit_exceeded key.1 limit window_sec), requests)
    else (ok tt, insert key (timestamps ++ now ∷ []) requests)

-- Valkey as the limiter sees it. `eval key window now` runs the script `_INCR_WITH_EXPIRY_SCRIPT`: it
-- returns the counter after the increment, or `none` where the client raises.
pub record Valkey : Type 1 where
  pub Store : Type 0
  pub is_reachable : Store → ℕ → Bool
  pub eval : String × String → ℕ → ℕ → Store → Option ℕ × Store

module _ (v : Valkey) where
  open v use {Store, is_reachable, eval}

  pub record Limiter : Type 0 where
    pub store : Store
    pub requests : Requests

  -- `ValkeyRateLimiter.check_rate_limit`; the key of the counter is made of the scope and the client.
  unfoldable pub check_rate_limit :
      Option String → String → ℕ → ℕ → ℕ → Limiter → Result RateLimitError (Unit {0}) × Limiter
  unfolding check_in_memory
  check_rate_limit client scope limit window_sec now l =
      let key : String × String = (client_ip client, scope) in
      let (r, requests') = check_in_memory key limit window_sec now l.requests in
      let (count, store') = eval key window_sec now l.store in
      if is_reachable l.store now
      then (elim count [
        | none ↦ (r, record { store = store'; requests = requests' })
        | some current ↦ (
          if ltb limit current then err (rate_limit_exceeded scope limit window_sec) else ok tt,
          record { store = store'; requests = l.requests },
        )
      ])
      else (r, record { store = l.store; requests = requests' })

-- The scopes and their limits in the configuration; `limits.get(scope, 600)`.
pub record RateLimits : Type 0 where
  pub public_read : ℕ
  pub search : ℕ
  pub sync : ℕ
  pub personal_write : ℕ
  pub internal_admin : ℕ

abbrev pub limit_of : RateLimits → String → ℕ
limit_of c scope =
    if scope == "PUBLIC_READ"
    then c.public_read
    else if scope == "SEARCH"
    then c.search
    else if scope == "SYNC"
    then c.sync
    else if scope == "PERSONAL_WRITE"
    then c.personal_write
    else if scope == "INTERNAL_ADMIN"
    then c.internal_admin
    else 600

abbrev pub is_exempt : String → Bool
is_exempt environment = if environment == "local_development" then true else environment == "test"

module _ (v : Valkey) where
  -- The dependency that `enforce_rate_limit` makes; its window is 60 seconds.
  unfoldable pub enforce_rate_limit :
      RateLimits
      → String
      → ℕ
      → String
      → Option String
      → ℕ
      → Limiter v
      → Result RateLimitError (Unit {0}) × Limiter v
  unfolding check_rate_limit
  enforce_rate_limit c environment ticks_per_sec scope client now l =
      let checked = check_rate_limit v client scope (limit_of c scope) (60 * ticks_per_sec) now l in
      if is_exempt environment then (ok tt, l) else checked
