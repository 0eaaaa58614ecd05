-- ===== src/Performance/CacheAside.antt =====
-- services/api/performance.py: `CacheAsideMetrics` and `CacheAside`. The Valkey manager and the serializer
-- are parameters, and so is the rounded quotient of two counts. Durations are in whole microseconds.
pub mod Accounting
use Prim.Native.String.{◌++◌ as str_append}
use cine_vault.Prelude.{
  ℕ, ◌+◌, String, Bool, true, false, List, [], ◌∷◌, Option, none, some, Result, ok, err, string_eq,
  nat_eq, ◌==◌, if◌then◌else◌,
}
use cine_vault.Prelude.Dict.{Dict, lookup, insert}
use cine_vault.Performance.Histogram.{Samples, record_sample}

-- A `defaultdict(int)` as it is read.
abbrev pub count_of : String → Dict String ℕ → ℕ
count_of namespace d = elim (lookup namespace d) [ none ↦ 0 | some n ↦ n ]

abbrev pub bump : String → Dict String ℕ → Dict String ℕ
bump namespace d = insert namespace (count_of namespace d + 1) d

pub record CacheMetrics : Type 0 where
  pub hits : Dict String ℕ
  pub misses : Dict String ℕ

abbrev pub record_hit : String → CacheMetrics → CacheMetrics
record_hit namespace m = record m { hits = bump namespace m.hits }

abbrev pub record_miss : String → CacheMetrics → CacheMetrics
record_miss namespace m = record m { misses = bump namespace m.misses }

abbrev pub lookups_of : String → CacheMetrics → ℕ
lookups_of namespace m = count_of namespace m.hits + count_of namespace m.misses

-- `quotient hits total` is `round(hits / total, 4)`.
unfoldable pub hit_ratio : (ℕ → ℕ → ℕ) → String → CacheMetrics → Option ℕ
hit_ratio quotient namespace m =
    let total = lookups_of namespace m in
    if total == 0 then none else some (quotient (count_of namespace m.hits) total)

-- `":".join(parts)`
abbrev pub join_parts : List String → String
join_parts [] = ""
join_parts (part ∷ []) = part
join_parts (part ∷ next ∷ parts) = str_append part (str_append ":" (join_parts (next ∷ parts)))

unfoldable pub cache_key : String → List String → String
cache_key namespace parts = str_append namespace (str_append ":" (join_parts parts))

-- The manager as the wrapper sees it: `get` has no answer for a missing or expired key and where Valkey
-- cannot be reached, and `set` raises nothing.
pub record Manager : Type 1 where
  pub Store : Type 0
  pub get : String → Store → ℕ → Option String
  pub set : String → String → ℕ → Store → ℕ → Store

-- `None` where a function raises.
pub record Codec (V : Type 0) : Type 0 where
  pub serialize : V → Option String
  pub deserialize : String → Option V

-- What a call meets: the clock at its reading and at its writing, what `fetch_fn` would return or raise,
-- and how long that takes.
pub record Fetch (E V : Type 0) : Type 0 where
  pub read_at : ℕ
  pub written_at : ℕ
  pub fetched : Result E V
  pub elapsed : ℕ

pub record CacheState (manager : Manager) : Type 0 where
  pub store : manager.Store
  pub metrics : CacheMetrics
  pub latencies : Samples

module _ (manager : Manager) {E V : Type 0} (codec : Codec V) (namespace : String) (ttl : ℕ) where
  open manager use {get, set}

  -- The part of `get_or_fetch` behind the reading of the cache.
  unfoldable pub fetch_and_store :
      String → Fetch E V → CacheState manager → Result E (V × Bool) × CacheState manager
  fetch_and_store key f s =
      let missed = record s { metrics = record_miss namespace s.metrics } in
      let timed = record missed {
        latencies = record_sample (str_append "cache_miss_fetch:" namespace) f.elapsed s.latencies;
      } in
      elim f.fetched [
        | err e ↦ (err e, missed)
        | ok v ↦ (
          ok (v, false),
          elim (codec.serialize v) [
            | none ↦ timed
            | some text ↦ record timed { store = set key text ttl s.store f.written_at }
          ],
        )
      ]

  -- A hit is recorded as one of a tenth of a millisecond.
  unfoldable pub get_or_fetch :
      List String → Fetch E V → CacheState manager → Result E (V × Bool) × CacheState manager
  unfolding fetch_and_store
  get_or_fetch key_parts f s =
      let key = cache_key namespace key_parts in
      let hit = record s {
        metrics = record_hit namespace s.metrics;
        latencies = record_sample (str_append "cache_hit:" namespace) 100 s.latencies;
      } in
      elim (get key s.store f.read_at) [
        | none ↦ fetch_and_store key f s
        | some cached ↦ elim (codec.deserialize cached) [
          | some v ↦ (ok (v, true), hit)
          | none ↦ fetch_and_store key f hit
        ]
      ]
