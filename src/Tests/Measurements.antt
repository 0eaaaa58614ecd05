-- ===== src/Tests/Measurements.antt =====
-- services/api/performance.py on a few measured calls and a cache in a dictionary.
use cine_vault.Prelude.{
  ℕ, ◌*◌, ◌≤◌, ◌<◌, String, true, false, ◌≡◌, refl, List, [], ◌∷◌, some, arith, ltb, leb, length,
  ok, contains, string_eq, nat_eq,
}
use cine_vault.Prelude.Dict.{Dict, lookup, insert}
use cine_vault.Performance.Histogram.Float.{rank_of_float}
use cine_vault.Performance.Histogram.{Samples, samples_of, percentile}
use cine_vault.Performance.Histogram.NearestRank.{count, percentile_nearest_rank}
use cine_vault.Performance.Histogram.Window.{record_all, samples_are_newest}
use cine_vault.Performance.CacheAside.{
  cache_key, Manager, Codec, Fetch, CacheState, get_or_fetch, lookups_of,
}
use cine_vault.Performance.CacheAside.Accounting.{lookups_counted, fetched_then_cached}
use cine_vault.Performance.SlowQuery.{
  Measured, SlowLog, run_all, get_slow_event_count, get_recent_slow_events, slow_events_exact,
}
use cine_vault.Performance.Budget.{enforce}

abbrev no_rounding : ℕ → ℕ → ℕ
no_rounding duration decimals = duration

abbrev searches : Samples
searches = ("catalog_search", 40 ∷ 10 ∷ 30 ∷ 20 ∷ []) ∷ []

median_is_20 : percentile no_rounding "catalog_search" 50 searches ≡ some 20
unfolding percentile rank_of_float
median_is_20 = refl

percentile_nearest_rank_example :
    (v : ℕ) × (percentile no_rounding "catalog_search" 50 searches ≡ some v)
    × (contains v (40 ∷ 10 ∷ 30 ∷ 20 ∷ []) ≡ true)
    × (100 * count (λ y. ltb y v) (40 ∷ 10 ∷ 30 ∷ 20 ∷ []) < 200)
    × (200 ≤ 100 * count (λ y. leb y v) (40 ∷ 10 ∷ 30 ∷ 20 ∷ []))
percentile_nearest_rank_example =
    percentile_nearest_rank no_rounding "catalog_search" 50 searches refl (omega arith)
      (omega arith)

-- With 100 samples the 7th percentile is one rank too high.
seventh_is_eighth : rank_of_float 7 100 ≡ 8
unfolding rank_of_float
seventh_is_eighth = refl

abbrev calls : List (String × ℕ)
calls = ("db_write", 5) ∷ ("title_list", 9) ∷ ("db_write", 7) ∷ []

samples_are_newest_example : samples_of "db_write" (record_all calls []) ≡ 5 ∷ 7 ∷ []
samples_are_newest_example = samples_are_newest "db_write" calls

abbrev in_memory : Manager
in_memory = record {
  Store = Dict String String;
  get = λ key store now. lookup key store;
  set = λ key text ttl store now. insert key text store;
}

abbrev verbatim : Codec String
verbatim = record { serialize = λ s. some s; deserialize = λ s. some s }

abbrev fetch : Fetch String String
fetch = record { read_at = 1; written_at = 2; fetched = ok "found"; elapsed = 30 }

abbrev empty_cache : CacheState in_memory
empty_cache = record { store = []; metrics = record { hits = []; misses = [] }; latencies = [] }

lookups_counted_example :
    lookups_of "titles"
      (get_or_fetch in_memory verbatim "titles" 300 ("7" ∷ []) fetch empty_cache).1.metrics
    ≡ 1
lookups_counted_example =
    lookups_counted in_memory verbatim "titles" 300 ("7" ∷ []) fetch empty_cache

fetched_then_cached_example :
    let (r, s') = get_or_fetch in_memory verbatim "titles" 300 ("7" ∷ []) fetch empty_cache in
    (r ≡ ok ("found", false))
    × ((get_or_fetch in_memory verbatim "titles" 300 ("7" ∷ []) fetch s').0 ≡ ok ("found", true))
unfolding cache_key
fetched_then_cached_example =
    fetched_then_cached in_memory verbatim "titles" 300 ("7" ∷ []) fetch fetch empty_cache "found"
      "found" refl refl refl refl refl

abbrev measured : List Measured
measured =
    record { operation = "db_write"; duration = 100001; ended_at = 3 }
    ∷ record { operation = "db_write"; duration = 100000; ended_at = 4 }
    ∷ []

slow_events_exact_example :
    let m = run_all no_rounding measured (record { latencies = []; slow_events = [] }) in
    SlowLog no_rounding measured m.slow_events
    × (get_slow_event_count m ≡ length m.slow_events)
    × (length (get_recent_slow_events 20 m) ≤ 20)
slow_events_exact_example = slow_events_exact no_rounding measured 20 (omega arith)

within_budget : enforce 1000 3 true ≡ ok 6000
unfolding enforce
within_budget = refl
