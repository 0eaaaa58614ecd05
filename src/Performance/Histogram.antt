-- ===== src/Performance/Histogram.antt =====
-- services/api/performance.py: `LatencyHistogram`. Durations are in whole microseconds; Python's rounding to a
-- number of decimals is a parameter. The lock makes each method one step.
pub mod Float
pub mod Window
pub mod NearestRank
use cine_vault.Prelude.{
  ℕ, zero, suc, ◌+◌, ◌-◌, ◌*◌, ◌/◌, String, List, [], ◌∷◌, ◌++◌, map, none, some, leb, length, drop,
  max, min, string_eq, if◌then◌else◌,
}
use Float.{rank_of_float}
use mathlib.Core.Option
use mathlib.Core.Option.{Option}
use cine_vault.Prelude.Dict.{Dict, lookup, insert}

abbrev pub max_samples : ℕ
max_samples = 10000

-- `_samples`; an operation that is missing has no sample.
abbrev pub Samples : Type 0
Samples = Dict String (List ℕ)

abbrev pub samples_of : String → Samples → List ℕ
samples_of operation h = elim (lookup operation h) [ none ↦ [] | some samples ↦ samples ]

-- Append to a list that holds at most `bound` samples, and evict the oldest of a full one.
abbrev pub push : ℕ → ℕ → List ℕ → List ℕ
push bound duration samples =
    (if leb bound (length samples) then drop 1 samples else samples) ++ duration ∷ []

unfoldable pub record_sample : String → ℕ → Samples → Samples
record_sample operation duration h =
    insert operation (push max_samples duration (samples_of operation h)) h

-- `sorted`, on numbers.
abbrev pub insert_sorted : ℕ → List ℕ → List ℕ
insert_sorted x [] = x ∷ []
insert_sorted x (y ∷ ys) = if leb x y then x ∷ y ∷ ys else y ∷ insert_sorted x ys

abbrev pub sorted : List ℕ → List ℕ
sorted [] = []
sorted (x ∷ xs) = insert_sorted x (sorted xs)

abbrev pub elem_at : List ℕ → ℕ → Option ℕ
elem_at [] i = none
elem_at (y ∷ ys) zero = some y
elem_at (y ∷ ys) (suc i) = elem_at ys i

-- `min` and `max` of a list, which raise on an empty one.
abbrev pub least : List ℕ → Option ℕ
least [] = none
least (x ∷ xs) = elim (least xs) [ none ↦ some x | some y ↦ some (min x y) ]

abbrev pub greatest : List ℕ → Option ℕ
greatest [] = none
greatest (x ∷ xs) = elim (greatest xs) [ none ↦ some x | some y ↦ some (max x y) ]

-- `math.ceil((p / 100.0) * n) - 1` on doubles, clamped to the indices.
abbrev pub index_of : ℕ → ℕ → ℕ
index_of p n = min (rank_of_float p n - 1) (n - 1)

-- `round duration decimals` is Python's.
module _ (round : ℕ → ℕ → ℕ) where
  -- `_p`, on a sorted list.
  abbrev pub percentile_of : List ℕ → ℕ → Option ℕ
  percentile_of samples p =
      Option.map (λ v. round v 3) (elem_at samples (index_of p (length samples)))

  unfoldable pub percentile : String → ℕ → Samples → Option ℕ
  percentile operation p h = percentile_of (sorted (samples_of operation h)) p

  pub record LatencySummary : Type 0 where
    pub operation : String
    pub count : ℕ
    pub min_ms : Option ℕ
    pub max_ms : Option ℕ
    pub p50_ms : Option ℕ
    pub p95_ms : Option ℕ
    pub p99_ms : Option ℕ

  -- With no sample the fields but the first two are missing.
  unfoldable pub summary : String → Samples → LatencySummary
  summary operation h =
      let samples = sorted (samples_of operation h) in
      record {
        operation = operation;
        count = length samples;
        min_ms = Option.map (λ v. round v 3) (least samples);
        max_ms = Option.map (λ v. round v 3) (greatest samples);
        p50_ms = percentile_of samples 50;
        p95_ms = percentile_of samples 95;
        p99_ms = percentile_of samples 99;
      }

  unfoldable pub all_summaries : Samples → List LatencySummary
  unfolding summary
  all_summaries h = map (λ entry. summary entry.0 h) h
