-- ===== src/Performance/SlowQuery.antt =====
-- services/api/performance.py: `SlowQueryDetector`, and the decorator `timed` on a function that is not a
-- coroutine. Durations are in whole microseconds; Python's `round` to two decimals of a millisecond is a
-- parameter. The signal of a slow operation carries the fields of its event.
use mathlib.Core.Path.{subst}
use mathlib.Core.List.{append-nil, append_assoc}
use cine_vault.Prelude.{
  false, contains, ◌==◌, ltb→lt, map, sym, ◌∙◌, Bool-cases, inl, inr, ℕ, ◌-◌, ◌≤◌, ◌<◌, String,
  Bool, ◌≡◌, refl, List, [], ◌∷◌, ◌++◌, none, some, arith, ltb, length, last_n, length-last_n-le,
  filter, string_eq, if◌then◌else◌,
}
use cine_vault.Prelude.Dict.{Dict, lookup}
use cine_vault.Performance.Histogram.{Samples, record_sample}

abbrev pub thresholds : Dict String ℕ
thresholds =
    ("catalog_search", 200000)
    ∷ ("title_lookup", 50000)
    ∷ ("title_list", 100000)
    ∷ ("ingestion_batch", 2000000)
    ∷ ("recommendation_query", 300000)
    ∷ ("analytics_query", 500000)
    ∷ ("identity_matching", 150000)
    ∷ ("db_write", 100000)
    ∷ ("default", 500000)
    ∷ []

-- `THRESHOLDS.get(operation, THRESHOLDS["default"])`
abbrev pub threshold_of : String → ℕ
threshold_of operation = elim (lookup operation thresholds) [ none ↦ 500000 | some t ↦ t ]

pub record SlowEvent : Type 0 where
  pub operation : String
  pub duration_ms : ℕ
  pub threshold_ms : ℕ
  pub excess_ms : ℕ
  pub timestamp : ℕ

-- The latencies and the events of the module's two global objects.
pub record Monitor : Type 0 where
  pub latencies : Samples
  pub slow_events : List SlowEvent

abbrev pub is_slow : String → ℕ → Bool
is_slow operation duration = ltb (threshold_of operation) duration

unfoldable pub get_recent_slow_events : ℕ → Monitor → List SlowEvent
get_recent_slow_events limit m = last_n limit m.slow_events

unfoldable pub get_slow_event_count : Monitor → ℕ
get_slow_event_count m = length m.slow_events

-- A measured call, with the clock at its end.
pub record Measured : Type 0 where
  pub operation : String
  pub duration : ℕ
  pub ended_at : ℕ

-- The thresholds in microseconds, as they are documented; any other operation has half a second.
pub data HasThreshold : String → ℕ → Type 0 where
  catalog_search : HasThreshold "catalog_search" 200000
  title_lookup : HasThreshold "title_lookup" 50000
  title_list : HasThreshold "title_list" 100000
  ingestion_batch : HasThreshold "ingestion_batch" 2000000
  recommendation_query : HasThreshold "recommendation_query" 300000
  analytics_query : HasThreshold "analytics_query" 500000
  identity_matching : HasThreshold "identity_matching" 150000
  db_write : HasThreshold "db_write" 100000
  other :
      {operation : String}
      → contains operation (
          "catalog_search" ∷ "title_lookup" ∷ "title_list" ∷ "ingestion_batch"
          ∷ "recommendation_query" ∷ "analytics_query" ∷ "identity_matching" ∷ "db_write" ∷ [])
        ≡ false
      → HasThreshold operation 500000

-- One of the names, or none of them.
named-or :
    (P : String → ℕ → Type 0) (operation name : String)
    → P name (threshold_of name)
    → (name == operation ≡ false → P operation (threshold_of operation))
    → P operation (threshold_of operation)
named-or P operation name named rest = elim (Bool-cases (name == operation)) [
  | inl e ↦ subst (λ o. P o (threshold_of o)) ((string_eq.same_iff name operation).0 e) named
  | inr e ↦ rest e
]

threshold_of-HasThreshold : (operation : String) → HasThreshold operation (threshold_of operation)
threshold_of-HasThreshold op =
    let next = named-or HasThreshold op in
    next "catalog_search" catalog_search (λ a. next "title_lookup" title_lookup (λ b.
      next "title_list" title_list (λ c. next "ingestion_batch" ingestion_batch (λ d.
        next "recommendation_query" recommendation_query (λ e.
          next "analytics_query" analytics_query (λ f.
            next "identity_matching" identity_matching (λ g. next "db_write" db_write (λ h.
              next "default" (other refl) (λ i.
                (let rest : threshold_of op ≡ 500000 =
                    rw (threshold_of, a, b, c, d, e, f, g, h, i) refl in
                  subst (HasThreshold op) (sym rest)
                    (other (rw (a, b, c, d, e, f, g, h) refl))))))))))))

module _ (round : ℕ → ℕ → ℕ) where
  abbrev pub slow_event : Measured → SlowEvent
  slow_event c = record {
    operation = c.operation;
    duration_ms = round c.duration 2;
    threshold_ms = threshold_of c.operation;
    excess_ms = round (c.duration - threshold_of c.operation) 2;
    timestamp = c.ended_at;
  }

  unfoldable pub check : Measured → Monitor → Monitor
  check c m =
      if is_slow c.operation c.duration
      then record m { slow_events = m.slow_events ++ slow_event c ∷ [] }
      else m

  -- What the wrapper of `timed` does when the function has returned or raised.
  unfoldable pub timed : Measured → Monitor → Monitor
  unfolding check
  timed c m = check c (record m { latencies = record_sample c.operation c.duration m.latencies })

  abbrev pub run_all : List Measured → Monitor → Monitor
  run_all [] m = m
  run_all (c ∷ calls) m = run_all calls (timed c m)

  events-run_all :
      (calls : List Measured) (m : Monitor)
      → (run_all calls m).slow_events
        ≡ m.slow_events ++ map slow_event (filter (λ c. is_slow c.operation c.duration) calls)
  unfolding timed
  events-run_all [] m = sym (append-nil m.slow_events)
  events-run_all (c ∷ calls) m = elim (Bool-cases (is_slow c.operation c.duration)) [
    | inl e ↦
        rw e (
          events-run_all calls (timed c m)
          ∙ rw e (append_assoc m.slow_events (slow_event c ∷ []) _))
    | inr e ↦ rw e (events-run_all calls (timed c m) ∙ rw e refl)
  ]

  -- The events that measured calls leave: one for each call that takes longer than its threshold.
  pub data SlowLog : List Measured → List SlowEvent → Type 0 where
    no_calls : SlowLog [] []
    quick :
        {calls : List Measured} {events : List SlowEvent} {t : ℕ} (c : Measured)
        → HasThreshold c.operation t
        → c.duration ≤ t
        → SlowLog calls events
        → SlowLog (c ∷ calls) events
    slow :
        {calls : List Measured} {events : List SlowEvent} {t : ℕ} (c : Measured)
        → HasThreshold c.operation t
        → t < c.duration
        → SlowLog calls events
        → SlowLog (c ∷ calls) (
            record {
              operation = c.operation;
              duration_ms = round c.duration 2;
              threshold_ms = t;
              excess_ms = round (c.duration - t) 2;
              timestamp = c.ended_at;
            }
            ∷ events)

  SlowLog-filter :
      (calls : List Measured)
      → SlowLog calls (map slow_event (filter (λ c. is_slow c.operation c.duration) calls))
  SlowLog-filter [] = no_calls
  SlowLog-filter (c ∷ calls) =
      let named = threshold_of-HasThreshold c.operation in
      elim (Bool-cases (is_slow c.operation c.duration)) [
        | inl e ↦ rw e (slow c named (ltb→lt _ c.duration e) (SlowLog-filter calls))
        | inr e ↦ rw e (quick c named (ground (arith, e)) (SlowLog-filter calls))
      ]

  -- From an empty monitor, each measured call leaves an event exactly if it took longer than the threshold of
  -- its operation, in the order of the calls, with its duration, its threshold and the excess; the count is
  -- the number of events, and a positive limit bounds the list of recent events.
  pub slow_events_exact :
      (calls : List Measured) (limit : ℕ)
      → 0 < limit
      → let m = run_all calls (record { latencies = []; slow_events = [] }) in
        SlowLog calls m.slow_events
        × (get_slow_event_count m ≡ length m.slow_events)
        × (length (get_recent_slow_events limit m) ≤ limit)
  unfolding get_slow_event_count get_recent_slow_events
  slow_events_exact calls limit h =
      let m : Monitor = run_all calls (record { latencies = []; slow_events = [] }) in
      let e = events-run_all calls (record { latencies = []; slow_events = [] }) in
      (
        subst (SlowLog calls) (sym e) (SlowLog-filter calls),
        refl,
        length-last_n-le limit m.slow_events h,
      )
