-- ===== src/Jobs/Report.antt =====
-- services/api/jobs.py: the queries `get_status_summary` and `get_dead_letter_jobs`, and
-- `retry_delay_seconds`.
use cine_vault.Prelude.{
  ℕ, ◌+◌, ◌^◌, ◌≤◌, ◌<◌, String, ◌≡◌, List, [], ◌∷◌, Option, none, some, arith, leb, length, last_n,
  length-last_n-le, string_eq, if◌then◌else◌, min,
}
use native.Mathlib.Nat.{pow-le-pow_right}
use cine_vault.Prelude.Dict.{Dict, lookup, values}
use cine_vault.Prelude.Json.{Fields}
use cine_vault.Jobs.Envelope.{
  JobType, JobStatus, pending, running, succeeded, failed, dead_letter, cancelled, JobEnvelope,
  Message,
}
use cine_vault.Jobs.{JobRegistry}

-- `status_counts`, with a field for each status.
pub record StatusCounts : Type 0 where
  pub pending : ℕ
  pub running : ℕ
  pub succeeded : ℕ
  pub failed : ℕ
  pub dead_letter : ℕ
  pub cancelled : ℕ

abbrev no_counts : StatusCounts
no_counts = record {
  pending = 0;
  running = 0;
  succeeded = 0;
  failed = 0;
  dead_letter = 0;
  cancelled = 0;
}

abbrev count_status : StatusCounts → JobStatus → StatusCounts
count_status c pending = record c { pending = c.pending + 1 }
count_status c running = record c { running = c.running + 1 }
count_status c succeeded = record c { succeeded = c.succeeded + 1 }
count_status c failed = record c { failed = c.failed + 1 }
count_status c dead_letter = record c { dead_letter = c.dead_letter + 1 }
count_status c cancelled = record c { cancelled = c.cancelled + 1 }

count_statuses : StatusCounts → List JobEnvelope → StatusCounts
count_statuses c [] = c
count_statuses c (job ∷ jobs) = count_statuses (count_status c job.status) jobs

pub record Summary : Type 0 where
  pub total_jobs : ℕ
  pub dead_letter_count : ℕ
  pub pending_by_type : JobType → ℕ
  pub status_counts : StatusCounts

pub get_status_summary : JobRegistry → Summary
unfolding count_statuses
get_status_summary r = record {
  total_jobs = length r.jobs;
  dead_letter_count = length r.dead_letters;
  pending_by_type = λ t. length (r.pending_by_type t);
  status_counts = count_statuses no_counts (values r.jobs);
}

abbrev pub total : StatusCounts → ℕ
total c = c.pending + c.running + c.succeeded + c.failed + c.dead_letter + c.cancelled

total-count_status : (c : StatusCounts) (s : JobStatus) → total (count_status c s) ≡ total c + 1
total-count_status c pending = omega arith
total-count_status c _ = omega arith

total-count_statuses :
    (c : StatusCounts) (d : Dict String JobEnvelope)
    → total (count_statuses c (values d)) ≡ total c + length d
unfolding count_statuses
total-count_statuses c [] = omega arith
total-count_statuses c ((k, job) ∷ d) =
    omega
      (arith, total-count_statuses (count_status c job.status) d, total-count_status c job.status)

-- The counts by status add up to the number of jobs.
pub status_counts-total :
    (r : JobRegistry)
    → total (get_status_summary r).status_counts ≡ (get_status_summary r).total_jobs
unfolding get_status_summary
status_counts-total r = omega (arith, total-count_statuses no_counts r.jobs)

-- `to_dict`: every field but the payload.
pub record JobView : Type 0 where
  pub job_id : String
  pub job_type : JobType
  pub idempotency_key : String
  pub correlation_id : String
  pub submitted_at : ℕ
  pub status : JobStatus
  pub attempt_count : ℕ
  pub max_attempts : ℕ
  pub started_at : Option ℕ
  pub completed_at : Option ℕ
  pub error : Option Message
  pub result : Option Fields
  pub dead_letter_reason : Option Message

unfoldable pub to_dict : JobEnvelope → JobView
to_dict job = record {
  job_id = job.job_id;
  job_type = job.job_type;
  idempotency_key = job.idempotency_key;
  correlation_id = job.correlation_id;
  submitted_at = job.submitted_at;
  status = job.status;
  attempt_count = job.attempt_count;
  max_attempts = job.max_attempts;
  started_at = job.started_at;
  completed_at = job.completed_at;
  error = job.error;
  result = job.result;
  dead_letter_reason = job.dead_letter_reason;
}

views : List String → Dict String JobEnvelope → List JobView
unfolding to_dict
views [] jobs = []
views (id ∷ ids) jobs =
    let rest = views ids jobs in
    elim (lookup id jobs) [ none ↦ rest | some job ↦ to_dict job ∷ rest ]

pub get_dead_letter_jobs : ℕ → JobRegistry → List JobView
unfolding views
get_dead_letter_jobs limit r = views (last_n limit r.dead_letters) r.jobs

-- `min(base ** attempt, cap)` at the default base 2 and a whole `cap`. Python's `2.0 ** attempt` is exact up
-- to 2 ^ 1023 and raises `OverflowError` from `attempt = 1024` on, before `min` is taken: `none`.
unfoldable pub retry_delay_seconds : ℕ → ℕ → Option ℕ
retry_delay_seconds attempt cap = if leb 1024 attempt then none else some (min (2 ^ attempt) cap)

length-views-le :
    (ids : List String) (jobs : Dict String JobEnvelope) → length (views ids jobs) ≤ length ids
unfolding views
length-views-le [] jobs = omega arith
length-views-le (id ∷ ids) jobs = ground (arith, length-views-le ids jobs)

-- A positive limit bounds the list of dead letters.
pub length-get_dead_letter_jobs :
    (limit : ℕ) (r : JobRegistry) → 0 < limit → length (get_dead_letter_jobs limit r) ≤ limit
unfolding get_dead_letter_jobs
length-get_dead_letter_jobs limit r h = omega (
  arith,
  length-views-le (last_n limit r.dead_letters) r.jobs,
  length-last_n-le limit r.dead_letters,
)

-- Below 1024 attempts the delay is defined, at most the cap, and does not fall from one attempt to a later one.
pub retry_delay_seconds_mono :
    (a b cap : ℕ)
    → a ≤ b
    → b < 1024
    → (x y : ℕ) × (retry_delay_seconds a cap ≡ some x)
      × (retry_delay_seconds b cap ≡ some y)
      × (x ≤ y)
      × (y ≤ cap)
unfolding retry_delay_seconds
retry_delay_seconds_mono a b cap h k = (
  min (2 ^ a) cap,
  min (2 ^ b) cap,
  ground arith,
  ground arith,
  omega (arith, pow-le-pow_right {n = 2} (omega arith) h),
  omega arith,
)
