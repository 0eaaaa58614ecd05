-- ===== src/Jobs.antt =====
-- services/api/jobs.py: `JobRegistry`, method by method. A method takes the registry and returns
-- its result, or what it raises, beside the new registry. The lock makes each call atomic, so a
-- history of the registry is a sequence of such calls. Clock readings and the texts that `uuid4`
-- makes are arguments; times and thresholds are counted in whole ticks. A job that a method returns is
-- the job as it stands after the call.
pub mod Envelope
pub mod Invariant
pub mod Preservation
pub mod History
pub mod Retry
pub mod Admission
pub mod Recovery
pub mod Report
use cine_vault.Prelude.{
  ℕ, suc, ◌+◌, ◌-◌, String, Bool, true, false, ◌&&◌, List, [], ◌∷◌, ◌++◌, Option, none, some, ltb,
  leb, length, last_n, contains, erase, Result, ok, err, or_text, string_eq, ◌==◌, if◌then◌else◌,
}
use cine_vault.Prelude.Dict.{Dict, lookup, insert, values}
use cine_vault.Prelude.Json.{Fields, end}
use Envelope.{
  JobType, JobStatus, pending, running, succeeded, failed, dead_letter, cancelled,
  backpressure_limit, max_retries, Message, text, exhausted, stuck, JobEnvelope, JobError,
  backpressure, unknown_key, cannot_cancel, Signal, job_backpressure_reject, job_submitted,
  job_succeeded, job_dead_letter, job_failed, job_type_eq,
}

pub record JobRegistry : Type 0 where
  pub jobs : Dict String JobEnvelope
  pub idempotency_index : Dict String String
  pub pending_by_type : JobType → List String
  pub dead_letters : List String
  pub signals : List Signal

unfoldable pub init : JobRegistry
init = record {
  jobs = [];
  idempotency_index = [];
  pending_by_type = λ t. [];
  dead_letters = [];
  signals = [];
}

-- The arguments of `submit`, where an override is not negative, and what it draws from `uuid4` and the clock.
pub record Submission : Type 0 where
  pub job_type : JobType
  pub payload : Fields
  pub idempotency_key : Option String
  pub correlation_id : Option String
  pub max_retries_override : Option ℕ

pub record Fresh : Type 0 where
  pub job_id : String
  pub idempotency_key : String
  pub correlation_id : String
  pub now : ℕ

abbrev pub emit : Signal → JobRegistry → JobRegistry
emit s r = record r { signals = r.signals ++ s ∷ [] }

abbrev pub set_pending : JobType → List String → JobRegistry → JobRegistry
set_pending t ids r = record r {
  pending_by_type = λ u. if t == u then ids else r.pending_by_type u;
}

abbrev pub store_job : String → JobEnvelope → JobRegistry → JobRegistry
store_job id job r = record r { jobs = insert id job r.jobs }

abbrev pub max_attempts_of : Submission → ℕ
max_attempts_of s = elim s.max_retries_override [
  | none ↦ max_retries s.job_type + 1
  | some n ↦ n + 1
]

abbrev pub new_job : Submission → Fresh → String → JobEnvelope
new_job s f idem_key = record {
  job_id = f.job_id;
  job_type = s.job_type;
  payload = s.payload;
  idempotency_key = idem_key;
  correlation_id = or_text s.correlation_id f.correlation_id;
  submitted_at = f.now;
  status = pending;
  attempt_count = 0;
  max_attempts = max_attempts_of s;
  started_at = none;
  completed_at = none;
  error = none;
  result = none;
  dead_letter_reason = none;
}

-- The part of `submit` behind the idempotency test.
unfoldable pub enqueue :
    Submission → Fresh → String → JobRegistry → Result JobError JobEnvelope × JobRegistry
enqueue s f idem_key r =
    let waiting = r.pending_by_type s.job_type in
    let limit = backpressure_limit s.job_type in
    let job = new_job s f idem_key in
    if leb limit (length waiting)
    then (
      err (backpressure s.job_type (length waiting) limit),
      emit (job_backpressure_reject s.job_type (length waiting) limit) r,
    )
    else (
      ok job,
      emit (job_submitted f.job_id s.job_type job.correlation_id)
          (record (set_pending s.job_type (waiting ++ f.job_id ∷ []) r) {
            jobs = insert f.job_id job r.jobs;
            idempotency_index = insert idem_key f.job_id r.idempotency_index;
          }),
    )

abbrev pub idem_key_of : Submission → Fresh → String
idem_key_of s f = or_text s.idempotency_key f.idempotency_key

unfoldable pub submit : Submission → Fresh → JobRegistry → Result JobError JobEnvelope × JobRegistry
unfolding enqueue
submit s f r = elim (lookup (idem_key_of s f) r.idempotency_index) [
  | some id ↦ elim (lookup id r.jobs) [ none ↦ (err (unknown_key id), r) | some job ↦ (ok job, r) ]
  | none ↦ enqueue s f (idem_key_of s f) r
]

-- `self._jobs[job_id]`, and the rest of the method on the job found there.
abbrev pub with_job :
    String
    → JobRegistry
    → (JobEnvelope → Result JobError JobEnvelope × JobRegistry)
    → Result JobError JobEnvelope × JobRegistry
with_job id r k = elim (lookup id r.jobs) [ none ↦ (err (unknown_key id), r) | some job ↦ k job ]

abbrev pub running_job : ℕ → JobEnvelope → JobEnvelope
running_job now job = record job {
  status = running;
  started_at = some now;
  attempt_count = job.attempt_count + 1;
}

unfoldable pub mark_running : String → ℕ → JobRegistry → Result JobError JobEnvelope × JobRegistry
mark_running id now r =
    with_job id r λ job. let job' = running_job now job in (ok job', store_job id job' r)

unfoldable pub remove_from_pending : JobEnvelope → JobRegistry → JobRegistry
remove_from_pending job r =
    let waiting = r.pending_by_type job.job_type in
    if contains job.job_id waiting then set_pending job.job_type (erase job.job_id waiting) r else r

abbrev or_empty : Option Fields → Fields
or_empty none = end
or_empty (some fs) = fs

abbrev pub succeeded_job : Option Fields → ℕ → JobEnvelope → JobEnvelope
succeeded_job result now job = record job {
  status = succeeded;
  completed_at = some now;
  result = some (or_empty result);
}

unfoldable pub mark_succeeded :
    String → Option Fields → ℕ → JobRegistry → Result JobError JobEnvelope × JobRegistry
unfolding remove_from_pending
mark_succeeded id result now r = with_job id r λ job.
    let job' = succeeded_job result now job in
    (ok job', emit (job_succeeded id job.job_type) (remove_from_pending job' (store_job id job' r)))

unfoldable pub failed_job : String → ℕ → JobEnvelope → JobEnvelope
failed_job error now job =
    let reason = exhausted job.max_attempts error in
    if leb job.max_attempts job.attempt_count
    then record job {
      error = some (text error);
      completed_at = some now;
      status = dead_letter;
      dead_letter_reason = some reason;
    }
    else record job { error = some (text error); completed_at = some now; status = failed }

unfoldable pub mark_failed :
    String → String → ℕ → JobRegistry → Result JobError JobEnvelope × JobRegistry
unfolding remove_from_pending
mark_failed id error now r = with_job id r λ job.
    let job' = failed_job error now job in
    let r' = store_job id job' r in
    if leb job.max_attempts job.attempt_count
    then (
      ok job',
      emit (job_dead_letter id job.job_type (exhausted job.max_attempts error))
          (remove_from_pending job' (record r' { dead_letters = r'.dead_letters ++ id ∷ [] })),
    )
    else (ok job', emit (job_failed id job.job_type job.attempt_count job.max_attempts error) r')

abbrev pub can_cancel : JobStatus → Bool
can_cancel pending = true
can_cancel failed = true
can_cancel _ = false

abbrev pub cancelled_job : JobEnvelope → JobEnvelope
cancelled_job job = record job { status = cancelled }

unfoldable pub cancel : String → JobRegistry → Result JobError JobEnvelope × JobRegistry
unfolding remove_from_pending
cancel id r = with_job id r λ job.
    let job' = cancelled_job job in
    if can_cancel job.status
    then (ok job', remove_from_pending job' (store_job id job' r))
    else (err (cannot_cancel job.status), r)

unfoldable pub get_job : String → JobRegistry → Option JobEnvelope
get_job id r = lookup id r.jobs

-- `job.started_at` is tested for truth, so a start at time 0 does not count.
abbrev pub is_stuck : ℕ → ℕ → JobEnvelope → Bool
is_stuck now threshold job = elim job.status [
  | running ↦ elim job.started_at [ none ↦ false | some t ↦ ltb 0 t && ltb threshold (now - t) ]
  | _ ↦ false
]

abbrev pub recover_job : ℕ → ℕ → JobEnvelope → JobEnvelope
recover_job now threshold job =
    if is_stuck now threshold job
    then (if leb job.max_attempts job.attempt_count
        then record job {
          error = some (stuck threshold);
          status = dead_letter;
          dead_letter_reason = some (stuck threshold);
        }
        else record job { error = some (stuck threshold); status = failed })
    else job

-- The loop of `recover_stuck_jobs`, with the dead letters and the recovered ids so far.
unfoldable pub recover_loop :
    ℕ
    → ℕ
    → Dict String JobEnvelope
    → List String
    → List String
    → Dict String JobEnvelope × List String × List String
recover_loop now threshold [] dead recovered = ([], dead, recovered)
recover_loop now threshold ((k, job) ∷ d) dead recovered =
    let is_dead = is_stuck now threshold job && leb job.max_attempts job.attempt_count in
    let (d', dead', recovered') =
      recover_loop now threshold d (if is_dead then dead ++ job.job_id ∷ [] else dead)
        (if is_stuck now threshold job then recovered ++ job.job_id ∷ [] else recovered) in
    ((k, recover_job now threshold job) ∷ d', dead', recovered')

unfoldable pub recover_stuck_jobs : ℕ → ℕ → JobRegistry → List String × JobRegistry
unfolding recover_loop
recover_stuck_jobs threshold now r =
    let (jobs', dead', recovered) = recover_loop now threshold r.jobs r.dead_letters [] in
    (recovered, record r { jobs = jobs'; dead_letters = dead' })
