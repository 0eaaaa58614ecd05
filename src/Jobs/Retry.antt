-- ===== src/Jobs/Retry.antt =====
-- services/api/jobs.py: the life of a job that keeps failing, from `submit` through rounds of
-- `mark_running` and `mark_failed` to the dead letters.
use cine_vault.Prelude.{
  ℕ, suc, ◌+◌, ◌≤◌, String, ◌≡◌, refl, true, false, List, [], ◌∷◌, ◌++◌, none, some, arith, leb,
  length, contains, string_eq, if◌then◌else◌, Bool-cases, inl, inr, ok,
}
use cine_vault.Prelude.Dict.{lookup, lookup-insert_self}
use cine_vault.Jobs.Envelope.{
  JobEnvelope, failed, dead_letter, job_dead_letter, exhausted, job_type_eq, job_type_beq_iff,
}
use cine_vault.Jobs.{
  JobRegistry, Submission, Fresh, submit, idem_key_of, new_job, max_attempts_of, mark_running,
  mark_failed, running_job, failed_job, remove_from_pending, with_job, store_job, emit,
}
use cine_vault.Jobs.Invariant.{IsValid, store_job-IsValid, contains-erase_self, relabel-IsValid}
use cine_vault.Jobs.Preservation.{SameIdentity-failed_job}

-- One round: the worker takes the job up, and reports an error.
pub record Round : Type 0 where
  pub started : ℕ
  pub ended : ℕ
  pub error : String

abbrev pub run_round : String → JobRegistry → Round → JobRegistry
run_round id r t = (mark_failed id t.error t.ended (mark_running id t.started r).1).1

abbrev pub run_rounds : String → List Round → JobRegistry → JobRegistry
run_rounds id [] r = r
run_rounds id (t ∷ ts) r = run_rounds id ts (run_round id r t)

jobs-remove_from_pending :
    (job : JobEnvelope) (r : JobRegistry) → (remove_from_pending job r).jobs ≡ r.jobs
unfolding remove_from_pending
jobs-remove_from_pending job r = ground arith

jobs-mark_running :
    (id : String) (now : ℕ) (r : JobRegistry) (job : JobEnvelope)
    → lookup id r.jobs ≡ some job
    → lookup id (mark_running id now r).1.jobs ≡ some (running_job now job)
unfolding mark_running
jobs-mark_running id now r job e =
    rw (e, with_job) (lookup-insert_self id (running_job now job) r.jobs)

jobs-mark_failed :
    (id error : String) (now : ℕ) (r : JobRegistry) (job : JobEnvelope)
    → lookup id r.jobs ≡ some job
    → lookup id (mark_failed id error now r).1.jobs ≡ some (failed_job error now job)
unfolding mark_failed
jobs-mark_failed id error now r job e = elim (Bool-cases (leb job.max_attempts job.attempt_count)) [
  | inl last ↦
      rw (e, with_job, last)
        (rw jobs-remove_from_pending (lookup-insert_self id (failed_job error now job) r.jobs))
  | inr more ↦ rw (e, with_job, more) (lookup-insert_self id (failed_job error now job) r.jobs)
]

-- What a job that failed in its last round looks like.
pub record HasFailed (before : JobEnvelope) (rounds : ℕ) (job : JobEnvelope) : Type 0 where
  pub counted : job.attempt_count ≡ before.attempt_count + rounds
  pub kept : job.max_attempts ≡ before.max_attempts
  pub judged : job.status ≡ (if leb job.max_attempts job.attempt_count then dead_letter else failed)

round-HasFailed :
    (error : String) (started ended : ℕ) (job : JobEnvelope)
    → HasFailed job 1 (failed_job error ended (running_job started job))
unfolding failed_job
round-HasFailed error started ended job = ground arith

HasFailed-suc :
    (a b c : JobEnvelope) (n : ℕ) → HasFailed a 1 b → HasFailed b n c → HasFailed a (suc n) c
HasFailed-suc a b c n h k = ground arith

run_rounds-HasFailed :
    (id : String) (t : Round) (ts : List Round) (r : JobRegistry) (job : JobEnvelope)
    → lookup id r.jobs ≡ some job
    → (last : JobEnvelope) × (lookup id (run_rounds id (t ∷ ts) r).jobs ≡ some last)
      × HasFailed job (length (t ∷ ts)) last
run_rounds-HasFailed id t [] r job e = (
  failed_job t.error t.ended (running_job t.started job),
  jobs-mark_failed id t.error t.ended _ (running_job t.started job)
      (jobs-mark_running id t.started r job e),
  round-HasFailed t.error t.started t.ended job,
)
run_rounds-HasFailed id t (u ∷ ts) r job e =
    let mid = failed_job t.error t.ended (running_job t.started job) in
    let (last, p, q) = run_rounds-HasFailed id u ts (run_round id r t) mid (
      jobs-mark_failed id t.error t.ended _ (running_job t.started job)
        (jobs-mark_running id t.started r job e)) in
    (
      last,
      p,
      HasFailed-suc job mid last (length (u ∷ ts)) (round-HasFailed t.error t.started t.ended job)
          q,
    )

submit_new :
    (s : Submission) (f : Fresh) (r r' : JobRegistry) (job : JobEnvelope)
    → lookup (idem_key_of s f) r.idempotency_index ≡ none
    → submit s f r ≡ (ok job, r')
    → lookup f.job_id r'.jobs ≡ some (new_job s f (idem_key_of s f))
unfolding submit
submit_new s f r r' job e h =
    ground (arith, lookup-insert_self f.job_id (new_job s f (idem_key_of s f)) r.jobs)

-- A job submitted under a new key that then fails one or more rounds in a row, whatever the errors and
-- the times: its attempts are counted one by one, and it is a dead letter once it has failed as often as it
-- may (the retries of its type or the override, and one), and FAILED before that.
pub dead_letter_after_retries :
    (s : Submission) (f : Fresh) (r r' : JobRegistry) (job : JobEnvelope) (t : Round)
    (ts : List Round)
    → lookup (idem_key_of s f) r.idempotency_index ≡ none
    → submit s f r ≡ (ok job, r')
    → (last : JobEnvelope) × (lookup f.job_id (run_rounds f.job_id (t ∷ ts) r').jobs ≡ some last)
      × (last.attempt_count ≡ length (t ∷ ts))
      × (last.status ≡ (if leb (max_attempts_of s) (length (t ∷ ts)) then dead_letter else failed))
dead_letter_after_retries s f r r' job t ts e h =
    let new = new_job s f (idem_key_of s f) in
    let (last, p, q) = run_rounds-HasFailed f.job_id t ts r' new (submit_new s f r r' job e h) in
    let counted : last.attempt_count ≡ length (t ∷ ts) = omega (arith, q.counted) in
    (last, p, counted, rw (q.judged, q.kept, counted))

dead_letters-remove_from_pending :
    (job : JobEnvelope) (r : JobRegistry)
    → (remove_from_pending job r).dead_letters ≡ r.dead_letters
unfolding remove_from_pending
dead_letters-remove_from_pending job r = ground arith

not_pending-remove_from_pending :
    (job : JobEnvelope) (r : JobRegistry)
    → IsValid r
    → contains job.job_id ((remove_from_pending job r).pending_by_type job.job_type) ≡ false
unfolding remove_from_pending
not_pending-remove_from_pending job r v = ground (
  arith,
  contains-erase_self job.job_id (r.pending_by_type job.job_type) (v.distinct job.job_type),
  job_type_beq_iff job.job_type job.job_type,
)

abbrev dead_letter_state : String → String → ℕ → JobRegistry → JobEnvelope → JobRegistry
dead_letter_state id error now r job = record (store_job id (failed_job error now job) r) {
  dead_letters = r.dead_letters ++ id ∷ [];
}

dead_letter_state-IsValid :
    (id error : String) (now : ℕ) (r : JobRegistry) (job : JobEnvelope)
    → IsValid r
    → lookup id r.jobs ≡ some job
    → IsValid (dead_letter_state id error now r job)
dead_letter_state-IsValid id error now r job v e =
    relabel-IsValid (r.dead_letters ++ id ∷ []) r.signals
      (store_job id (failed_job error now job) r)
      (store_job-IsValid r id job (failed_job error now job) e
        (SameIdentity-failed_job error now job) v)

mark_failed_last :
    (id error : String) (now : ℕ) (r : JobRegistry) (job : JobEnvelope)
    → lookup id r.jobs ≡ some job
    → leb job.max_attempts job.attempt_count ≡ true
    → (mark_failed id error now r).1
      ≡ emit
          (job_dead_letter id job.job_type (exhausted job.max_attempts error))
          (remove_from_pending (failed_job error now job) (dead_letter_state id error now r job))
unfolding mark_failed
mark_failed_last id error now r job e last = rw (e, with_job, last)

not_pending-mark_failed :
    (id error : String) (now : ℕ) (r : JobRegistry) (job : JobEnvelope)
    → IsValid r
    → lookup id r.jobs ≡ some job
    → leb job.max_attempts job.attempt_count ≡ true
    → contains id ((mark_failed id error now r).1.pending_by_type job.job_type) ≡ false
not_pending-mark_failed id error now r job v e last =
    let (same_id, same_type, _) = SameIdentity-failed_job error now job in
    rw (mark_failed_last id error now r job e last) (
      ground (
        arith,
        not_pending-remove_from_pending (failed_job error now job)
            (dead_letter_state id error now r job)
            (dead_letter_state-IsValid id error now r job v e),
        v.keyed id job e,
        same_id,
        same_type,
      ))

-- In a valid registry, reporting the failure of a job with no attempt left makes the job a dead letter,
-- enters its id at the end of the dead letters, and takes it off the queue of its type.
pub mark_failed-exhausted :
    (id error : String) (now : ℕ) (r : JobRegistry) (job : JobEnvelope)
    → IsValid r
    → lookup id r.jobs ≡ some job
    → job.max_attempts ≤ job.attempt_count
    → let r' = (mark_failed id error now r).1 in
      (lookup id r'.jobs ≡ some (failed_job error now job))
      × ((failed_job error now job).status ≡ dead_letter)
      × (r'.dead_letters ≡ r.dead_letters ++ id ∷ [])
      × (contains id (r'.pending_by_type job.job_type) ≡ false)
mark_failed-exhausted id error now r job v e h =
    let last : leb job.max_attempts job.attempt_count ≡ true = ground arith in
    (
      jobs-mark_failed id error now r job e,
      unfold failed_job in rw last refl,
      rw (mark_failed_last id error now r job e last) (dead_letters-remove_from_pending _ _),
      not_pending-mark_failed id error now r job v e last,
    )
