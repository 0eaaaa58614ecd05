-- ===== src/Jobs/Admission.antt =====
-- services/api/jobs.py: what `submit` promises about idempotency keys and full queues.
use cine_vault.Prelude.{
  ◌≤◌, String, ◌≡◌, none, some, arith, length, string_eq, ok, err, Option-cases, inl, inr,
}
use cine_vault.Prelude.Dict.{lookup, lookup-insert_self}
use cine_vault.Jobs.Envelope.{JobEnvelope, JobError, backpressure, backpressure_limit}
use cine_vault.Jobs.{JobRegistry, Submission, Fresh, submit, enqueue, idem_key_of, new_job}
use cine_vault.Jobs.Invariant.{IsValid}

-- The registry knows a job under a key.
abbrev Known : String → JobEnvelope → JobRegistry → Type 0
Known key job r =
    (id : String) × (lookup key r.idempotency_index ≡ some id) × (lookup id r.jobs ≡ some job)

submit-Known :
    (s : Submission) (f : Fresh) (r : JobRegistry) (job : JobEnvelope)
    → Known (idem_key_of s f) job r
    → submit s f r ≡ (ok job, r)
unfolding submit
submit-Known s f r job (id, p, q) = ground arith

Known-enqueue :
    (s : Submission) (f : Fresh) (key : String) (r r' : JobRegistry) (job : JobEnvelope)
    → enqueue s f key r ≡ (ok job, r')
    → Known key job r'
unfolding enqueue
Known-enqueue s f key r r' job h = (
  f.job_id,
  ground (arith, lookup-insert_self key f.job_id r.idempotency_index),
  ground (arith, lookup-insert_self f.job_id (new_job s f key) r.jobs),
)

Known-submit :
    (s : Submission) (f : Fresh) (r r' : JobRegistry) (job : JobEnvelope)
    → submit s f r ≡ (ok job, r')
    → Known (idem_key_of s f) job r'
Known-submit s f r r' job h = elim (Option-cases (lookup (idem_key_of s f) r.idempotency_index)) [
  | inl e ↦ Known-enqueue s f (idem_key_of s f) r r' job (unfold submit in ground arith)
  | inr (id, e) ↦ (id, unfold submit in ground arith, unfold submit in ground arith)
]

-- Submitting again under the same key, with any type, payload or override, returns the job of the first
-- submission and leaves the registry as it is.
pub submit_twice :
    (s s' : Submission) (f f' : Fresh) (r r' : JobRegistry) (job : JobEnvelope)
    → idem_key_of s' f' ≡ idem_key_of s f
    → submit s f r ≡ (ok job, r')
    → submit s' f' r' ≡ (ok job, r')
submit_twice s s' f f' r r' job same h =
    submit-Known s' f' r' job (rw same (Known-submit s f r r' job h))

-- In a valid registry `submit` fails only for a new key at a full queue: it raises the backpressure error
-- with the queue's length, which has reached the limit, and files, indexes and queues nothing.
pub submit_error :
    (s : Submission) (f : Fresh) (r r' : JobRegistry) (e : JobError)
    → IsValid r
    → submit s f r ≡ (err e, r')
    → (lookup (idem_key_of s f) r.idempotency_index ≡ none)
      × (e
          ≡ backpressure s.job_type
              (length (r.pending_by_type s.job_type))
              (backpressure_limit s.job_type))
      × (backpressure_limit s.job_type ≤ length (r.pending_by_type s.job_type))
      × (r'.jobs ≡ r.jobs)
      × (r'.idempotency_index ≡ r.idempotency_index)
      × (r'.pending_by_type ≡ r.pending_by_type)
unfolding submit enqueue
submit_error s f r r' e v h = elim (Option-cases (lookup (idem_key_of s f) r.idempotency_index)) [
  | inl new ↦ ground arith
  | inr (id, old) ↦ let (job, p, q) = v.indexed (idem_key_of s f) id old in absurd (ground arith)
]
