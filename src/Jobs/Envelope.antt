-- ===== src/Jobs/Envelope.antt =====
-- services/api/jobs.py, lines 27 to 108: the job types and statuses, the limits and retry policy
-- of each type, the job envelope and the errors. Texts built by f-strings are kept as their parts.
use cine_vault.Prelude.{
  ℕ, String, ◌≡◌, ◌↔◌, ap, Bool, true, Option, arith, Eq, nat_eq, nat_beq_iff, ◌==◌,
}
use cine_vault.Prelude.Json.{Fields}

pub data JobType : Type 0 where
  ingestion metadata_refresh quality_processing reconciliation : JobType
  availability_refresh recommendations export sync : JobType

pub data JobStatus : Type 0 where
  pending running succeeded failed dead_letter cancelled : JobStatus

abbrev pub backpressure_limit : JobType → ℕ
backpressure_limit ingestion = 500
backpressure_limit metadata_refresh = 200
backpressure_limit quality_processing = 300
backpressure_limit reconciliation = 100
backpressure_limit availability_refresh = 200
backpressure_limit recommendations = 50
backpressure_limit export = 20
backpressure_limit sync = 1000

abbrev pub max_retries : JobType → ℕ
max_retries ingestion = 3
max_retries metadata_refresh = 3
max_retries quality_processing = 2
max_retries reconciliation = 2
max_retries availability_refresh = 3
max_retries recommendations = 1
max_retries export = 2
max_retries sync = 5

-- The texts that `error` and `dead_letter_reason` hold.
pub data Message : Type 0 where
  text : String → Message
  exhausted : ℕ → String → Message
  stuck : ℕ → Message

pub record JobEnvelope : Type 0 where
  pub job_id : String
  pub job_type : JobType
  pub payload : Fields
  pub idempotency_key : String
  pub correlation_id : String
  pub submitted_at : ℕ
  pub status : JobStatus
  pub attempt_count : ℕ
  pub max_attempts : ℕ
  pub started_at : Option ℕ
  pub completed_at : Option ℕ
  pub error : Option Message
  pub result : Option Fields
  pub dead_letter_reason : Option Message

-- What the methods raise: `BackpressureError`, the `KeyError` of a missing dictionary key, and
-- the `ValueError` of `cancel`.
pub data JobError : Type 0 where
  backpressure : JobType → ℕ → ℕ → JobError
  unknown_key : String → JobError
  cannot_cancel : JobStatus → JobError

-- The signals that the registry emits through `signal_router`.
pub data Signal : Type 0 where
  job_backpressure_reject : JobType → ℕ → ℕ → Signal
  job_submitted : String → JobType → String → Signal
  job_succeeded : String → JobType → Signal
  job_dead_letter : String → JobType → Message → Signal
  job_failed : String → JobType → ℕ → ℕ → String → Signal

rank : JobType → ℕ
rank ingestion = 0
rank metadata_refresh = 1
rank quality_processing = 2
rank reconciliation = 3
rank availability_refresh = 4
rank recommendations = 5
rank export = 6
rank sync = 7

rank_injective : (t u : JobType) → rank t ≡ rank u → t ≡ u
unfolding rank
rank_injective ingestion u h = ground arith
rank_injective _ u h = ground arith

unfoldable pub job_type_beq : JobType → JobType → Bool
unfolding rank
job_type_beq t u = rank t == rank u

pub job_type_beq_iff : (t u : JobType) → (job_type_beq t u ≡ true) ↔ (t ≡ u)
unfolding job_type_beq
job_type_beq_iff t u =
    (λ h. rank_injective t u ((nat_beq_iff _ _).0 h), λ h. (nat_beq_iff _ _).1 (ap rank h))

instance abbrev pub job_type_eq : Eq JobType
job_type_eq = record { same = job_type_beq; same_iff = job_type_beq_iff }
