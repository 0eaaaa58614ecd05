-- ===== src/Jobs/Recovery.antt =====
-- services/api/jobs.py: `recover_stuck_jobs`.
use mathlib.Core.Option
use mathlib.Core.Path.{subst}
use cine_vault.Prelude.{
  Option, none, ◌+◌, ◌<◌, ◌↔◌, sym, Option-cases, leb→le, ℕ, ◌≤◌, String, ◌≡◌, refl, ◌∙◌, ap, true,
  false, List, [], ◌∷◌, ◌++◌, map, some, arith, leb, filter, contains, string_eq, Bool-cases, inl,
  inr,
}
use mathlib.Core.List.{append-nil, append_assoc}
use cine_vault.Prelude.Dict.{Dict, lookup, values}
use cine_vault.Jobs.Envelope.{JobEnvelope, running, failed, dead_letter, stuck}
use cine_vault.Jobs.{JobRegistry, is_stuck, recover_job, recover_loop, recover_stuck_jobs}
use cine_vault.Jobs.Preservation.{lookup-recover_loop}

abbrev pub stuck_ids : ℕ → ℕ → Dict String JobEnvelope → List String
stuck_ids now threshold d =
    map (λ (j : JobEnvelope). j.job_id) (filter (is_stuck now threshold) (values d))

recover_loop-stuck_ids :
    (now threshold : ℕ) (d : Dict String JobEnvelope) (dead recovered : List String)
    → (recover_loop now threshold d dead recovered).2 ≡ recovered ++ stuck_ids now threshold d
unfolding recover_loop
recover_loop-stuck_ids now threshold [] dead recovered = rw append-nil
recover_loop-stuck_ids now threshold ((k, job) ∷ d) dead recovered =
    elim (Bool-cases (is_stuck now threshold job)) [
      | inl e ↦
          rw e (
            recover_loop-stuck_ids now threshold d _ _ ∙ append_assoc recovered (job.job_id ∷ []) _)
      | inr e ↦ rw e (recover_loop-stuck_ids now threshold d _ _)
    ]

not_stuck-recover_job :
    (now threshold : ℕ) (job : JobEnvelope)
    → is_stuck now threshold (recover_job now threshold job) ≡ false
not_stuck-recover_job now threshold job = elim (Bool-cases (is_stuck now threshold job)) [
  | inl e ↦ elim (Bool-cases (leb job.max_attempts job.attempt_count)) [
    | inl last ↦ rw (e, last)
    | inr more ↦ rw (e, more)
  ]
  | inr e ↦ rw e e
]

none_stuck :
    (now threshold : ℕ) (d : Dict String JobEnvelope) (dead recovered : List String)
    → stuck_ids now threshold (recover_loop now threshold d dead recovered).0 ≡ []
unfolding recover_loop
none_stuck now threshold [] dead recovered = refl
none_stuck now threshold ((k, job) ∷ d) dead recovered =
    rw (not_stuck-recover_job now threshold job) (none_stuck now threshold d _ _)

-- A job that has been RUNNING for longer than the threshold. (A start at time 0 counts as none.)
abbrev pub IsStuck : ℕ → ℕ → JobEnvelope → Type 0
IsStuck now threshold job =
    (job.status ≡ running) × ((t : ℕ) × (job.started_at ≡ some t) × (0 < t) × (threshold + t < now))

is_stuck_iff :
    (now threshold : ℕ) (job : JobEnvelope)
    → (is_stuck now threshold job ≡ true) ↔ IsStuck now threshold job
is_stuck_iff now threshold job = elim (Option-cases job.started_at) [
  | inl e ↦
      (λ h. absurd (ground (arith, h, e)), λ h. absurd (let s = h.1.1 in ground (arith, s, e)))
  | inr (t, e) ↦ (
    λ h. (ground (arith, h, e), (t, e, ground (arith, h, e), ground (arith, h, e))),
    λ (is_running, (u, s, a, b)). ground (arith, e, is_running, s, a, b),
  )
]

-- The jobs that are stuck, by their ids, in the order in which they are filed.
pub data Picks (now threshold : ℕ) : Dict String JobEnvelope → List String → Type 0 where
  no_jobs : Picks now threshold [] []
  picked :
      {d : Dict String JobEnvelope} {ids : List String} (k : String) (job : JobEnvelope)
      → IsStuck now threshold job
      → Picks now threshold d ids
      → Picks now threshold ((k, job) ∷ d) (job.job_id ∷ ids)
  passed :
      {d : Dict String JobEnvelope} {ids : List String} (k : String) (job : JobEnvelope)
      → ¬ IsStuck now threshold job
      → Picks now threshold d ids
      → Picks now threshold ((k, job) ∷ d) ids

-- What is filed under an id before and after a recovery.
pub data Recovers (now threshold : ℕ) : Option JobEnvelope → Option JobEnvelope → Type 0 where
  no_job : Recovers now threshold none none
  untouched :
      (job : JobEnvelope)
      → ¬ IsStuck now threshold job
      → Recovers now threshold (some job) (some job)
  may_retry :
      (job : JobEnvelope)
      → IsStuck now threshold job
      → job.attempt_count < job.max_attempts
      → Recovers now threshold
          (some job)
          (some (record job { status = failed; error = some (stuck threshold) }))
  no_attempt_left :
      (job : JobEnvelope)
      → IsStuck now threshold job
      → job.max_attempts ≤ job.attempt_count
      → Recovers now threshold (some job) (
          some (record job {
            status = dead_letter;
            error = some (stuck threshold);
            dead_letter_reason = some (stuck threshold);
          }))

module _ (now threshold : ℕ) where
  not-IsStuck :
      (job : JobEnvelope) → is_stuck now threshold job ≡ false → ¬ IsStuck now threshold job
  not-IsStuck job e s = let wrong = (is_stuck_iff now threshold job).1 s in ground (arith, e, wrong)

  stuck_ids-Picks :
      (d : Dict String JobEnvelope) → Picks now threshold d (stuck_ids now threshold d)
  stuck_ids-Picks [] = no_jobs
  stuck_ids-Picks ((k, job) ∷ d) = elim (Bool-cases (is_stuck now threshold job)) [
    | inl e ↦ rw e (picked k job ((is_stuck_iff now threshold job).0 e) (stuck_ids-Picks d))
    | inr e ↦ rw e (passed k job (not-IsStuck job e) (stuck_ids-Picks d))
  ]

  recover_job-Recovers :
      (found : Option JobEnvelope)
      → Recovers now threshold found (Option.map (recover_job now threshold) found)
  recover_job-Recovers none = no_job
  recover_job-Recovers (some job) = elim (Bool-cases (is_stuck now threshold job)) [
    | inr e ↦ rw e (untouched job (not-IsStuck job e))
    | inl e ↦
        (let s = (is_stuck_iff now threshold job).0 e in
          elim (Bool-cases (leb job.max_attempts job.attempt_count)) [
            | inl last ↦ rw (e, last) (no_attempt_left job s (leb→le _ job.attempt_count last))
            | inr more ↦ rw (e, more) (may_retry job s (ground (arith, more)))
          ])
  ]

-- Recovery returns the ids of exactly the jobs that were RUNNING for longer than the threshold, in the order
-- in which they are filed. Each of these becomes FAILED, or a dead letter if no attempt is left, with the
-- threshold in its error; every other job, every queue and every idempotency key stays as it is.
pub recover_stuck_jobs-exact :
    (threshold now : ℕ) (r : JobRegistry)
    → let (recovered, r') = recover_stuck_jobs threshold now r in
      Picks now threshold r.jobs recovered
      × ((id : String) → Recovers now threshold (lookup id r.jobs) (lookup id r'.jobs))
      × (r'.pending_by_type ≡ r.pending_by_type)
      × (r'.idempotency_index ≡ r.idempotency_index)
unfolding recover_stuck_jobs
recover_stuck_jobs-exact threshold now r = (
  subst (Picks now threshold r.jobs)
      (sym (recover_loop-stuck_ids now threshold r.jobs r.dead_letters []))
      (stuck_ids-Picks now threshold r.jobs),
  λ id.
      subst (Recovers now threshold (lookup id r.jobs))
        (sym (lookup-recover_loop now threshold r.jobs r.dead_letters [] id))
        (recover_job-Recovers now threshold (lookup id r.jobs)),
  refl,
  refl,
)

-- A second scan with the same clock reading and threshold finds nothing.
pub recover_twice :
    (threshold now : ℕ) (r : JobRegistry)
    → (recover_stuck_jobs threshold now (recover_stuck_jobs threshold now r).1).0 ≡ []
unfolding recover_stuck_jobs
recover_twice threshold now r =
    recover_loop-stuck_ids now threshold (recover_loop now threshold r.jobs r.dead_letters []).0
      ((recover_stuck_jobs threshold now r).1.dead_letters) []
    ∙ none_stuck now threshold r.jobs r.dead_letters []

-- A stuck job with no attempt left becomes a dead letter and keeps its place in the queue of its type,
-- unlike a job that `mark_failed` escalates.
pub recovered_dead_letter_stays_queued :
    (threshold now : ℕ) (r : JobRegistry) (id : String) (job : JobEnvelope)
    → lookup id r.jobs ≡ some job
    → is_stuck now threshold job ≡ true
    → job.max_attempts ≤ job.attempt_count
    → contains id (r.pending_by_type job.job_type) ≡ true
    → let r' = (recover_stuck_jobs threshold now r).1 in
      (job' : JobEnvelope) × (lookup id r'.jobs ≡ some job')
      × (job'.status ≡ dead_letter)
      × (contains id (r'.pending_by_type job.job_type) ≡ true)
unfolding recover_stuck_jobs
recovered_dead_letter_stays_queued threshold now r id job e is_running last waiting =
    let no_more : leb job.max_attempts job.attempt_count ≡ true = ground arith in
    (
      recover_job now threshold job,
      lookup-recover_loop now threshold r.jobs _ _ id
          ∙ ap (Option.map (recover_job now threshold)) e,
      rw (is_running, no_more),
      waiting,
    )
