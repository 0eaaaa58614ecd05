-- ===== src/Jobs/Preservation.antt =====
-- services/api/jobs.py: every method of `JobRegistry` keeps the invariant, and so does any history
-- of calls.
use cine_vault.Prelude.{
  ℕ, String, ◌≡◌, refl, sym, ap, ◌∙◌, false, List, [], ◌∷◌, ◌++◌, Option, none, some, arith, leb,
  length, contains, All, string_eq, ◌==◌, inl, inr, Bool-cases, Option-cases, length-append,
  All-append, All-imp,
}
use mathlib.Core.Option
use cine_vault.Prelude.Dict.{Dict, lookup, insert, lookup-insert}
use cine_vault.Prelude.Json.{Fields}
use cine_vault.Jobs.Envelope.{JobType, JobEnvelope, backpressure_limit}
use cine_vault.Jobs.{
  JobRegistry, Submission, Fresh, enqueue, submit, idem_key_of, new_job, set_pending, mark_running,
  mark_succeeded, mark_failed, failed_job, cancel, can_cancel, recover_job, recover_loop,
  recover_stuck_jobs, with_job, running_job, succeeded_job, cancelled_job,
}
use cine_vault.Jobs.Invariant.{
  IsValid, Queued, SameIdentity, store_job-IsValid, relabel-IsValid, set_pending-IsValid,
  remove_from_pending-IsValid, Distinct-append,
}

not_contains_of_Queued :
    (r : JobRegistry) (t : JobType) (a : String) (ids : List String)
    → lookup a r.jobs ≡ none
    → All (Queued r t) ids
    → contains a ids ≡ false
not_contains_of_Queued r t a [] h q = refl
not_contains_of_Queued r t a (x ∷ ids) h q =
    ground (arith, not_contains_of_Queued r t a ids h q.1, q.0.1, string_eq.same_iff x a)

module _ (s : Submission) (f : Fresh) (key : String) (r : JobRegistry)
    (unused : lookup f.job_id r.jobs ≡ none) (v : IsValid r) where
  -- The registry with the new job filed and indexed.
  abbrev filed : JobRegistry
  filed = record r {
    jobs = insert f.job_id (new_job s f key) r.jobs;
    idempotency_index = insert key f.job_id r.idempotency_index;
  }

  Queued-filed : (t : JobType) (id : String) → Queued r t id → Queued filed t id
  Queued-filed t id (x, p, q) = (
    x,
    ground
        (arith, lookup-insert f.job_id id (new_job s f key) r.jobs, string_eq.same_iff f.job_id id),
    q,
  )

  indexed-filed :
      (k id : String)
      → lookup k filed.idempotency_index ≡ some id
      → (job : JobEnvelope) × (lookup id filed.jobs ≡ some job) × (job.idempotency_key ≡ k)
  indexed-filed k id h = elim (Bool-cases (key == k)) [
    | inl e ↦ (
      new_job s f key,
      ground (
        arith,
        lookup-insert key k f.job_id r.idempotency_index,
        lookup-insert f.job_id id (new_job s f key) r.jobs,
        string_eq.same_iff f.job_id id,
      ),
      ground (arith, string_eq.same_iff key k),
    )
    | inr e ↦
        let (x, p, q) =
          v.indexed k id (ground (arith, lookup-insert key k f.job_id r.idempotency_index)) in
        (
          x,
          ground (
            arith,
            lookup-insert f.job_id id (new_job s f key) r.jobs,
            string_eq.same_iff f.job_id id,
          ),
          q,
        )
  ]

  filed-IsValid : IsValid filed
  filed-IsValid = record {
    keyed = λ id job h. ground (
      arith,
      lookup-insert f.job_id id (new_job s f key) r.jobs,
      v.keyed id job,
      string_eq.same_iff f.job_id id,
    );
    indexed = indexed-filed;
    bounded = v.bounded;
    queued = λ t. All-imp (Queued r t) (Queued filed t) (Queued-filed t) _ (v.queued t);
    distinct = v.distinct;
  }

  Queued-new : Queued filed s.job_type f.job_id
  Queued-new = (
    new_job s f key,
    ground (
      arith,
      lookup-insert f.job_id f.job_id (new_job s f key) r.jobs,
      string_eq.same_iff f.job_id f.job_id,
    ),
    refl,
  )

  enqueue-IsValid : IsValid (enqueue s f key r).1
  unfolding enqueue
  enqueue-IsValid =
      elim (Bool-cases
        (leb (backpressure_limit s.job_type) (length (r.pending_by_type s.job_type)))) [
          | inl full ↦ rw full (relabel-IsValid _ _ r v)
          | inr room ↦ rw room (
              relabel-IsValid _ _ (set_pending s.job_type _ filed) (
                set_pending-IsValid s.job_type (r.pending_by_type s.job_type ++ f.job_id ∷ []) filed
                  (ground (arith, length-append (r.pending_by_type s.job_type) (f.job_id ∷ [])))
                  (All-append (Queued filed s.job_type) (r.pending_by_type s.job_type)
                    (f.job_id ∷ []) (filed-IsValid.queued s.job_type) (Queued-new, tt))
                  (Distinct-append f.job_id (r.pending_by_type s.job_type) (v.distinct s.job_type)
                    (not_contains_of_Queued r s.job_type f.job_id _ unused (v.queued s.job_type)))
                  filed-IsValid))
        ]

-- A submission keeps the invariant, provided that `uuid4` gave the job an id not in use.
pub submit-IsValid :
    (s : Submission) (f : Fresh) (r : JobRegistry)
    → lookup f.job_id r.jobs ≡ none
    → IsValid r
    → IsValid (submit s f r).1
unfolding submit
submit-IsValid s f r unused v = elim (Option-cases (lookup (idem_key_of s f) r.idempotency_index)) [
  | inl e ↦ rw (e, submit) (enqueue-IsValid s f (idem_key_of s f) r unused v)
  | inr (id, e) ↦ elim (Option-cases (lookup id r.jobs)) [
    | inl e' ↦ rw (e, e', submit) v
    | inr (job, e') ↦ rw (e, e', submit) v
  ]
]

pub mark_running-IsValid :
    (id : String) (now : ℕ) (r : JobRegistry) → IsValid r → IsValid (mark_running id now r).1
unfolding mark_running
mark_running-IsValid id now r v = elim (Option-cases (lookup id r.jobs)) [
  | inl e ↦ rw (e, with_job) v
  | inr (job, e) ↦
      rw (e, with_job) (store_job-IsValid r id job (running_job now job) e (refl, refl, refl) v)
]

pub mark_succeeded-IsValid :
    (id : String) (result : Option Fields) (now : ℕ) (r : JobRegistry)
    → IsValid r
    → IsValid (mark_succeeded id result now r).1
unfolding mark_succeeded
mark_succeeded-IsValid id result now r v = elim (Option-cases (lookup id r.jobs)) [
  | inl e ↦ rw (e, with_job) v
  | inr (job, e) ↦
      rw (e, with_job)
        (relabel-IsValid _ _ _ (
          remove_from_pending-IsValid (succeeded_job result now job) _
            (store_job-IsValid r id job (succeeded_job result now job) e (refl, refl, refl) v)))
]

pub SameIdentity-failed_job :
    (error : String) (now : ℕ) (job : JobEnvelope) → SameIdentity (failed_job error now job) job
unfolding failed_job
SameIdentity-failed_job error now job = ground arith

pub mark_failed-IsValid :
    (id error : String) (now : ℕ) (r : JobRegistry)
    → IsValid r
    → IsValid (mark_failed id error now r).1
unfolding mark_failed
mark_failed-IsValid id error now r v = elim (Option-cases (lookup id r.jobs)) [
  | inl e ↦ rw (e, with_job) v
  | inr (job, e) ↦
      let stored =
        store_job-IsValid r id job (failed_job error now job) e
          (SameIdentity-failed_job error now job) v in
      elim (Bool-cases (leb job.max_attempts job.attempt_count)) [
        | inl last ↦
            rw (e, with_job, last)
              (relabel-IsValid _ _ _ (
                remove_from_pending-IsValid (failed_job error now job) _
                  (relabel-IsValid _ _ _ stored)))
        | inr more ↦ rw (e, with_job, more) (relabel-IsValid _ _ _ stored)
      ]
]

pub cancel-IsValid : (id : String) (r : JobRegistry) → IsValid r → IsValid (cancel id r).1
unfolding cancel
cancel-IsValid id r v = elim (Option-cases (lookup id r.jobs)) [
  | inl e ↦ rw (e, with_job) v
  | inr (job, e) ↦ elim (Bool-cases (can_cancel job.status)) [
    | inl allowed ↦
        rw (e, with_job, allowed)
          (remove_from_pending-IsValid (cancelled_job job) _
            (store_job-IsValid r id job (cancelled_job job) e (refl, refl, refl) v))
    | inr refused ↦ rw (e, with_job, refused) v
  ]
]

pub SameIdentity-recover_job :
    (now threshold : ℕ) (job : JobEnvelope) → SameIdentity (recover_job now threshold job) job
SameIdentity-recover_job now threshold job = ground arith

-- Recovery changes each job where it stands.
pub lookup-recover_loop :
    (now threshold : ℕ) (d : Dict String JobEnvelope) (dead recovered : List String) (id : String)
    → lookup id (recover_loop now threshold d dead recovered).0
      ≡ Option.map (recover_job now threshold) (lookup id d)
unfolding recover_loop
lookup-recover_loop now threshold [] dead recovered id = refl
lookup-recover_loop now threshold ((k, job) ∷ d) dead recovered id = elim (Bool-cases (k == id)) [
  | inl e ↦ rw e
  | inr e ↦ rw e (lookup-recover_loop now threshold d _ _ id)
]

map-eq-some {ℓ} :
    {A B : Type ℓ} (f : A → B) (o : Option A) {b : B}
    → Option.map f o ≡ some b
    → (a : A) × (o ≡ some a) × (f a ≡ b)
map-eq-some f none h = cc
map-eq-some f (some a) h = (a, refl, cc)

pub recover_stuck_jobs-IsValid :
    (threshold now : ℕ) (r : JobRegistry)
    → IsValid r
    → IsValid (recover_stuck_jobs threshold now r).1
unfolding recover_stuck_jobs
recover_stuck_jobs-IsValid threshold now r v = record {
  keyed = λ id job h.
      let (x, p, q) =
        map-eq-some (recover_job now threshold) (lookup id r.jobs) (recovered id job h) in
      ground (arith, v.keyed id x p, SameIdentity-recover_job now threshold x);
  indexed = λ k id h.
      let (x, p, q) = v.indexed k id h in
      (
        recover_job now threshold x,
        lookup-recover_loop now threshold r.jobs _ _ id
            ∙ ap (Option.map (recover_job now threshold)) p,
        (SameIdentity-recover_job now threshold x).2 ∙ q,
      );
  bounded = v.bounded;
  queued = λ t.
      All-imp (Queued r t) (Queued (recover_stuck_jobs threshold now r).1 t) (still_queued t) _
        (v.queued t);
  distinct = v.distinct;
}
  where
    recovered :
        (id : String) (job : JobEnvelope)
        → lookup id (recover_loop now threshold r.jobs r.dead_letters []).0 ≡ some job
        → Option.map (recover_job now threshold) (lookup id r.jobs) ≡ some job
    recovered id job h = sym (lookup-recover_loop now threshold r.jobs _ _ id) ∙ h

    still_queued :
        (t : JobType) (id : String)
        → Queued r t id
        → Queued (recover_stuck_jobs threshold now r).1 t id
    still_queued t id (x, p, q) = (
      recover_job now threshold x,
      lookup-recover_loop now threshold r.jobs _ _ id
          ∙ ap (Option.map (recover_job now threshold)) p,
      (SameIdentity-recover_job now threshold x).1 ∙ q,
    )
