-- ===== src/Tests/JobRegistry.antt =====
-- services/api/jobs.py on small registries.
use cine_vault.Prelude.{
  String, ◌≡◌, refl, ap, true, List, [], ◌∷◌, none, some, ok, err, Result, length, string_eq,
  contains, ◌≤◌,
}
use cine_vault.Prelude.Dict.{lookup}
use cine_vault.Prelude.Json.{end}
use cine_vault.Jobs.Envelope.{
  JobType, JobEnvelope, JobError, backpressure, dead_letter, JobStatus, job_type_beq,
}
use cine_vault.Jobs.{
  JobRegistry, init, Submission, Fresh, submit, idem_key_of, new_job, mark_running,
  recover_stuck_jobs,
}
use cine_vault.Jobs.Invariant.{IsValid, init-IsValid}
use cine_vault.Jobs.Preservation.{submit-IsValid, mark_running-IsValid}
use cine_vault.Jobs.History.{Reach, start, next, Reach-IsValid, apply}
use cine_vault.Jobs.History
use cine_vault.Jobs.Retry.{Round, run_rounds, dead_letter_after_retries}
use cine_vault.Jobs.Admission.{submit_twice, submit_error}
use cine_vault.Jobs.Recovery.{Picks, Recovers, recover_stuck_jobs-exact}

-- An export with no retry, under the key "k".
abbrev export_once : Submission
export_once = record {
  job_type = JobType.export;
  payload = end;
  idempotency_key = some "k";
  correlation_id = none;
  max_retries_override = some 0;
}

abbrev fresh : Fresh
fresh = record { job_id = "j1"; idempotency_key = "i1"; correlation_id = "c1"; now = 10 }

abbrev later : Fresh
later = record { job_id = "j2"; idempotency_key = "i2"; correlation_id = "c2"; now = 20 }

abbrev queued : JobRegistry
queued = (submit export_once fresh init).1

abbrev job : JobEnvelope
job = new_job export_once fresh "k"

queued_lem : submit export_once fresh init ≡ (ok job, queued)
unfolding submit init
queued_lem = refl

abbrev taken_up : JobRegistry
taken_up = (mark_running "j1" 30 queued).1

abbrev running_export : JobEnvelope
running_export = record job { status = JobStatus.running; started_at = some 30; attempt_count = 1 }

taken_up_lem : lookup "j1" taken_up.jobs ≡ some running_export
unfolding submit init mark_running
taken_up_lem = refl

unused : lookup "j1" init.jobs ≡ none
unfolding init
unused = refl

Reach-IsValid_example :
    IsValid (apply (History.mark_running "j1" 30) (apply (History.submit export_once fresh) init))
Reach-IsValid_example =
    Reach-IsValid (
      next (next start (History.submit export_once fresh) unused) (History.mark_running "j1" 30) tt)

taken_up-IsValid : IsValid taken_up
taken_up-IsValid =
    mark_running-IsValid "j1" 30 queued (submit-IsValid export_once fresh init unused init-IsValid)

abbrev round : Round
round = record { started = 30; ended = 40; error = "disk full" }

unknown : lookup (idem_key_of export_once fresh) init.idempotency_index ≡ none
unfolding init
unknown = refl

dead_letter_after_retries_example :
    (last : JobEnvelope) × (lookup "j1" (run_rounds "j1" (round ∷ []) queued).jobs ≡ some last)
    × (last.attempt_count ≡ 1)
    × (last.status ≡ dead_letter)
dead_letter_after_retries_example =
    dead_letter_after_retries export_once fresh init queued job round [] unknown queued_lem

submit_twice_example : submit export_once later queued ≡ (ok job, queued)
submit_twice_example =
    submit_twice export_once export_once fresh later init queued job refl queued_lem

recover_stuck_jobs-exact_example :
    let (recovered, r') = recover_stuck_jobs 5 40 taken_up in
    Picks 40 5 taken_up.jobs recovered
    × ((id : String) → Recovers 40 5 (lookup id taken_up.jobs) (lookup id r'.jobs))
    × (r'.pending_by_type ≡ taken_up.pending_by_type)
    × (r'.idempotency_index ≡ taken_up.idempotency_index)
recover_stuck_jobs-exact_example = recover_stuck_jobs-exact 5 40 taken_up

still_waiting : contains "j1" (taken_up.pending_by_type JobType.export) ≡ true
unfolding submit init mark_running job_type_beq
still_waiting = refl

-- A queue filled to its limit.
abbrev any_export : Submission
any_export = record export_once { idempotency_key = none; max_retries_override = none }

abbrev fresh_of : String → Fresh
fresh_of id = record { job_id = id; idempotency_key = id; correlation_id = id; now = 10 }

fill : List String → JobRegistry → JobRegistry
fill [] r = r
fill (id ∷ ids) r = fill ids (submit any_export (fresh_of id) r).1

abbrev AllUnused : List String → JobRegistry → Type 0
AllUnused [] r = Unit
AllUnused (id ∷ ids) r =
    (lookup id r.jobs ≡ none) × AllUnused ids (submit any_export (fresh_of id) r).1

fill-IsValid :
    (ids : List String) (r : JobRegistry) → AllUnused ids r → IsValid r → IsValid (fill ids r)
unfolding fill
fill-IsValid [] r h v = v
fill-IsValid (id ∷ ids) r h v =
    fill-IsValid ids (submit any_export (fresh_of id) r).1 h.1
      (submit-IsValid any_export (fresh_of id) r h.0 v)

abbrev twenty_ids : List String
twenty_ids =
    "e1" ∷ "e2" ∷ "e3" ∷ "e4" ∷ "e5" ∷ "e6" ∷ "e7" ∷ "e8" ∷ "e9" ∷ "e10" ∷ "e11" ∷ "e12" ∷ "e13"
    ∷ "e14" ∷ "e15" ∷ "e16" ∷ "e17" ∷ "e18" ∷ "e19" ∷ "e20" ∷ []

twenty_unused : AllUnused twenty_ids init
unfolding submit init job_type_beq
twenty_unused = (
  refl,
  (
    refl,
    (
      refl,
      (
        refl,
        (
          refl,
          (
            refl,
            (
              refl,
              (
                refl,
                (
                  refl,
                  (
                    refl,
                    (
                      refl,
                      (refl, (refl, (refl, (refl, (refl, (refl, (refl, (refl, (refl, tt))))))))),
                    ),
                  ),
                ),
              ),
            ),
          ),
        ),
      ),
    ),
  ),
)

abbrev full : JobRegistry
full = fill twenty_ids init

rejected_verdict : (submit export_once fresh full).0 ≡ err (backpressure JobType.export 20 20)
unfolding submit init fill job_type_beq
rejected_verdict = refl

rejected :
    submit export_once fresh full
    ≡ (err (backpressure JobType.export 20 20), (submit export_once fresh full).1)
rejected =
    ap (λ (v : Result JobError JobEnvelope). (v, (submit export_once fresh full).1))
      rejected_verdict

submit_error_example :
    (lookup "k" full.idempotency_index ≡ none)
    × (backpressure JobType.export 20 20
        ≡ backpressure JobType.export (length (full.pending_by_type JobType.export)) 20)
    × (20 ≤ length (full.pending_by_type JobType.export))
    × ((submit export_once fresh full).1.jobs ≡ full.jobs)
    × ((submit export_once fresh full).1.idempotency_index ≡ full.idempotency_index)
    × ((submit export_once fresh full).1.pending_by_type ≡ full.pending_by_type)
submit_error_example =
    submit_error export_once fresh full (submit export_once fresh full).1
      (backpressure JobType.export 20 20) (fill-IsValid twenty_ids init twenty_unused init-IsValid)
      rejected
