-- ===== src/Jobs/History.antt =====
-- services/api/jobs.py: histories of a registry. The lock of `JobRegistry` makes every method one
-- step, so what several threads do is some sequence of calls.
use cine_vault.Prelude.{ℕ, String, ◌≡◌, Option, none, string_eq}
use cine_vault.Prelude.Dict.{lookup}
use cine_vault.Prelude.Json.{Fields}
use cine_vault.Jobs
use cine_vault.Jobs.{JobRegistry, Submission, Fresh}
use cine_vault.Jobs.Invariant.{IsValid, init-IsValid}
use cine_vault.Jobs.Preservation.{
  submit-IsValid, mark_running-IsValid, mark_succeeded-IsValid, mark_failed-IsValid, cancel-IsValid,
  recover_stuck_jobs-IsValid,
}

-- The calls that change a registry, each with the clock readings and new texts that it draws.
pub data Call : Type 0 where
  submit : Submission → Fresh → Call
  mark_running : String → ℕ → Call
  mark_succeeded : String → Option Fields → ℕ → Call
  mark_failed : String → String → ℕ → Call
  cancel : String → Call
  recover_stuck_jobs : ℕ → ℕ → Call

abbrev pub apply : Call → JobRegistry → JobRegistry
apply (submit s f) r = (Jobs.submit s f r).1
apply (mark_running id now) r = (Jobs.mark_running id now r).1
apply (mark_succeeded id result now) r = (Jobs.mark_succeeded id result now r).1
apply (mark_failed id error now) r = (Jobs.mark_failed id error now r).1
apply (cancel id) r = (Jobs.cancel id r).1
apply (recover_stuck_jobs threshold now) r = (Jobs.recover_stuck_jobs threshold now r).1

-- `uuid4` gives a submission an id that no job of the registry has.
abbrev pub IsFresh : Call → JobRegistry → Type 0
IsFresh (submit s f) r = lookup f.job_id r.jobs ≡ none
IsFresh _ r = Unit

-- The registries that a process can reach.
pub data Reach : JobRegistry → Type 0 where
  start : Reach Jobs.init
  next : {r : JobRegistry} → Reach r → (c : Call) → IsFresh c r → Reach (apply c r)

pub apply-IsValid : (c : Call) (r : JobRegistry) → IsFresh c r → IsValid r → IsValid (apply c r)
apply-IsValid (submit s f) r fresh v = submit-IsValid s f r fresh v
apply-IsValid (mark_running id now) r fresh v = mark_running-IsValid id now r v
apply-IsValid (mark_succeeded id result now) r fresh v = mark_succeeded-IsValid id result now r v
apply-IsValid (mark_failed id error now) r fresh v = mark_failed-IsValid id error now r v
apply-IsValid (cancel id) r fresh v = cancel-IsValid id r v
apply-IsValid (recover_stuck_jobs threshold now) r fresh v =
    recover_stuck_jobs-IsValid threshold now r v

-- In every registry that calls can reach from an empty one, provided that each submitted job gets
-- an unused id: each job is filed under its own id, each known idempotency key leads to a known
-- job submitted under that key, and each queue is within the limit of its type and lists known
-- jobs of its type, no job twice.
pub Reach-IsValid : {r : JobRegistry} → Reach r → IsValid r
Reach-IsValid start = init-IsValid
Reach-IsValid (next {r = r} path c fresh) = apply-IsValid c r fresh (Reach-IsValid path)
