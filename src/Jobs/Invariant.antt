-- ===== src/Jobs/Invariant.antt =====
-- services/api/jobs.py: the invariant of `JobRegistry` and the operations that keep it.
use cine_vault.Prelude.{
  ◌≤◌, String, ◌≡◌, refl, true, false, List, [], ◌∷◌, ◌++◌, some, arith, length, contains, erase,
  All, string_eq, ◌==◌, if◌then◌else◌, inl, inr, Bool-cases, length-erase-le, All-imp, All-erase,
}
use mathlib.Core.Path.{subst}
use cine_vault.Prelude.Dict.{lookup, insert, lookup-insert}
use cine_vault.Jobs.Envelope.{
  JobType, JobEnvelope, backpressure_limit, job_type_eq, job_type_beq_iff, Signal,
}
use cine_vault.Jobs.{JobRegistry, init, store_job, set_pending, remove_from_pending}

-- No element occurs twice.
abbrev pub Distinct : List String → Type 0
Distinct [] = Unit
Distinct (x ∷ xs) = (contains x xs ≡ false) × Distinct xs

-- A known job of a given type.
abbrev pub Queued : JobRegistry → JobType → String → Type 0
Queued r t id = (job : JobEnvelope) × (lookup id r.jobs ≡ some job) × (job.job_type ≡ t)

-- Every job is filed under its own id, every idempotency key names a known job with that key, and
-- every queue is within its limit and lists known jobs of its type, each once.
pub record IsValid (r : JobRegistry) : Type 0 where
  pub keyed : (id : String) (job : JobEnvelope) → lookup id r.jobs ≡ some job → job.job_id ≡ id
  pub indexed :
      (k id : String)
      → lookup k r.idempotency_index ≡ some id
      → (job : JobEnvelope) × (lookup id r.jobs ≡ some job) × (job.idempotency_key ≡ k)
  pub bounded : (t : JobType) → length (r.pending_by_type t) ≤ backpressure_limit t
  pub queued : (t : JobType) → All (Queued r t) (r.pending_by_type t)
  pub distinct : (t : JobType) → Distinct (r.pending_by_type t)

pub init-IsValid : IsValid init
unfolding init
init-IsValid = record {
  keyed = λ id job h. cc;
  indexed = λ k id h. cc;
  bounded = λ t. omega arith;
  queued = λ t. tt;
  distinct = λ t. tt;
}

-- Two versions of a job that the invariant does not tell apart.
abbrev pub SameIdentity : JobEnvelope → JobEnvelope → Type 0
SameIdentity a b =
    (a.job_id ≡ b.job_id) × (a.job_type ≡ b.job_type) × (a.idempotency_key ≡ b.idempotency_key)

module _ (r : JobRegistry) (id : String) (old job : JobEnvelope) (at : lookup id r.jobs ≡ some old)
    (same : SameIdentity job old) (v : IsValid r) where
  keyed-store_job :
      (j : String) (x : JobEnvelope) → lookup j (insert id job r.jobs) ≡ some x → x.job_id ≡ j
  keyed-store_job j x h = ground (
    arith,
    lookup-insert id j job r.jobs,
    v.keyed j x,
    v.keyed id old at,
    string_eq.same_iff id j,
  )

  Queued-store_job : (t : JobType) (j : String) → Queued r t j → Queued (store_job id job r) t j
  Queued-store_job t j (x, p, q) = elim (Bool-cases (id == j)) [
    | inl e ↦ (job, rw lookup-insert (rw e), ground (arith, string_eq.same_iff id j))
    | inr e ↦ (x, rw lookup-insert (rw e p), q)
  ]

  indexed-store_job :
      (k j : String)
      → lookup k r.idempotency_index ≡ some j
      → (x : JobEnvelope) × (lookup j (insert id job r.jobs) ≡ some x) × (x.idempotency_key ≡ k)
  indexed-store_job k j h =
      let (x, p, q) = v.indexed k j h in
      elim (Bool-cases (id == j)) [
        | inl e ↦ (job, rw lookup-insert (rw e), ground (arith, string_eq.same_iff id j))
        | inr e ↦ (x, rw lookup-insert (rw e p), q)
      ]

  pub store_job-IsValid : IsValid (store_job id job r)
  store_job-IsValid = record {
    keyed = keyed-store_job;
    indexed = indexed-store_job;
    bounded = v.bounded;
    queued = λ t.
        All-imp (Queued r t) (Queued (store_job id job r) t) (Queued-store_job t) _ (v.queued t);
    distinct = v.distinct;
  }

-- The invariant says nothing of the dead letters and the signals.
pub relabel-IsValid :
    (dead : List String) (signals : List Signal) (r : JobRegistry)
    → IsValid r
    → IsValid (record r { dead_letters = dead; signals = signals })
relabel-IsValid dead signals r v = record {
  keyed = v.keyed;
  indexed = v.indexed;
  bounded = v.bounded;
  queued = v.queued;
  distinct = v.distinct;
}

contains-erase :
    (x a : String) (xs : List String) → contains x xs ≡ false → contains x (erase a xs) ≡ false
contains-erase x a [] h = refl
contains-erase x a (y ∷ xs) h = ground (arith, contains-erase x a xs)

Distinct-erase : (a : String) (xs : List String) → Distinct xs → Distinct (erase a xs)
Distinct-erase a [] h = tt
Distinct-erase a (x ∷ xs) h = elim (x == a) as (λ b. Distinct (if b then xs else x ∷ erase a xs)) [
  | true ↦ h.1
  | false ↦ (contains-erase x a xs h.0, Distinct-erase a xs h.1)
]

pub contains-erase_self :
    (a : String) (xs : List String) → Distinct xs → contains a (erase a xs) ≡ false
contains-erase_self a [] h = refl
contains-erase_self a (x ∷ xs) h =
    ground (arith, contains-erase_self a xs h.1, string_eq.same_iff x a, h.0)

contains-append_one :
    (x a : String) (xs : List String)
    → contains x xs ≡ false
    → (a == x) ≡ false
    → contains x (xs ++ a ∷ []) ≡ false
contains-append_one x a [] h n = ground arith
contains-append_one x a (y ∷ xs) h n = ground (arith, contains-append_one x a xs)

pub Distinct-append :
    (a : String) (xs : List String) → Distinct xs → contains a xs ≡ false → Distinct (xs ++ a ∷ [])
Distinct-append a [] h n = (refl, tt)
Distinct-append a (x ∷ xs) h n = (
  contains-append_one x a xs h.0 (ground (arith, string_eq.same_iff x a, string_eq.same_iff a x)),
  Distinct-append a xs h.1 (ground arith),
)

-- A queue may be replaced by one that fits, lists known jobs, and lists each once.
pub set_pending-IsValid :
    (t : JobType) (ids : List String) (r : JobRegistry)
    → length ids ≤ backpressure_limit t
    → All (Queued r t) ids
    → Distinct ids
    → IsValid r
    → IsValid (set_pending t ids r)
set_pending-IsValid t ids r b q d v = record {
  keyed = v.keyed;
  indexed = v.indexed;
  bounded = λ u. ground (arith, v.bounded u, job_type_beq_iff t u);
  queued = λ u. elim (Bool-cases (t == u)) [
    | inl e ↦ rw e (subst (λ w. All (Queued r w) ids) ((job_type_beq_iff t u).0 e) q)
    | inr e ↦ rw e (v.queued u)
  ];
  distinct = λ u. elim (Bool-cases (t == u)) [ inl e ↦ rw e d | inr e ↦ rw e (v.distinct u) ];
}

-- Taking a known job off its queue keeps the invariant.
pub remove_from_pending-IsValid :
    (job : JobEnvelope) (r : JobRegistry) → IsValid r → IsValid (remove_from_pending job r)
unfolding remove_from_pending
remove_from_pending-IsValid job r v = elim (Bool-cases (contains job.job_id waiting)) [
  | inl e ↦ rw e (
      set_pending-IsValid job.job_type (erase job.job_id waiting) r
        (omega (arith, length-erase-le job.job_id waiting, v.bounded job.job_type))
        (All-erase (Queued r job.job_type) job.job_id waiting (v.queued job.job_type))
        (Distinct-erase job.job_id waiting (v.distinct job.job_type)) v)
  | inr e ↦ rw e v
]
  where
    waiting : List String
    waiting = r.pending_by_type job.job_type
