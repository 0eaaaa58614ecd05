-- ===== src/Lib.antt =====
-- CineVault's API service: the rules that its background jobs, its ingestion, its catalog and its access
-- control rest on.
--
-- The service is a FastAPI program in Python, under services/api. This library models:
--
--   * Jobs: services/api/jobs.py. `JobRegistry` keeps the jobs by id, a queue of ids for each job type, an
--     index from idempotency keys to jobs, and the dead letters. Every method is a function from the registry
--     to what it returns or raises and the new registry; the signals it emits are kept in the registry as
--     data. Jobs/Envelope has the types and the two tables of limits, Jobs/Report the queries and the retry
--     delay. Jobs/Invariant and Jobs/Preservation are about well-formed registries, Jobs/History about
--     sequences of calls, Jobs/Retry, Jobs/Admission and Jobs/Recovery about the methods.
--   * Ingestion/Licensing: services/api/ingestion/licensing.py. The ten provider rules (Licensing/Permitted,
--     Licensing/Blocked, with the enumerations of Licensing/Types), the static gate
--     `verify_source_access`, and the gate that reads the table of data sources and falls back on the rules.
--     Licensing/Gate compares the two.
--   * Quality: services/api/quality/reconciliation.py. Quality/Reconciliation is the authority matrix and the
--     choice between conflicting observations; Quality/Merge is the merge gate and `execute_title_merge` on
--     the rows of services/api/models/canonical.py that it reads and writes. Quality/Verification is the engine
--     of services/api/quality/verification.py (Verification/Title: which titles pass; Verification/Status).
--   * Auth: services/api/auth/rbac.py (Auth/Rbac: roles, curator sessions, service isolation, high-risk
--     operations), services/api/auth/jwt_validator.py (Auth/Token: the claims of a token) and
--     services/api/rate_limiter.py (Auth/RateLimit: the counter in Valkey, and the sliding window in memory
--     that it falls back on).
--   * Performance: services/api/performance.py. Performance/Histogram keeps latencies (Histogram/Window: which
--     samples are kept; Histogram/Float: the arithmetic on doubles of a percentile's rank; Histogram/NearestRank:
--     which sample a percentile is), Performance/CacheAside is the cache
--     in front of a function, Performance/SlowQuery the detector that `timed` reports to, and
--     Performance/Budget the limit on the cost of a query.
--   * Social: services/api/repositories/social.py. Social/Friendships is the table of friendships
--     (Friendships/Pairs: one row for two users), Social/Invites the invite tokens, which make friendships and
--     referrals, Social/Network the calls that write friendships together, Social/Recommendations the
--     recommendations between friends with the transitions of services/api/schemas/social.py
--     (Recommendations/Lifecycle), Social/PickRooms the rooms in which a group votes (PickRooms/Ballot: the
--     winner), Social/Clubs the watch clubs (Clubs/Counted), and Social/Challenges the viewing challenges
--     (Challenges/Progress). Of the two branches of a method, on the database and on the seed store, the first is modelled,
--     and the second by a `seed_` definition where it does something else.
--   * Personal: services/api/repositories/personal.py. Personal/Events is the log of what a user watched
--     (Events/Log), which maintains the states of titles (Personal/States, with States/Patch) and the streaks
--     of days (Personal/Streaks, with Streaks/Runs). Personal/Ratings has ratings, notes and reviews
--     (Ratings/Single), Personal/Collections the collections and the library (Collections/Shelved).
--     Personal/Import is the import: Import/Resolve finds the title of a record, Import/Apply adds its rows;
--     Import/Rows, Import/Steps, Import/Covered and Import/Still are about the steps, Import/Twice about two runs. The
--     branches on the database are modelled.
--   * Sync: services/api/repositories/sync.py. Sync/Stores is what a push of offline mutations reads and
--     writes: Valkey, the set of processed ids, and a session with its outbox; Sync/Push is the loop of
--     `process_push_mutations`, with the methods of the personal repository as an interface; Sync/Known
--     is about how long Valkey knows a mutation, Sync/Repeat about the answer of a push and about one
--     that is sent again.
--
-- Prelude holds what these share: Boolean tests, results, lists, dictionaries in insertion order and JSON
-- values. The parts meet through the HTTP routers, which are not modelled; the cache and `timed` record into
-- the histogram, and none of the other parts calls another.
--
-- How the state is modelled. Dictionaries are association lists that keep Python's order of insertion. What
-- the code draws from `uuid4` or the clock is an argument. Clock readings are natural numbers, with a
-- subtraction only where the later reading comes first or the difference is compared with a bound from above,
-- so that stopping at 0 agrees with the code. A lock makes each method of the registry atomic, so its
-- histories are sequences of calls. Loops run over lists, but for two searches in
-- Performance/Histogram/Float that have fuel: 60 exponents, which reach every percentage from 1 on, and 53
-- bits, which is enough for a count below 2 ^ 53. Floating-point weights are hundredths, durations whole
-- microseconds; the one product of doubles that is rounded up to a rank is computed as IEEE 754 has it. A key in
-- Valkey has the second at which it expires, and each mutation of a push the second at which Valkey is asked.
--
-- Not modelled: the ORM and its queries, the Valkey client and its Lua script (a parameter), Python's
-- changes of letter case, its rounding, its test for white space and its order on values that are not integers
-- (parameters), the PKCE digest, the decoding and signature of tokens, the routers and schemas, the adapters of remote
-- services, the AI providers, telemetry and storage, and the clients in TypeScript and Dart.
pub mod Prelude
pub mod Jobs
pub mod Ingestion
pub mod Quality
pub mod Auth
pub mod Performance
pub mod Social
pub mod Sync
pub mod Personal
mod Tests
