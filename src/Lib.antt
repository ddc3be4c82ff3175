-- ===== src/Lib.antt =====
-- Ants: the control plane of an agent platform, in Go. A run of tasks is leased to one worker at a
-- time; what happens is published through a transactional outbox; every capability that a task asks
-- for passes a policy engine. This library models the core of it:
--
--   * Domain (internal/domain): the error taxonomy (Domain/Errors, errors.go), the transition tables and
--     their check (Domain/States, states.go), the state machines (Domain/RunStatus, TaskStatus,
--     ThreadStatus, WorkspaceStatus, ConnectionStatus, SpecStatus, ClaimStatus, DeliveryStatus), the
--     identifiers (Domain/Ids, ids.go) and the entities, each in the file of its name: Run, Report, Task,
--     Spec, Thread, Workspace, Connection (integration.go), Tenant, Artifact, Budget, Claim
--     (runclaim.go), Audit.
--   * Correlation (internal/correlation).
--   * Ports (internal/ports): the requests about claims and about the outbox, and their validation.
--   * Store (internal/store/memory): Store/Assoc is Go's map; Store/Claims is runclaims.go, its children
--     hold the proofs; Store/Outbox is outbox.go, with Store/Outbox/Stored for one stored message and
--     Store/Outbox/Retention for the sweep; Sound, Carried and Indexed are what its calls keep, Decisions,
--     Published, Queue and Sweep what it promises. Store/Database is the whole state of store.go, Store/Rows
--     and Store/Page are what its repositories share, and each repository has the file of its table:
--     Runs and Tasks (runs.go), Threads and Specs (threads.go), Tenants and Projects (tenants.go),
--     Workspaces and Artifacts (workspaces.go), Audit and Integrations (audit.go), Events (events.go).
--     Store/Transactor is the unit of work (transactor.go, snapshot.go).
--   * Operators (internal/outboxops): an operator's decision about a dead letter, over the outbox, the
--     event log, the audit log and the unit of work.
--   * Planner (internal/planner): the catalog, the match of a request and the branches (Planner/Branch).
--   * Engine (internal/orchestration): the moves of runs, threads and tasks with their events (engine.go),
--     Engine/Start (StartRun) and Engine/Recovery (recovery.go, exhausted.go), over the repositories, the
--     claims and the unit of work.
--   * Review (internal/review): the deterministic reviewer and its verdict.
--   * Dispatch (internal/outbox): the dispatcher over the outbox, its back-off and its rounds.
--   * Collector (internal/outboxgc): the garbage collector over the sweep.
--   * Policy (internal/policy and internal/domain/policy.go): the policy engine over two stores that are
--     a parameter.
--   * Tests: concrete data, and the theorems at it.
--
-- Correspondence. A type, function or method of the source has its name in snake case; a method takes
-- its receiver as an argument, and what it mutates it returns. An operation of a repository runs
-- under one lock: it is a function from the store to a new store or an error, and an interleaving of
-- callers is a list of calls at instants (Store/Claims/Trace, Store/Outbox/History). `int` and `int64`
-- are 64-bit patterns with their wrap-around; instants and durations are nanoseconds; a string is its
-- bytes. A Go error is its kind and its code. Randomness is an argument. An operation that may fail half
-- way is a function from the state to a state and a result (Store/Transactor), and what it reads of
-- clocks and randomness is a record. JSON, YAML, regular expressions, `strings.ToLower`
-- and `strconv.Itoa` are parameters.
--
-- Bounds. The fencing theorems count the calls that the store has had and ask for fewer than 2 ^ 63, so
-- that a generation does not wrap; the theorems on versions, sequence numbers and messages ask the same
-- of their counters. One loop runs on fuel, the squeezing of dashes in Planner/Branch, with one round for
-- each byte of the name, which is enough since a round that finds two dashes removes a byte. Every other
-- loop goes over a list or a number.
--
-- Not modelled: the PostgreSQL store, HTTP, the command line, metrics, authentication, git and
-- processes, the ticker loops and logging, which are input and output or rest on libraries; and, so far,
-- the worker, the configuration, and the stages of the engine that execute and integrate.
pub mod Prelude
pub mod Domain
pub mod Correlation
pub mod Ports
pub mod Store
pub mod Dispatch
pub mod Policy
pub mod Collector
pub mod Operators
pub mod Planner
pub mod Engine
pub mod Review
mod Tests
