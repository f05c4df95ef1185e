-- ===== src/Lib.antt =====
-- Fortify Lab Manager: the components that decide what may run, in which order, who allowed it,
-- what is left behind when it ends, and what evidence is kept of it.
--
-- The Manager installs and operates a lab of services. The operation engine
-- (manager/operation_engine.py) turns a request into ordered steps by the component registry
-- (manager/component_registry.py), asks the authorization service (manager/authorization.py) for
-- permission, stores the operation and runs its steps, while other threads may cancel it. The
-- availability monitor (manager/availability.py) probes the Web services that the registry names.
-- The health evaluator (manager/health.py) looks at the subjects in dependency order and derives
-- the state of the environment from evidence. The recovery service (manager/backup_restore.py)
-- makes backups and restores them, and an upgrade (manager/profile_upgrade.py) changes one
-- component after the other and recovers from what it may have changed when it stops; both have
-- workers of their own, while other threads may cancel them. The runner of issues keeps heartbeats
-- (manager/runner_heartbeat.py) and acts within the autonomy policy
-- (supervisor/autonomy_policy.py).
--
-- Which file models what:
--
-- - Prelude: shared names. Prelude/Tests has the Boolean tests, Prelude/Lists the lists,
--   Prelude/Table dictionaries and tables with a primary key as association lists, Prelude/Texts
--   the order and the prefixes of texts, Prelude/Exec methods that change an object and may raise:
--   what was written before a raise stays written.
-- - Authorization: Policy has identities, risks and plans; Ledger is ApprovalStore, its two tables;
--   Service is AuthorizationService, method by method. A method that loads a document and acts on
--   it later is two parts (approve_loaded, authorize_loaded, revoke_loaded), so that an
--   interleaving of other threads can be put between them.
-- - Registry: Components is the dictionary and its look-ups, Closure and Order are
--   dependency_order: include is its depth-first search, link and edges build the graph, drain is
--   Kahn's loop.
-- - Operation: Types, Identifier and Plan lead from a request to steps; Store is OperationStore,
--   and reopen its constructor on old tables; World has the collaborators and the other threads,
--   Run is _run with _execute_step, Submission is _prepare, _prepare_steps, submit and retry, and
--   Resume the resumption of a clean install in retry_async.
-- - Heartbeat: Phases has the enumerations and the classification, Beats is HeartbeatStore.
-- - Autonomy: Policy is _effective and the profiles, Files is load_policy and replace_policy.
-- - Availability: Probe is the classification of a probe, Routes the endpoints and approved routes,
--   Monitor the claims, the backoff, the history and the report.
-- - Health: States, Checks and Evidence are the enumerations, the checks with the answers of the
--   probe, and the evidence made of them; External is the evidence of the routes, Dimensions and
--   Evaluation one subject, Subjects the list from the registry, Document the whole document with
--   suppression, suspected root causes and impact.
-- - Recovery: Types and Store are destinations and RecoveryStore, Service the requests and the
--   cancellation, World has the privileged helper and the other threads, Worker is _run_backup and
--   _run_restore.
-- - Upgrade: Types has the documents and rows, Evidence the profiles, transitions and observations,
--   Planning is plan, Submission is submit and consume_plan, Cancellation is cancel and the
--   constructor of UpgradeStore on old rows (reopen), World what is outside of a run, Rollback is
--   _recover and Run is _run of ProfileUpgradeService.
--
-- The other modules of each folder hold its lemmas and theorems, and Samples or Scenarios its runs.
--
-- What stands outside the code is a parameter: the order in which Python walks a set (walk),
-- SHA-256 over canonical JSON (digest), clocks, the adapter and the verifier of steps, and the
-- requests of other threads (World, functions of a counter of reads or of moments), the client of
-- the privileged helper and the adapter and verifier of upgrades (the World of Recovery and of
-- Upgrade), the probe of health with what its futures hold, the redaction of sanitize_record
-- (redact), the reading and writing of times (parse, render), the network (Network), and what
-- Python's text methods and regular expressions say (Names, Texts). Identifiers from uuid4 are
-- arguments.
--
-- Numbers: times are natural numbers, in microseconds in Authorization, Autonomy and Heartbeat, in
-- milliseconds in Availability, where due times are hundredths so that the jitter is exact; in
-- Recovery and Upgrade a clock is a function of the moments that have passed.
--
-- Fuel: the depth-first search gets one more than the number of registered components
-- (include_fuel), and Kahn's loop one more than the length of the closure; that neither bound is
-- reached is one of the results below. All other loops are structural recursions: the attempts at a
-- step recur on the attempts left, the boundary checks happen at the points where the code has
-- them.
--
-- Not modelled: files, locks, sockets, SQL and threads as such (a lock makes a method one step, a
-- transaction one update), the descriptions for clients, the lab plans with their submission and
-- resumption, the evidence that a clean install asks for before it is submitted, and the protocol
-- of the privileged helper. An upgrade whose clock or store raises is not modelled either; one
-- whose adapter or verifier raises is. The front ends, the Kubernetes observer, the supervisor,
-- preflight, the migration of configurations and the messages are not modelled: they mostly read
-- and write outside of the program (files, sockets and other commands).
pub mod Prelude
pub mod Authorization
pub mod Registry
pub mod Operation
pub mod Heartbeat
pub mod Autonomy
pub mod Availability
pub mod Health
pub mod Recovery
pub mod Upgrade
