-- ===== src/Lib.antt =====
-- Reconductor, a platform for security reconnaissance in Go: workflows of steps, each of which runs
-- a capability, under a scope of permitted targets, a policy and a budget of parallel work.
--
-- The parts, and the files that model them:
--
--   Policy, Policy/*       internal/policy/policy.go: `EvaluateAt` is `evaluate_at`, the scan windows
--                          stand in Policy/Window, `ParallelShare` is `parallel_share`.
--   Capability,            internal/capability/capability.go: `Registry.Execute` and `Validate` are
--   Capability/*           `execute` and `validate`; they authorize a request by `authorize`, which
--                          asks the policy and writes the audit. Capability/Multi is `Multi`.
--   Scope, Scope/*         internal/scope/scope.go: `Compile` is `compile`, `Allows` is `allows`.
--   Workflow, Workflow/*   internal/workflow/workflow.go: `Validate` is `validate` of Workflow/Checks,
--                          over the graph of Workflow/Graph with `topological`; `condition` is that
--                          of Workflow/Condition, `resolveInput` that of Workflow/Input. `Run` is
--                          `run` of Workflow/Run: each turn of its loop is `one_round`, which plans
--                          a wave (Workflow/Plans), executes it and records its outcomes
--                          (Workflow/Wave) with the records of Workflow/Records. The attempts of
--                          `executeStep` are `run_attempts` of Workflow/Attempts.
--   Budget, Budget/*       internal/budget/limiter.go: `Local` with `Acquire` and its release
--                          functions as steps of a system of leases; Budget/Hosts is
--                          `HostsFromInput`.
--   Findings, Findings/*   internal/findings/lifecycle.go: `Transition` and `Verify`.
--   Recon, Recon/*         internal/recon/pipeline.go: `Validate` and `Capabilities`.
--   Assets, Assets/*       internal/assets/changes.go: `Compare`.
--   Queue, Queue/*         internal/queue/streams.go: `Enqueue`, `Fail`, `PumpRetries` and the other
--                          operations of `Streams`, as the commands that they give to Redis.
--                          Queue/Dispatch is `Dispatch` of internal/queue/dispatcher.go.
--   Worker, Worker/*       internal/worker/service.go: `handle`, over the queue, the scope, the budget
--                          and the registry.
--   Artifacts, Artifacts/* internal/artifact/retention.go: `PurgeExpired`.
--   Domain, Errors, Json   internal/domain/models.go without its timestamps, Go's errors, and decoded
--                          JSON values.
--   Strings, Sorting,      what is used of Go's `strings` and `sort`, maps as association lists, and
--   Prelude                the names and lemmas that the files share.
--
-- How they interact: a workflow is validated against a registry of capabilities, ordered, and run
-- step by step; a step takes a lease of the budget for its hosts and is a request to the registry,
-- which the policy and the scope decide on. A job is such a request that is
-- dispatched to the queue and handled by a worker, which executes it, stores the result and
-- acknowledges it.
--
-- State. What a capability, an audit store or a clock does to the outside is a state `W` that the
-- operations take and return. The limiter's mutex makes each of its operations one step, and a run
-- of it is a list of calls in any order. The searches of a workflow's graph recurse on fuel, one more
-- than there are steps, which is proved to be enough for the visits of `Validate` and, on workflows
-- that it accepts, for `topological`. The attempts of a step recurse on how many are left.
-- The loop of `Run` recurses on fuel, one turn more than there are steps, which is proved to be
-- enough. The steps of a wave are goroutines: their effects on the outside are taken one step after
-- another, in any order in which they may end, which is a parameter, as are the contexts and controls
-- of a run.
--
-- Parameters stand for code outside the repository: regular expressions, URL parsing, SHA-256 and
-- JSON encoding (`Library` of Scope), decoding of JSON inputs and outputs, `net` for hosts, Redis
-- and the clock (`Streams` of Queue).
--
-- Not modelled: `Controls` and the timeouts of contexts, the worker's loops, the execution service,
-- the stores, targeting, classification, the adapters to external tools, configuration and the
-- commands.
pub mod Prelude
pub mod Strings
pub mod Sorting
pub mod Errors
pub mod Json
pub mod Policy
pub mod Domain
pub mod Capability
pub mod Scope
pub mod Workflow
pub mod Budget
pub mod Findings
pub mod Recon
pub mod Assets
pub mod Artifacts
pub mod Queue
pub mod Worker
