-- ===== src/Lib.antt =====
-- CrossCodex: models of the parts of the program that decide what is kept, dropped, purged and
-- addressed, and theorems on them.
--
-- The program analyses catalogs of controls for tenants. A pipeline publishes tasks on NATS subjects;
-- workers take the tasks and publish results; a collector waits for them, and may abandon a
-- collection of tasks, whose tasks the workers then drop; analyzers are registered and run in an order
-- that their dependencies allow; results and derived facts go to a graph per tenant; a retention sweep
-- archives and purges what has outlived its retention.
--
-- Files and the code that they model:
-- - Tenant: ValidateTenantID, pkg/tenant/validate.go.
-- - NatsBus.Subjects: the builders of subjects and ParseAbandonedSubject, pkg/natsbus/subjects.go. It
--   uses Tenant for the tenant's part. uuid.Parse is the parameter is_canonical_uuid.
-- - Worker.Abandoned: the set of abandoned collections, internal/worker/abandoned.go. The mutex makes
--   each method one step on a record; the clock is an argument; an index out of range is `none`.
--   Worker.Abandoned.Queue states what the set promises; Histories runs sequences of its calls, and
--   Queries follows one collection through them.
-- - Worker.Control: handleAbandoned, rejectControl and dropAbandoned of the same file, which join the
--   subjects to the set.
-- - GraphDb.Types, GraphDb.DerivedId and GraphDb.Checks: the records, derived IDs and checks of
--   pkg/graphdb/types.go, edges.go and identifier.go.
-- - GraphDb.MemDriver: the in-memory driver, pkg/graphdb/memdriver/client.go and props.go. The state
--   is an association list from tenants to graphs; a pointer to a node is its place in the list of
--   nodes, which never shrinks. Writes is the type of the writing calls. Go's floating-point numbers,
--   integers and time formats are the record Formats. Walk runs on fuel, one more than the number of
--   edges, which is enough since a path repeats no edge.
-- - Retention.Duration: ParseRetention, pkg/config/types.go, with durations modulo 2^64.
--   Retention.Policy: Expired and the tiers, pkg/retention/tier.go; Governing says which text governs
--   a class of a tenant. Retention.Hold: hold.go.
--   Retention.Engine: Scan, pkg/retention/engine.go; archiver, purger and audit publisher are one
--   parameter, whose answer may depend on all earlier calls.
-- - Analysis.Collector: the collection of task results, internal/analysis/collector.go and types.go.
--   The handler of a result is a function on the shared variables; Steps is the relation of what the
--   handler, the retries, the monitor, AwaitResults, release and abandon do, one step for what a
--   goroutine does under a lock or on a channel. structpb's decoding and strings.ToLower are
--   parameters; timers fire whenever they like. Prepare joins PrepareCollect to the subjects and to the
--   workers that obey the collection's abandon.
-- - Analyzer.Registry and Analyzer.Dag: the registry of analyzers and the plans of their execution,
--   pkg/analyzer/registry.go and dag.go. Kahn's levels run on fuel, one more than the names, since no
--   level is empty; the walk that finds a cycle, on as much, since it repeats no name; the walk of
--   Subset, on one more than the nodes, since each call adds one.
-- - Analyzer.Candidates: the union of candidate pairs, pkg/analyzer/candidate/aggregation.go.
-- - Pipeline.Stages: the stages of a job and the check of its analyzers, internal/pipeline/stages.go.
-- - Examples: the theorems applied to concrete inputs. Prelude: what the others share.
--
-- Conventions: a string is a list of bytes; a time is a number of nanoseconds from Go's zero time; a
-- Go map is an association list of which a read finds the first entry; an error is a constructor
-- that carries what its text names. A loop is structural recursion where nothing else is said.
--
-- Not modelled: clients of databases, object stores, NATS and language models, command lines and RPC
-- servers, logs and telemetry, and the parts of the analysis that are listed as such beside this
-- library: their code is input and output or lies in third-party packages.
pub mod Prelude
pub mod Tenant
pub mod GraphDb
pub mod NatsBus
pub mod Worker
pub mod Retention
pub mod Analysis
pub mod Analyzer
pub mod Examples
pub mod Pipeline
