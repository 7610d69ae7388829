-- ===== src/Lib.antt =====
-- A verification library for the provisioned-throughput workspace: a control plane that sells
-- reserved inference capacity, an operator that runs the pools of workers, and the gateway, router
-- and quota coordinator that serve requests against the reservations. It models the parts that
-- decide who may use what: how reservations are placed on pools and counted, how they live from their
-- sale to their end and who holds their keys, which replica of a service leads, what the operator does
-- while nodes drain, how the gateway splits the stream of an answer into events, and which prefixes it
-- expects an engine to have cached.
--
-- The parts, their files here and their files in the repository:
--   * Core (crates/pt-core/src/{tier,shape,term}.rs): latency tiers, the declared workload shape
--     and its test, term lengths. The planner takes its tiers and shapes from here.
--   * Capacity (crates/pt-control-plane/src/capacity.rs, and the capacity of a pool in config.rs):
--     the table of what a capacity unit costs on each pool, and the schedule of capacity to come.
--     `Costs` and `Schedule` are the structs, `share_cost`, `cus_in`, `added_by`, `dates_after` and
--     `schedule_from_config` the methods. Capacity/Arrivals has their laws.
--   * Planner (crates/pt-control-plane/src/planner.rs): `place`, which picks the pool of a claim,
--     with the filters and loops of its body as `is_candidate`, `costed_pools`, `best_fit`,
--     `available_in` and `fit_dates`. Planner/Memory has the methods of `MemoryPlanner` as functions
--     on its state: `reserve`, `release`, `restore`, `check_shape`, `available_at`, `reconcile`.
--     The service above calls `reserve` for each sale and `reconcile` with what the live
--     reservations hold; the runs of sales in Planner/Memory follow that use.
--   * Model (crates/pt-control-plane/src/model.rs): the reservation (`ProvisionedThroughput`), its
--     states, events, deployments and keys; Model/Requests has the bodies of requests, incidents and
--     heartbeats.
--   * Failover (crates/pt-control-plane/src/failover.rs): `failover_targets`, `headroom`, `footprint`,
--     `growth`, `next_heartbeat` and `region_status`, with the loops of their bodies as helpers.
--   * Store (crates/pt-control-plane/src/store.rs): each method of `MemoryStore` is a function on its
--     state. Store/Writes has the writes of other clients as a step relation.
--   * Errors and Validate (service.rs and validate.rs of the same crate): `ServiceError` and what the
--     store's errors become; the checks of a request, one function for each of the source.
--   * Service (crates/pt-control-plane/src/service.rs): operations over the store and the planner, as
--     functions from the service's state to a result and a state (`M`). Service/Create has `create`,
--     Service/Keys `rotate_key` and `revoke_key`, Service/Deployments the three operations on
--     deployments, Service/Delete `delete`, Service/Lifecycle `run_lifecycle` with `renew` and `undo`, Service/Incidents
--     `declare_incident`, `resolve_incident` and `run_failover`, Service/Holds the pauses of sales.
--     Service/Moves has the steps that edit a reservation together with its capacity, `relocate` and
--     `move_capacity`, and Service/Moves/ToPool `move_to_pool`; Service/Update has `update` in four
--     files: `apply_update` is the sequence of its steps in Update/Apply, the regions are Update/Regions,
--     and the request around it is Update/Request. Service/Snapshots has `snapshot`, what a region's
--     gateways are told, with the types of crates/pt-entitlement/src/lib.rs.
--     Service/Queries has the listings, and `restore_capacity` and `reconcile_capacity`, which hand the
--     live reservations to the planner.
--     Service/Runs composes what the steps of an operation leave behind, and Service/Life is the
--     diagram of a reservation's states. The service reads and writes through Store's methods, asks
--     Planner/Memory for capacity and Validate for its checks.
--   * Election (crates/pt-election/src/lib.rs): the lease record, the lease in memory, `validate`,
--     `tick`, `step` and `release` of an elector, and `Leadership`. The backend of the lease is an
--     interface (`LeaseBackend`), and Election/Ticks holds for all of them. Election/Cluster is a
--     step relation on a clock, one record and any number of replicas, in which the read, the write
--     and the answer of a tick are steps of their own, with failures, restarts and releases between.
--     The coordinator (pt-quota) and the operator use it to keep one active replica.
--   * Drain (crates/pt-operator/src/drain.rs): which pods leave cordoned nodes, the replicas that
--     are added meanwhile, and the pause of sales.
--   * Spares (crates/pt-operator/src/spares.rs): which pods of a role are hot spares (`choose` in
--     `assign`), the changes of their labels (`relabel`), and `spares_after`.
--   * Affinity (crates/pt-gateway/src/affinity.rs): which replica of the gateway serves a request
--     (`route`, over the rendezvous ranking `ranked`), and how a replica learns its peers (`new`,
--     `set_peers`, and a round of `discover` as `refresh`).
--   * Sse (crates/pt-gateway/src/sse.rs): the stream inspector's `find_event_end`, `inspect`, `push`
--     and `finish`, on bytes; how an event's data is read as JSON is the interface `Reader`.
--   * PrefixCache (crates/pt-admission/src/prefix.rs): the index of recently sent prefixes, with
--     `record` as `record_keys`, its two loops as `write_all` and `evict`, `fresh` and `predict`.
--   * Base: names passed on from the libraries, Boolean tests, equality as an interface, lists over
--     the native numbers, association lists for maps, machine words and a result type.
--
-- Conventions. Numbers are natural numbers; an operation of `u64` or `u32` that can wrap is reduced
-- by `w64` or `w32`, as in release builds, a saturating subtraction is the subtraction of ℕ, and a
-- panic is a result of its own. A float stands as its 64 bits where the code only carries it, and
-- where the code tests or computes with one, the test or the result is a parameter. Dates, instants
-- and durations are numbers in one unit (milliseconds in Service). An operation of the service reads the clock once, takes its random ids and secrets as
-- arguments, and runs to its end before the next one: what other clients do between its read and its
-- write is the subject of Store/Writes, and of Service/Moves/Restored for a move. Log lines are left out. A `HashMap` is an association list, iterated in list order; where an order of iteration could matter, a theorem
-- holds for every list. A method that holds a lock throughout is one step on the state under it.
-- Loops are structural recursion on a list, but for two that run on fuel: `push` in Sse on the length of
-- the buffer, which is enough since each event takes bytes off it, and the `while` of `run_lifecycle` on
-- one more than the present time, which is enough since each renewal ends later than the one before.
--
-- Bounds. On the planner, what a pool will ever have and what a sale costs on it are asked to fit in
-- 64 bits, as hypotheses; on the surge, replica counts are asked to fit in 32. The election in a
-- cluster bounds the time that a read may take (`delay`) and lets every other delay be arbitrary;
-- versions of the record grow with each write.
--
-- Not modelled: of the service, the rebalancing run, steering and the publishing of snapshots (their
-- signatures are a library's); the prorated charge of an increase is a parameter of the updates; the floats of pricing, calibration and shapes (the table of costs is given); the
-- planner on a database (sql_planner.rs), the HTTP interfaces, configuration files, the
-- Kubernetes objects and clients, telemetry and the mock engine, which are glue around libraries;
-- the run loops of the election, which are asynchronous; and the request path (the rest of
-- admission, the gateway's proxying, router, quota).
pub mod Base
pub mod Core
pub mod Capacity
pub mod Planner
pub mod Model
pub mod Failover
pub mod Store
pub mod Errors
pub mod Validate
pub mod Service
pub mod Election
pub mod PrefixCache
pub mod Drain
pub mod Spares
pub mod Affinity
pub mod Sse
