-- ===== src/Lib.antt =====
-- Verification of jesterky: the part of a workflow run that decides what is recorded and what the
-- verdict is, and the proxy and the limiter between its agents and their model providers.
--
-- A workflow is a graph of nodes. The runner (crates/jesterky-core/src/runner.rs) resolves a node's
-- inputs in a ledger, runs it, writes its outputs back to the ledger, emits events with structural
-- addresses, and acquires named limits around sessions. At the end it checks the manifest of the
-- run, and goals and grounding give the verdict. The parts and their files:
--
-- * Ledger models crates/jesterky-core/src/ledger.rs. Ledger/Refs has the syntax of references
--   (`item_source_and_path`, `ledger_key_and_path`), Ledger/Paths the walks and writes inside a
--   value (`walk_path`, `store_json_path`, `store_ledger_path`), Ledger/State the ledger itself
--   (`bind_item`, `restore_item`, `resolve`, `resolve_bindings`, `store_outputs`). A write through
--   `&mut` returns its result and what stands there afterwards.
-- * Limits models crates/jesterky-core/src/limits.rs. One poll of the future of `acquire` is `poll`,
--   dropping a guard is `release`; the Mutex makes each of them one step. Limits/Schedule has the
--   tasks, their guards and the parked futures as a step relation.
-- * Event models crates/jesterky-contract/src/event.rs with the derived equality and order.
-- * Clock models `emit` and `peek_next_addr` of crates/jesterky-core/src/runner.rs on the counters
--   of `RunCtx`. The sink keeps the order of the calls; times come from the caller.
-- * Runner models the rest of crates/jesterky-core/src/runner.rs. Runner/Seam has the host of
--   crates/jesterky-core/src/traits.rs as a record of functions over a state of its own, and
--   `RunCtx`, split into what nodes change and what they only read; Runner/Monad the steps that pass
--   a ledger and that state along and stop at an error, as `?` does. Runner/Nodes, Runner/Fan and
--   Runner/Execute are the arms of `execute_node_with_ledger`, `execute_map` and `execute_for_each`;
--   Runner/Readings is what nodes make of values; Runner/Run and Runner/Manifest are `run` and
--   `build_manifest`, Runner/Trace is `build_trace`. Runner/Keeps says what every step of a node
--   keeps, and Steps, FanSteps, LimitSteps, NodeSteps and RunSteps carry it to nodes and runs.
-- * Goal models crates/jesterky-contract/src/goal.rs, Grounding and Artifact/Verdicts model
--   crates/jesterky-contract/src/grounding.rs, and Artifact models
--   crates/jesterky-contract/src/artifact.rs with every check of `InvariantReport::compute`.
-- * Topology models crates/jesterky-contract/src/topology.rs: the references and nodes, `validate`
--   with `validate_node`, `detect_cycles` and `reachable_nodes`, and `validate_and_hash`.
-- * Budget models the plan of caps with its overlay, `BudgetEngine::snapshot` and `forecast_eta` of
--   crates/jesterky-contract/src/budget.rs, and Overlay the merge of plans that goal.rs and
--   budget.rs share.
-- * Limiter models crates/jesterky-model/src/limiter.rs: Limiter/Defs what each method does under the
--   lock, Limiter/Notify what it uses of tokio, Limiter/Schedule the tasks that share a limiter.
-- * Proxy models crates/jesterky-proxy/src. A connection (Proxy/Server, server.rs) is authorised; its
--   request becomes a chat payload (Proxy/Convert, convert.rs) for the provider that Proxy/Route
--   (route.rs) resolved; the payload is charged to a ledger on disk (Proxy/Budget, budget.rs) before
--   it is sent; and the reply becomes a stream of events (Proxy/Sse, sse.rs). Proxy/Sse/Client is a
--   client of that stream by the rules of the Responses protocol. Server/State has what a server
--   keeps, Server/Wire what a response is on the wire, Server/Handle `handle_connection` and
--   `handle_responses` on a request that is read, Server/Sends and Server/Spent what they send and
--   spend, Server/Harvested and Server/Returned what becomes of the signatures of tool calls.
-- * Json, F64 and Prelude stand for what the source uses of its languages: values and their
--   accessors, IEEE 754 doubles over their 64 bits, strings, maps and results. Tests has runs of the
--   code and of the theorems at concrete inputs.
--
-- Maps are association lists; `BTreeMap` keeps its keys in order and `HashMap` does not iterate
-- here, so an entry is found by its key alone. Machine integers wrap where the source counts:
-- `u32` in the clock, the indices of a path and the goals, `u64` in the grounding tally. The loops
-- are structural recursion; `decimal` prints numbers of at most 100 digits, and a `u64` has 20.
-- Three searches run on fuel: `detect_cycles` on one more than the number of nodes, as a visit nests once for each node;
-- `reachable_nodes` on the number of entrypoints and branches, as each of them puts one node on the
-- stack; and a node on the depth of nodes in nodes and of branches, which Runner/Ends bounds. A run
-- is one task whose host answers at once: the futures of a fan run in the order in which
-- `join_all_ordered` polls them, and a wait for a permit that this task holds never ends. Clock and
-- Limits cover the interleavings of several tasks.
--
-- Parameters: the host; `serde_json::from_str` (`from_str`, and `is_json` for whether it succeeds),
-- `to_vec`, `to_value` and `from_value` of a plan or a specification, the digest of sha2, and the
-- `Display` and `Debug` texts of values, floats, paths and addresses. Of the proxy: the disk and
-- `std::path` (Proxy/Files, with the laws of a file system), the provider, the clock, `hex24`, the
-- UTF-8 of a text, and what serde derives to read requests, responses and ledgers. Of the limiter:
-- `Notify` of tokio, with its laws.
--
-- Not modelled: the handles of crates/jesterky-core/src/session.rs, the model clients, the
-- sandboxes, the terminal panels, the quality programs and the command line, which are I/O or
-- programs for particular workflows. Of the proxy, its sockets, the reading of HTTP requests and the
-- connections that run at the same time: Server/Spent handles them one after the other, while the
-- file lock of `reserve` and the runs of Proxy/Budget cover other processes.
pub mod Prelude
pub mod F64
pub mod Json
pub mod Ledger
pub mod Topology
pub mod Proxy
pub mod Runner
pub mod Tests
pub mod Limiter
pub mod Limits
pub mod Event
pub mod Clock
pub mod Overlay
pub mod Goal
pub mod Budget
pub mod Artifact
pub mod Grounding
