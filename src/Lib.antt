-- ===== src/Lib.antt =====
-- DevHarness: a service that repairs failing pipelines. An orchestrator reads bug reports from a Redis
-- stream, starts a worker for each bug or sends the bug to a daemon on another machine, and watches the
-- workers; a worker runs a graph of nodes that reads the trace, asks a language model for a fix, applies
-- and tests it, has it reviewed, and opens a merge request.
--
-- Base holds what the other modules share: numbers and their Boolean tests, integers, lists, a dict as
-- an association list in insertion order (Base/Dict), the sorting of texts (Base/Sorting), and texts as
-- code points with Python's strip and int (Base/Text).
--
-- Worker/Budget models bf_worker/services/budget.py: `RunBudget` with `check`, `is_exhausted` and
-- `record_call`. Times are milliseconds and money is in whole micro-dollars.
-- Worker/Graph models bf_worker/graph: the keys of the state that decide control flow (State, from
-- state.py), the routers (Routing, from routing.py), the edges (Builder, from builder.py), the loop of
-- model calls in one node (ReactLoop, from nodes/react_loop.py), and every node (Nodes, with Nodes/Apply
-- and Nodes/Review). What the provider, the model, the shell, the CI and the inspector answer during a
-- visit is an argument (World), and `none` as a result is an exception of the node. Run composes them as
-- `graph.invoke` of bf_worker/agents/langgraph_agent.py does; its fuel bounds the visits, and 169 are
-- enough for the default budget: every way around a cycle uses up a model call or a counted retry. The
-- recursion limit of LangGraph and its checkpoints are outside.
--
-- Orchestrator/Registry models orchestrator/models.py and orchestrator/registry.py,
-- Orchestrator/Spawner the subprocess spawner of orchestrator/spawner.py, Orchestrator/Monitor the
-- health monitor of orchestrator/monitor.py. Redis, the processes and the clock are answers.
--
-- Orchestrator/Dispatcher models the choice of a daemon in orchestrator/dispatcher.py, with the cache of
-- heartbeats and the pointer of the turns, and Orchestrator/Dispatcher/Tasks what a dispatch asks of
-- Redis. Worker/TransientRetry models bf_worker/services/transient_retry.py. LlmGateway models the
-- inference policy of llm_gateway: its validation (config.py) and the choice of a backend (policy.py).
-- Orchestrator/DaemonMonitor models orchestrator/daemon_monitor.py on top of the dispatcher.
-- Orchestrator/Consumer models orchestrator/consumer.py, with at most 100 passes of the drain as in the
-- source, and Orchestrator/Router models orchestrator/router.py.
-- Worker/Usage models the billable tokens of a response, as bf_worker/services/budget.py and
-- llm_gateway/cost.py read them.
-- Worker/ApplyPatch models bf_worker/services/apply_patch.py: how a change is anchored to a line and what
-- is put in its place.
-- Worker/Daemon models bf_worker/worker_daemon.py, with the workers that run beside the table of them.
-- Worker/Guards models bf_worker/services/patch_guard.py and fetch_guard.py over a file system that
-- resolves paths. Worker/StepCheckpoint models the file store of bf_worker/services/step_checkpoint.py over
-- directories of files, with the hash as a parameter and a clock in whole units.
-- Orchestrator/Parser models orchestrator/parser.py after the JSON was read, with the class of digits as a
-- parameter, and Orchestrator/Handler the handler of a message in orchestrator/orchestrator.py.
-- Worker/Ledger models the commands of bf_worker/agents/mini_resume_env.py in a container, with the death of
-- a worker between or within the calls that change it (Kills, Crashes), and Worker/Resume the records and
-- the resume of bf_worker/agents/mini_resume.py.
-- Base/Split holds Python's split and join at one character, and Base/Json the values of json, with whole
-- numbers only.
-- LlmGateway/Config holds llm_gateway/config.py, Keying, Params, Costs and Cache the files of these names
-- (keying.py, params.py, cost.py, cache.py), Forward the calls of a backend and Server the completion
-- endpoint of llm_gateway/app.py: Server/Answers what follows a lookup or a call, Server/Chat the handler. What
-- json, hashlib, re and str.format compute is the record Outside, and what a request meets (the clock, SQLite,
-- the identity services, the backends) the record World. A price is a whole number of a unit of money
-- and a cost is exact, where the source computes in floats; texts have no lone surrogates; the
-- counters of prometheus other than the two of money are not modelled. One request is served at a time.
-- Tools/CacheTransfer models the export and the merge of caches by tools/llm_cache_transfer.py, and composes
-- them with the gateway.
-- Prompts, telemetry, providers, the container, ECS and Kubernetes spawners, the web servers, the
-- inspection and evaluation tools are not modelled: they are I/O around the parts above.
pub mod Base
pub mod LlmGateway
pub mod Orchestrator
pub mod Tools
pub mod Worker
