-- ===== src/Lib.antt =====
-- S2AFL: the runtime of a protocol fuzzer that mutates the seeds of AFLNet with the help of a language
-- model. Threads watch the queue, replay seeds for coverage, schedule mutation tasks and carry them
-- out; they share one sqlite database. The model covers the database, the scheduler, the protocol
-- policies, the split of seeds into messages, the executor of mutation plans, the checks of the worker
-- on seeds, the targets of the knowledge base and the outcome of replays; its files name paths
-- from the repository's root.
--
-- Parts:
--   Prelude     names of the libraries, Boolean tests, lists, integers
--   Table       a sqlite table: rows with a primary key, UPDATE, INSERT, ON CONFLICT, ORDER BY
--   Dict, Text  Python's dict and JSON values; str and bytes as lists of code points
--   StateDb     python/S2AFL/runtime/state_db.py: a record of eight tables (Schema); Events, Seeds,
--               Targets, Tasks, Metrics and Coverage hold the methods of RuntimeStateDB under their
--               own names, each a function on the record
--   Policy      python/S2AFL/runtime/protocol_policy.py
--   Seed        python/S2AFL/runtime/seed_utils.py
--   Scheduler   python/S2AFL/runtime/scheduler.py: tasks (Scheduler), vuln tasks (Vuln), the choice of a
--               batch (Batch) and its end (Life), the context of a boundary task (Context), replay
--               results (Replay); the world is the database and a count of the ids and times drawn
--   Executor    python/S2AFL/runtime/mutation_executor.py: numbers and values (Executor), requests
--               (Requests), line commands (Lines), the filter of candidates (Prefix)
--   Knowledge   python/S2AFL/runtime/knowledge_loader.py: program points and their index (Points), the
--               records of targets and their materialization (Targets), coverage (Coverage)
--   Worker      python/S2AFL/runtime/mutation_worker.py: the seed in the model's answer (Extract), clean
--               messages (Clean), the quality of a seed (Quality), sanitising (Sanitize), bodies and
--               their lengths (Bodies), limits of lines (Limits), the chain of a login (Chain), the
--               validation of a candidate (Validate), the step and context of a task (Context)
--   Replay      python/S2AFL/runtime/coverage_replay.py: the prefix that a trace witnesses (Witness), what a
--               replay counts as (Outcome), the health of replays (Health)
--   Examples    concrete states, the theorems applied to them, and runs
--
-- A method of the database is one transaction under one lock, so that threads are sequences of calls;
-- add_llm_usage alone is two, one for the counters and one for the event.
-- uuid4, time.time(), random.sample, json.loads, Path.name, the floats of a task's priority and of
-- the replay health are arguments; so is the materialization of targets for the scheduler. An
-- IntegrityError is `none`. Texts of seeds are latin-1. The loops that split a seed take the size
-- of the seed and one as fuel, and each round reads a byte or more, so that it is enough; the loop
-- over line commands takes the number of raw messages and one, and reads a raw message or more.
--
-- Not modelled: prompts and calls of the language model, files, processes, logging, threads as such;
-- the look-ups of seeds by LIKE; the plans of the worker and the outcome of its tasks; the steps of a
-- replay; the rendering of requests and the choice of fields in the executor.
pub mod Prelude
pub mod Table
pub mod Dict
pub mod Text
pub mod Policy
pub mod Seed
pub mod StateDb
pub mod Scheduler
pub mod Executor
pub mod Knowledge
pub mod Replay
pub mod Worker
pub mod Examples
