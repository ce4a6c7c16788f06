-- ===== src/Lib.antt =====
-- A verification library for AADS: the part of the system that decides on repair plans and runs them.
--
-- The program. Log lines are buffered for the anomaly detector (logbert), filtered (layer1-filter), and
-- the anomalies clustered (layer2-analyzer). The analyzer turns the repair of a cluster into a plan, which
-- its models check, and stores it in the database. A human approves, rejects, resumes or aborts plans on
-- the gate console (dashboard/app.py), which queues executions. The executor
-- (layer4-executor/src/executor.py) polls the queue, checks a plan again, and sends the commands of its
-- steps to the On-Device Agent of the target node (pi-agent/src/main.py), which checks each command
-- against the plan's execution profile (pi-agent/src/safety_cards/policy_card.py) before it launches a
-- process. Analyzer, gate and executor meet in the database only, executor and agent in one HTTP request.
--
-- The files.
--   Prelude, Python: shared names; JSON values with the dict operations of Python, and exceptions as
--     values. Numbers of JSON are integers.
--   Policy: profile_allows of policy_card.py with posix normpath (NormPath) and its specification (Spec).
--   Agent: pi-agent/src/main.py. run_command and CommandRunner.run, the hooks (Card), health_problems
--     (Health). A handler returns its response and the processes that it launched.
--   Store: the tables of layer0-storage/timescaledb/migrations that gate and executor share, as lists of
--     rows. An approval or execution that is inserted stands first, so that the order of time is that of
--     the list. Columns that nothing reads (the details of audits and escalations, times of audits) are
--     left out.
--   Executor: executor.py. Validate and Order (validate_plan and the order of steps), Effect (actions on
--     tables, clock and sent requests, which may raise and then keep what was written), Runner
--     (run_runner_command with retries and the node lock), Observe (apply_extractors, matches_expected),
--     Step (run_verification, execute_fixing_step, ensure_snapshot, rollback), Close (pause_execution,
--     finish_execution, import_knowledge_case), Recover (load_node, recovery_start_index), Plan
--     (execute_plan, one function for each stage between its early returns), Poll (process_one).
--   Gate: dashboard/app.py. approve_plan, reject_plan, resume_plan, abort_plan; Queue (queue_execution),
--     Auto (plan_auto_allowed, first_target_node). A handler gives its answer with the tables after it.
--   Catalog: layer2-analyzer/src/runner_catalog.py. The tables of probes and mutations and the functions
--     that choose from them; Profile (execution_profile_for).
--   Schema: layer2-analyzer/src/schemas/action_plan.py. The models of FixingPlan as records, with each
--     validator a test of the record; Dump gives the JSON that is stored.
--   Analyzer: layer2-analyzer/src/main.py. Lab (_ensure_lab_node_agent_steps), Convert (_to_fixing_plan
--     with _assert_plan_matches_evidence), Storing (store_diagnosis, _plan_auto_allowed,
--     _queue_auto_execution and the policy of a tainted investigation).
--   Guard: layer2-analyzer/src/log_guard.py. The scan of tool outputs for injected instructions, the fence
--     around them, and the findings of an investigation.
--   LogBuffer: logbert/src/log_buffer.py. Its coroutines are tasks whose steps interleave (Step): a flush
--     waits for the lock, calls back while it holds it, and leaves.
--   Filters: layer1-filter/src/pipeline.py and filters/base.py; Pattern (filters/pattern_filter.py).
--   Clusters: layer2-analyzer/src/root_cause_analyzer/anomaly_aggregator.py; Summary
--     (layer2-analyzer/src/aggregator/map_reduce.py).
--   Tests: the theorems at concrete inputs.
--   The other modules below a part hold what is proved of it.
--
-- Parameters. What the program calls is an argument of the model: the behaviour of processes (Host), the
-- digests (Digests, plan_sha256), the agent's answers with the seconds they take, the formatting of values,
-- int, re and json.loads on texts, the insertion of a knowledge case (Env), and the settings; of the lower
-- parts the operations on floats (Floats, Scores), datetime.fromisoformat, re.search, re.sub, the
-- category of a character, lower, and predict of a filter. The clock of the executor runs while the agent answers and, in each attempt of a command, for
-- the database writes around it; other writes take no time. Fresh ids are numbers that are never reused.
--
-- Loops. All loops are structural: over the steps, rows, permissions and hooks, and the attempts of a
-- command by the number that is left. No fuel is used. The endless loop around process_one is not modelled.
--
-- Not modelled: conversions of pydantic between types; concurrency of several executors beyond the atomic statement that takes a lock; the types
-- that database columns enforce on JSON numbers and texts; the webhook of pauses; the evidence and the
-- confidence of a plan, the prompts and the reuse of diagnoses in the analyzer, detect_cascade_failures and
-- the text of a summary; what a pipeline keeps when one of its filters raises, and its times; the cancellation
-- of the timer of the buffer in mid-flush; the stores, the ingester, the detector and its
-- clients, the archiver, and the read-only views of the console.
pub mod Prelude
pub mod Python
pub mod Policy
pub mod Agent
pub mod Store
pub mod Executor
pub mod Gate
pub mod Catalog
pub mod Schema
pub mod Analyzer
pub mod LogBuffer
pub mod Filters
pub mod Clusters
pub mod Guard
pub mod Tests
