-- ===== src/Lib.antt =====
-- AutoSentinel: the diagnostic pipeline of the repository, its agents, its budget and its clients.
--
-- Parts, and the files that model them:
--   autosentinel/multi_agent_graph.py      Pipeline, Pipeline/Production
--       The graph of eleven nodes. `execute` is a node's function, `next` its outgoing edge, `visit`
--       one super-step, `drive` and `invoke` a run, `resume` the first step of a resumed run.
--   autosentinel/models.py                 State: the shared state; `write` and `merge` are its reducers
--   the same, `_resolve_checkpointer`      Pipeline/Checkpoints
--   autosentinel/nodes/parse_log.py        Nodes/ParseLog
--   autosentinel/nodes/format_report.py    Nodes/Report, Nodes/Report/Sidecar
--   autosentinel/agents/diagnosis.py, supervisor.py, security_reviewer.py
--                                          Agents/Diagnosis, Agents/Supervisor, Agents/SecurityReviewer,
--                                          over what they share in Agents/Replies
--   autosentinel/agents/_producer_contract.py, code_fixer.py, infra_sre.py
--                                          Agents/Producer
--   autosentinel/agents/_parsing.py        Agents/Parsing
--   autosentinel/agents/_artifact_normalizer.py
--                                          Agents/Normalizer
--   autosentinel/agents/verifier.py        Agents/Verifier
--   autosentinel/agents/prompts            Agents/Prompts
--   autosentinel/llm/errors.py             Effects: exceptions, and calls that change a world and may raise
--   autosentinel/llm/protocol.py           Llm/Protocol
--   autosentinel/llm/cost_guard.py         Llm/CostGuard
--   autosentinel/llm/ark_client.py, glm_client.py
--                                          Llm/Client: one definition, with the texts and the prices of
--                                          each as arguments
--   autosentinel/llm/mock_client.py        Llm/Mock
--   autosentinel/llm/factory.py            Llm/Factory
--   autosentinel/__init__.py               Entry: `run_pipeline`
--   autosentinel/__main__.py               Entry/CommandLine
--   autosentinel/tracing.py                Entry/Tracing: the parent trace, and `run_pipeline` with it
--   autosentinel/api/logging.py            Api/Logging
--   autosentinel/api/results.py            Api/Results, Api/Search
--   autosentinel/api/queue.py              Api/Worker
--   autosentinel/api/main.py, models.py    Api/Routes: submission and status; Api/Resume: resumption;
--                                          Api/Board: what the gateway promises of its jobs, and that it does
--   scripts/run_benchmark.py               Benchmark: `_run_v2` and its loop; Benchmark/Summary,
--                                          Benchmark/Percentile; Benchmark/Publish: `run`;
--                                          Benchmark/Mock: the agents of a mock run
--   autosentinel/benchmark.py              Benchmark/Detail: `_run_v2_detail`; Benchmark/Scenarios: the loader;
--                                          Benchmark/Smoke: `run_benchmark`
--   scripts/run_holdout_eval.py            Holdout
--   scripts/check_scenario_authorship.py   Scripts/Authorship
--   scripts/check_endpoints.py             Scripts/Endpoints
--   scripts/send_real_trace.py             Scripts/Trace
-- Theorems stand mostly in child modules of what they are about; Tests holds concrete runs of them.
--
-- How the parts interact. The graph runs one node at a time, merges the update that the node returns
-- into the state and follows the node's edge. A node's agent asks a client, which checks the request,
-- sends it, bills the response to the process-wide guard and may raise. The graph turns the guard's
-- error into a flag and leaves by a node of its own; any other exception ends the run. The gate stops
-- a HIGH_RISK run; a resumption runs the gate again, with a value. `Pipeline.Approval.Reach` ranges
-- over every sequence of super-steps and resumptions. The gateway stores an alert and queues a job;
-- the worker runs the pipeline on it, which writes the result file, or writes one that says `failed`;
-- the status route and the search read these files.
--
-- Representation. Amounts are integers in one unit of the guard's currency, temperatures integers of
-- thousandths. A double is an opaque record: the code only passes doubles to operations that are
-- parameters. A key of the state that is absent and one that holds None are both `none`.
--
-- Parameters. The provider's SDK, langgraph's savers, docker, git, the dashboard of the traces, files,
-- the clock, random identifiers, and of Python the JSON reader and writer, `repr`, `compile`,
-- `str.lower`, `textwrap.indent`, the parts of a path and the floating-point operations. An exception
-- class has a constructor where some handler tells it apart.
--
-- Bounds. `invoke` takes nine super-steps, the length of the longest path through the graph, and a run
-- resumed at the gate two more: the verifier and the report. A client sends a request twice at most.
--
-- Not modelled: the spans that a client hands to its tracer, and what the components log (no state of
-- the program depends on them); the concurrency and the start of the server (a request, and a job of
-- the worker, is one step); the loop of a mock run, which has agents of its own for each scenario; and
-- the parts of the repository outside the files above.
pub mod Prelude
pub mod Effects
pub mod Python
pub mod Llm
pub mod State
pub mod Agents
pub mod Nodes
pub mod Pipeline
pub mod Entry
pub mod Api
pub mod Benchmark
pub mod Holdout
pub mod Scripts
pub mod Tests
