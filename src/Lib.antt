-- ===== src/Lib.antt =====
-- A verification library for energy_agent, an agent that diagnoses energy equipment: it collects evidence
-- with tools, lets people review its results as cases, and indexes cases and documents for retrieval.
--
-- The parts and how they interact.
--
-- Reliability models src/energy_agent/reliability: `CircuitBreaker` of circuit_breaker.py in
-- Reliability/Breaker.antt (allow, record_success, record_failure) and the registry of registry.py in
-- Reliability/Registry.antt. The source shares breakers as objects; here the registry is a table and a
-- call on a breaker is an update under its name.
--
-- Tools models src/energy_agent/tools: `ToolExecutor.execute` of executor.py in Tools/Executor.antt, with
-- the run's budget, the two attempts, the tool log and the calls of the breaker. A handler is a function of
-- the number of the attempt; its result, its exceptions and a cancellation are the constructors of
-- `Response`. The attempts are counted down from the source's two, so that the loop always ends.
-- Tools/Executor/Budget.antt, Breaking.antt and Probe.antt are about a run's budget, the breaker in a call, and
-- the calls that executors make one after another on shared breakers.
--
-- Persistence models the tables of src/energy_agent/persistence/models.py that the services share, and
-- Common/Table.antt a table as an association list. A transaction is one function; one that raises gives
-- the tables back as they were.
--
-- Indexing models src/energy_agent/indexing: the jobs and the transactional outbox of repository.py in
-- Indexing/Repository.antt (requests and publication) and Indexing/Jobs.antt (start, finish, fail, retry),
-- the worker's `consume` of service.py in Indexing/Consumer.antt, and `publish_once` of publisher.py in
-- Indexing/Publisher.antt. There, what an entity's handler does and which messages the broker takes are
-- arguments. Indexing/Calls.antt is the type of any use of the repository; Outbox.antt, Tries.antt and
-- Silence.antt are about what any use leaves of the outbox, the attempts and the messages.
--
-- Cases models src/energy_agent/persistence/repositories/cases.py: reading, creating and editing cases in
-- Cases/Repository.antt, the transitions with their events and index jobs in Cases/Transition.antt, which
-- call the index repository in the same transaction.
--
-- Cases/Service models `CaseApplicationService` of src/energy_agent/cases/application.py over that repository:
-- Requests.antt what a call is given and the texts that it builds, Indexing.antt `_index`, `_tombstone` and
-- `_supersede`, Review.antt patch, submit, review_case and disable, Revision.antt revision and reindex,
-- Diagnosis.antt review_diagnosis and its draft, Timeline.antt the events of src/energy_agent/timeline, and
-- Calls.antt any sequence of calls and of case events of the index worker. What a call meets outside the
-- tables (new ids, the latest results, whether the embedding and the vector store work) is its `Environment`. Lifecycle.antt is the abstract life of a
-- case; Steps.antt the step relation of its table, Outcomes.antt, Rows.antt, Effects.antt, Paths.antt,
-- Additions.antt and Drafts.antt the calls as such steps, Refinement.antt and Conflicts.antt what follows.
-- Each call runs alone: the calls of one transaction do not interleave with those of another.
-- Cases/Handler.antt is the handler of a case event of src/energy_agent/indexing/handler_runtime.py and
-- Cases/Handler/Batch.antt that of a batch of them, with the answers of the embedding, the vector store and
-- the graph as a `Runtime`; Cases/Handling.antt is about its steps on the table of cases, and
-- Cases/Batches.antt about the difference of the two.
--
-- Guardrails models src/energy_agent/guardrails: the decisions of contracts.py in Guardrails/Decisions.antt,
-- the checks of planning.py, generation.py, output.py and input.py in Guardrails/Checks.antt, and
-- `GuardrailService` of service.py in Guardrails/Service.antt, with the `rule_checker` of
-- agent/nodes/diagnosis.py that applies it. Regular expressions, `strip`, `startswith` and the order of texts
-- are parameters. Guardrails/Supported.antt, Planning.antt, Sources.antt and Safety.antt say in terms of
-- their own what the checks let through.
--
-- Retrieval models `deduplicate_and_diversify` of src/energy_agent/retrieval/dedup.py in Retrieval/Dedup.antt,
-- with the candidates of contracts.py in Retrieval/Candidates.antt. A score is a natural number of some
-- unit, and the cosine of two embeddings, computed in floating point, is a test given as a parameter.
--
-- Users models src/energy_agent/users: the rows in Users/Models.antt, repository.py in
-- Users/Repository.antt and Users/Sessions.antt, password.py and jwt.py in Users/Tokens.antt, `AuthService`
-- of service.py in Users/Auth.antt and Users/Refresh.antt, `UserService` in Users/Admin.antt. PyJWT, the
-- password hash, SHA-256 and the folding of Unicode are the fields of a `Library`. Users/Calls.antt is the
-- type of all calls, and Users/Steps.antt the step relation of the table of accounts.
--
-- Agent models the graph of src/energy_agent/agent/workflow.py in Agent/Workflow.antt: its nodes and edges,
-- with the fields of the state that an edge reads; a node is a function of the state, given as a parameter.
--
-- Sessions models `DiagnosisExecutionService` of src/energy_agent/agent/execution_service.py: the state of
-- agent/state.py and the contracts of contracts/diagnosis.py in Sessions/State.antt and
-- Sessions/Requests.antt; the tables, the memory in Redis and their repositories in Sessions/Store.antt;
-- `_memory_payload` in Sessions/Memory/Payload.antt, the initial state of a run in Sessions/Memory.antt,
-- `_response` and `get_session` in Sessions/Memory/Shown.antt; `create_session` in Sessions/Create.antt, with
-- the deduplication of alarms in Create/Alarms.antt and what it writes in Create/Rows.antt; the test of the
-- answers in Sessions/Clarify.antt; `log_step`, `log_tool` and `write_memory` in Sessions/Run.antt;
-- `diagnose` in Sessions/Diagnose.antt, its events, the end of its run and `_explain_previous` in
-- Diagnose/Events.antt, Finish.antt and Explain.antt. A run of the graph is what the service sees of it:
-- the calls of log_step, log_tool and write_memory that it makes, in their order, and its ending, which is an output, a cancellation
-- or an exception; both are a function of the initial state, in the `Environment` of a call. SHA-256, the
-- serialisation of a request and the folding of Unicode are the fields of a `Library`. Sessions/Calls.antt is
-- any sequence of calls, where a memory may expire between two of them; each call runs alone.
-- Sessions/Prepare.antt, Touches.antt, Messages.antt, Steps.antt and Created.antt are about what the calls
-- leave in the tables, and RoundTrip.antt, Answers.antt, Endings.antt, Terminal.antt, Interrupted.antt,
-- Incomplete.antt, Once.antt and Storm.antt about what follows.
--
-- Conventions. Numbers are natural numbers. A time is a reading of the clock in whole ticks and an argument
-- of the function, as are the ids that a call draws. `Outcome` and `Action` of Common/Errors.antt stand for
-- calls that may raise. There is no fuel: every loop of the source is structural here.
--
-- Not modelled: metrics, traces and logs; the columns created_at, updated_at, started_at and finished_at;
-- the snapshots of audits; queries that only list; the cut of texts to their column; failures of the
-- database and of Redis. The validation of a request by its contract, before the call, is left out.
-- Of a diagnosis, the emitted events and a cancellation outside of the graph are not modelled, and a final
-- response is one that its contract admits. The other nodes of the agent, the rest of retrieval and the
-- index handlers of manuals and tickets are not modelled; external systems are not in the repository.
pub mod Common
pub mod Reliability
pub mod Tools
pub mod Persistence
pub mod Indexing
pub mod Cases
pub mod Guardrails
pub mod Retrieval
pub mod Users
pub mod Agent
pub mod Sessions
pub mod Tests
