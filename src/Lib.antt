-- ===== src/Lib.antt =====
-- MiniAlpha: a research assistant over financial data. This library models the parts of its Python
-- backend that keep the state of conversations, cut answers into events, isolate tool failures and
-- reuse answers, with theorems on what they promise to each other.
--
-- The parts, and how they meet. A request is admitted as a run of a thread by the conversation
-- repository (app/persistence/memory.py); the agent calls tools through the isolated executor
-- (app/agent/tool_executor.py), whose failures are structured (app/agent/failures.py) and retried
-- (app/agent/retry.py); the service around the agent (app/services/thread_research.py) turns what it
-- streams into the run's events, numbered by their producer (app/events/models.py), and ends the run
-- in the repository, with its artifacts validated (app/persistence/artifacts.py); the worker
-- (app/services/run_manager.py) executes queued runs, records their events in a channel and publishes
-- them to a transport with a local fallback (app/events/store.py). A stateless answer may be kept in
-- the two cache tiers (app/cache/stores.py) for as long as the ages of its sources allow
-- (app/cache/policy.py). The claims of an answer are verified against its artifacts before it is
-- delivered (app/grounding). Requests belong to the account of a session (app/auth).
--
-- Files:
--   Common                  the names that the modules share; dicts as association lists in insertion
--                           order, Python objects as values, sorting, texts, lists over native numbers
--   Persistence/Models      the records of app/persistence/models.py and the errors of repository.py
--   Persistence/Artifacts   parse_artifact of app/persistence/artifacts.py
--   Persistence/Memory      the methods of InMemoryConversationRepository that write: admit_run,
--                           complete_run, fail_run, recover_abandoned_runs, cancel_run
--   Persistence/Memory/State, Reader
--                           the four tables; the methods that read
--   Persistence/Memory/Invariant, Transition, Effects, Recovery, Histories, Calls, Outcomes, Failing,
--   Persistence/Memory/Admitting, Storing
--                           the invariant, the two ways in which the tables change (a run ends, a run
--                           is admitted), the methods as such changes, one call and sequences of calls
--                           against them, and the artifacts that are stored
--   Agent/Failures          StructuredFailure, failure_for_financial_error, parse_structured_failure
--   Agent/Retry             RetryPolicy and retry_async
--   Agent/ToolRegistry      ToolRegistry of app/agent/tool_registry.py over any tools that have a name;
--                           Groups is about the tools of groups
--   Agent/ToolExecutor      IsolatedToolExecutor, with its messages in Message
--   Events/Models, Events/Store, Events/Resilient
--                           RunEventProducer, InMemoryRunEventStore, ResilientRunEventStore
--   Cache/Models, Cache/Policy, Cache/Stores, Cache/Coordinator
--                           the records of app/cache/models.py, evaluate_artifact_ttl, the in-memory
--                           tiers, and CacheCoordinator over any two tiers
--   Cache/Results           serialize_research_result and deserialize_research_result of
--                           app/cache/research_results.py; RoundTrip is about them
--   Auth/Accounts           InMemoryAccountRepository of app/auth/memory.py, with its tables' invariant in
--                           Invariant, and what keeps a session in Held
--   Auth/Service            AuthService of app/auth/service.py; Sessions is about the sessions it grants,
--                           Resolving about their tokens, Calls about later calls
--   Research/Models         the data of app/services/research_agent.py; one run of the agent as the items
--                           that it streams and how it stops
--   Research/Thread         prepare_stream, _stream and _replay of ThreadResearchService; Stored has the
--                           conversion of tool calls and artifacts, Turn has research and the small
--                           methods, and Ends, Stream, Repeat how streams and repeated requests end
--   Research/Channel, Research/Execution, Research/Manager
--                           _RunChannel; _execute and the cancellation of one run; DetachedRunManager
--                           with its queue. Execution/Delivery, Settles, Cancels and Manager/Serving
--                           are about how a run is executed and ends, Channel/Kept about the snapshot
--   Grounding/Contracts, Grounding/Verifier, Grounding/Policy
--                           the records of app/grounding/contracts.py, DeterministicClaimVerifier with its
--                           numbers in Numbers and verify in Report, and decide_delivery. Agreement and
--                           Grounded are about reports that block nothing
--   Tests                   runs on concrete inputs
--
-- State and errors. A method that holds a lock, or a coroutine between two awaits, is one step: a
-- function from the state to its result and the state after it. What was written before a raise
-- stays written, so the state comes back beside an error too. Ids and times are natural numbers, and
-- the clock, the fresh UUIDs, the operation that is retried, the tools and the remote stores are
-- parameters. A reader and a publisher of events interleave as a list of turns. The execution of a
-- queued run is one step: the stream's events in order, with no other call between them.
--
-- Bounds and fuel. The loops over attempts run on the number of rounds that are left, started at
-- `max_attempts`, as Python's `range` does; the other loops are over lists.
--
-- Parameters, for code outside the repository or not modelled: the UUID constructor, `str` of a value,
-- `datetime.fromisoformat` with the conversion to UTC, the floating-point cosine with its order, `==` on the constraint dicts, and
-- the primary transport and the cache tiers with whatever they raise, the research agent with
-- whatever it streams and raises, decimal arithmetic with its signals, `str.upper`, `repr` of a text,
-- `int` of a text of digits, the hashing and the verification of passwords (app/auth/passwords.py),
-- `str.casefold`, the pattern of an email address, and the digest of a token.
--
-- Not modelled: tracing spans, which change no result; `is_transient_model_error`, which inspects the
-- model libraries' exceptions; the event reader of the resilient transport; the asyncio tasks and the
-- time limits of the worker; the service around the LangGraph graph; the Redis and Postgres backends;
-- the HTTP routes, providers, prompts and graph wiring; query normalization and the
-- service around the cache; the extraction of provenance; statistics.

pub mod Common
pub mod Agent
pub mod Auth
pub mod Cache
pub mod Persistence
pub mod Research
pub mod Events
pub mod Grounding
mod Tests
