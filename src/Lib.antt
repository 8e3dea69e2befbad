-- ===== src/Lib.antt =====
-- The AI agent immune system watches software agents, quarantines those that behave abnormally, heals
-- them and releases them; a gateway between the agents and the language models decides which requests
-- pass and where they go. This library models the program's decisions and state changes, in files named
-- for its parts:
--
-- Lifecycle (immune_system/lifecycle.py): the phases of an agent, the table of transitions and every
-- method of the manager. Transition, History, Log, Calls, Escalation and Probation hold the theorems: on
-- one transition, on the history, on the history with its resets, on runs of any calls, on the suspicion
-- window and on the probation.
-- Agents (immune_system/agents.py): an agent's own state and the changes made to it.
-- Telemetry (immune_system/telemetry.py, in memory): the samples of each agent; Retention on the bound.
-- Detection (immune_system/detection.py): `detect_infection`; Report on what it reports.
-- Diagnosis (immune_system/diagnosis.py): the ranked hypotheses; Ranking on their order.
-- Healing (immune_system/healing.py): the ladders of actions; Healer has the choice of the next action
-- and the healing in memory, Ladder the theorem on the choice, Effects that on the healing.
-- Memory (immune_system/memory.py, without a store): what was tried with what outcome; Counts relates
-- the tables to the records, Successes the reported successes to them.
-- Orchestrator (immune_system/orchestrator.py): its state and single steps; Workflow has `heal_agent`,
-- over all of the above, with Termination on its end and Phases on the phase it leaves the agent in;
-- Approvals has the approvals, Sentinel the sentinel's passes, Judgment what follows a correlation,
-- Response how an escalation leaves the agent, and Persistence what repeated passes do to one that stays
-- infected.
-- Quarantine (immune_system/quarantine.py): the controller over any enforcement strategy; Tracking.
-- Enforcement (immune_system/enforcement.py): the strategies by signal, container command, gateway rule,
-- chain, or in memory only, each in a file of its own with its theorems.
-- Policy (gateway/policy.py): the rules and the sliding windows; Windows, Evaluation and RuleSet.
-- Routing (gateway/routing.py): providers and routes; Trust on the upstreams that can be reached.
-- Fingerprint (gateway/fingerprint.py): the name and type of the agent that sent a request; Stability.
-- Discovery (gateway/discovery.py): the registry of the agents seen; Summary on what a record says.
-- Vitals (gateway/vitals_extractor.py): the vitals of a response or of the chunks of a stream; Cost on
-- the rates, Stream on when the vitals of a stream can be had.
-- Proxy (gateway/proxy.py): `forward` and `forward_stream`, over the five above and the quarantine;
-- Admission on what is let through, Streams on what a closed stream leaves behind.
-- Executors (immune_system/executor.py): the simulated executor, and Gateway, Process and Container in
-- files of their own; Refusals on what a healing at the gateway stops.
-- Correlator (immune_system/correlator.py): whether an anomaly is seen in other agents; Fleet.
-- Cache (immune_system/cache.py): the local state with its file; Restart on what a restart finds.
-- Baseline (immune_system/baseline.py): the moving averages of a metric; Learner has `BaselineLearner`,
-- with its cache, Percentile, Warmup, Life, Acceleration and Restoring the theorems: on the kept values,
-- on one update, on runs of calls, on the faster learning and on a restart.
-- Common holds what these share: lists, dictionaries and sets as lists, a stable sort, results that may
-- raise, and the interfaces of floats and of texts. Tests applies the theorems at concrete inputs.
--
-- A method that changes an object returns the new object beside its result. Times are natural numbers
-- of seconds, read once in a call. A float is a parameter with its operations (`Floats`), and a law of
-- its order is a hypothesis where it is used (`OrderLaws`). Python's glob matcher, its text functions and
-- `urlparse`, digests, JSON, the HTTP clients, the system call `kill`, the container tools and the executor
-- that `heal_agent` calls are parameters. A write of the cache is an outcome given to the call that
-- makes it. A coroutine that sleeps is modelled with a parameter for what the other tasks do to
-- the shared state meanwhile.
--
-- The loop over a ladder of actions runs on fuel, one more than the actions on the ladder: an action that
-- failed is not given again. Every other loop is over a list or a number.
--
-- Not modelled: the stores, HTTP services and pages, logs and metrics, the random workload and failures
-- of the demonstration, the client library, and the loop that runs an agent.
pub mod Common
pub mod Lifecycle
pub mod Policy
pub mod Enforcement
pub mod Quarantine
pub mod Agents
pub mod Telemetry
pub mod Detection
pub mod Diagnosis
pub mod Healing
pub mod Memory
pub mod Orchestrator
pub mod Routing
pub mod Discovery
pub mod Vitals
pub mod Proxy
pub mod Baseline
pub mod Cache
pub mod Correlator
pub mod Executors
pub mod Fingerprint
pub mod Tests
