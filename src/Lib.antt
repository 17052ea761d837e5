-- ===== src/Lib.antt =====
-- AgentClaw runs tasks of software agents on language models. This library models the core of it: how
-- a request reaches a model (internal/llm), how a question climbs to a stronger model or to a human
-- (internal/usecase/escalation), how a task goes through its phases (internal/usecase/phase), how the
-- orchestrators combine such runs, and what the guard lets through (internal/guard).
--
-- Domain: Domain/Models is internal/domain/model.go, the tiers and the tables of the models, with
-- theorems in Domain/Chain. Domain/Types and Port are the values of internal/domain and
-- internal/port that the use cases exchange.
--
-- Llm: Llm/Breaker is breaker.go; its state is the record Breaker, `allow`, `record_success` and
-- `record_failure` are the methods, and the registry is an association list. Llm/Provider, Llm/Errors,
-- Llm/Pricing, Llm/Http and Llm/Fallback are provider.go, errors.go, pricing.go, anthropic.go with
-- openai_compat.go, and fallback.go. Llm/Router is `Call` of router.go: the breaker lets the request
-- through, the provider answers or the fallback chain does, and the result is recorded. The state is
-- the record Router, whose trace holds the requests posted, the fallback events and the pauses.
--
-- Reasoning is internal/usecase/reasoning: the phases enrich their requests with it.
--
-- Escalation: Escalation/Cache and Escalation/Chain are cache.go and chain.go; the state is the trace of
-- the calls made of the collaborators. Phase: Phase/Understand, Phase/Clarify, Phase/Plan and
-- Phase/Implement are the `Run` methods of the four files, Phase/Helpers is helpers.go, and
-- Phase/Runner the loop of runner.go. Phase/Idea is idea_clarify.go and Phase/Midway is
-- mid_clarify.go. The state is the task, which the phases mutate, and the trace.
-- A panic, which a plan's verdict can cause, is an error with that text, since the callers return at once on an
-- error; it ends the process, so the runs beside it in a parallel run end as well, where the model has them go on.
-- The clarify phase calls the escalator; the hypothesis Settles of its theorem is what
-- Escalation/Chain/Outcomes shows of `Resolve` (resolve-settles).
--
-- Queue is internal/queue/queue.go. The items, which the heap and the role index share by pointer, are
-- in a store and named by their place in it. Queue/Heap is container/heap with `pq`, Queue/Done is
-- `recordDone`, Queue/Ready the scan of `findReady`, and Queue/Operations the methods. A channel of
-- capacity 1 is whether it holds a signal. `Pop` is modelled as its parts, its start, its look for a
-- task and its receives, since the steps of others come between them. A priority is not negative.
--
-- TestFix is internal/usecase/orchestrator/test_fix.go: it runs the phase runner, then the tests, and asks
-- a model for a fix when they fail. The fields of the task that it reads do not change.
--
-- Orchestrator: Loop, Parallel, Hierarchical and Route are the files of internal/usecase/orchestrator. Each
-- runs the phase runner, and Route calls the other three. A goroutine of the parallel run has a task of its
-- own, so its run is a function of its place and of what it is answered; the environment says in which
-- order the errors come. The loop's task is the one of its PhaseContext, as its callers have it, and its
-- task store is there.
--
-- Guard: Guard/Engine is guard.go: a check computes its verdict and records it, and the state is the record
-- Engine with the counters and the events. Guard/Patterns holds the tables, each expression by its text,
-- and Guard/Regex reads and matches the syntax of Go's regular expressions that they use. Guard/Wrappers is
-- guarded_runner.go, guarded_writer.go and guarded_llm.go. The exit code -1 beside an error is left out.
--
-- Preflight is internal/usecase/preflight/checker.go with internal/domain/preflight.go. The checks of
-- the tools run at once, so the runner's answer is a function of the place of the check.
--
-- Git is internal/usecase/git/automation.go: the state is the list of the commands that were run. Git/Artifacts
-- is `ParseArtifacts`, a scan of the lines with the variables of its loop, and `WriteArtifacts`.
--
-- Agent/Replies is internal/agent/reply_store.go. The maps are functions, and a channel of capacity 1 is a
-- place in the state, which its entry and its reader share. Message ids are natural numbers. Agent/Pool is
-- internal/agent/pool.go: what happens under the mutex is a step, Agent/Pool/Steps is the relation of the steps
-- of all callers and supervisors, and a wait for a channel is a step that needs the channel closed.
--
-- Stores/Checkpoints is internal/infra/state/checkpoint_store.go, which keeps what the phases save. The state
-- is the cache and the files; the disk may fail at any time it is asked, and the process may start again.
--
-- Memory is `enforceTokenBudget` of internal/memory/store.go with the budgets of context.go: what is cut from
-- the memory that goes into a request.
--
-- Waiter is internal/infra/task/waiter.go: the maps and the channels of capacity 1 are the record EventWaiter, a
-- channel is its number, and `WaitForResult` is `register` and then `wait_on`.
--
-- Base holds what the modules share: Boolean tests, lists, Go's strings and maps, int64 and float64,
-- and code with effects as functions of a state. Tests holds runs on concrete inputs.
--
-- Modelling. What the code calls and cannot be read here is a field of an environment: the network,
-- the decoding of JSON, the clock, the stores, the notifier, the person asked. Each answers as a
-- function of the trace, so it may answer in any way that depends on what was done before. An error
-- is a value, with the text that Go gives it; a panic is an outcome. A timeout is an answer of the
-- environment. What is said of the checkpoint held counts on a store that takes every save and delete: the source
-- logs a failure of these and goes on. Methods under one mutex are single steps. Log lines are left out.
-- A `float64` is kept as the expression that is evaluated. Upper and lower case are those of the characters that have an
-- ASCII partner, or an upper case with another number of bytes (of Unicode 15), and all others stay as they are.
-- A character that a slice cuts is left out, where Go keeps some of its bytes. A text in quotes (`%q`) keeps every
-- character beyond ASCII.
--
-- Bounds. The loop of `EscalationChain` has fuel 3: no chain is longer (Domain/Chain). The fallback
-- chain recurses on its list and the three attempts, the phase loop on its four iterations. `up` of
-- the heap has its place as fuel and `down` the size, since a step halves or doubles the place
-- (Queue/Heap/Fuel).
--
-- Not modelled: loading the price file and starting the HTTP transport (internal/llm), the rest of the agents
-- (internal/agent) and of the memory (internal/memory), and the web API, the other stores and the clients of
-- outside services, which are mostly input and output.
pub mod Base
pub mod Domain
pub mod Llm
pub mod Port
pub mod Reasoning
pub mod Escalation
pub mod Phase
pub mod Queue
pub mod TestFix
pub mod Orchestrator
pub mod Guard
pub mod Agent
pub mod Memory
pub mod Waiter
pub mod Stores
pub mod Preflight
pub mod Git
mod Tests
