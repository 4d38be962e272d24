-- ===== src/Lib.antt =====
-- A verification library for diploid-agent, an agent runtime: the parts that keep state.
--
-- The program plans work as graphs of tasks (src/diploid_agent/plan), runs the tasks on a pool of
-- threads (src/diploid_agent/task), wakes conversations through a queue of events
-- (src/diploid_agent/runtime/wake_queue.py) and records the prompts that it hands out and their
-- results (src/diploid_agent/dispatch.py). Each of these keeps its records in a JSONL file that a
-- transaction reads, changes and writes back. Clients follow a chat through its event log, and a lock
-- file for each chat keeps two processes from serving it at once.
--
--   Prelude         Boolean tests, lists, a stable sort and the insertion-ordered dictionary (Python's
--                   dict), with their laws.
--   Plan            src/diploid_agent/plan: Models has the enumerations and records, Resolve is
--                   _resolve_statuses and _update_plan_status, Manager is PlanManager.
--   Json            JSON values and src/diploid_agent/sanitize.py.
--   Jsonl           _load, _save and _transaction of the stores, with the JSON library and the record
--                   classes as the parameter Codec. What reading back a file relies on is
--                   IsLineCodec: json.dumps escapes what is not ASCII, model_dump_json does not.
--   Wake            WakeQueue: enqueue, merge_into_ready, ready, pending, pop_due, complete, fail, the
--                   counts and the cancellations.
--   Dispatch        DispatchStore: add, set_result, complete, fail, list_by_chat, and the eviction that
--                   every save of a store with a path makes.
--   Events          EventLog of src/diploid_agent/runtime/event_log.py for one chat: Order has the history
--                   behind the ring, Clients the clients that poll.
--   Instance        InstanceManager of src/diploid_agent/runtime/instance.py over a table of flock owners;
--                   Steps has the operations one by one, Exclusion the processes that
--                   share it, Heartbeat the thread.
--   Restart         RuntimeRestart of src/diploid_agent/runtime/restart.py: its threads are lists of jobs,
--                   and a step lets one of them go on.
--   Board           src/diploid_agent/runtime/task_board.py: Accounts and
--                   Rendering have the message, Selection the plan.
--   Continue        RuntimeAutoContinue of src/diploid_agent/runtime/auto_continue.py.
--   Outbox          The queue of src/diploid_agent/runtime/outbox.py; a transient item is also appended
--                   to Events.
--   Typing          RuntimeTyping of src/diploid_agent/runtime/typing.py: Counts has the counts,
--                   Threads the threads and their stop events.
--   Cron            CronStateStore of src/diploid_agent/runtime/cron_state.py.
--   CronService     CronService of src/diploid_agent/runtime/cron_service.py and the job specs of
--                   src/diploid_agent/config.py: Jobs has the merge of the cron files, Sound and
--                   Inside what it demands of a job, Schedule and
--                   Triggers what makes a job due, Materialize the start of a run, Finalize its end,
--                   Deliver its delivery as a turn, Tick the periodic pass.
--   Durations       src/diploid_agent/text.py, on seconds that are a signed number of ticks.
--   Retention       TurnRetainBuffer of src/diploid_agent/memory_retention.py: Documents has the documents
--                   of a flush, Sequence the turns, flushes and restarts, Bound the buffer's size.
--   Ingress         RuntimeIngress of src/diploid_agent/runtime/ingress.py; Waking has `wake`, Timer the tick
--                   of src/diploid_agent/runtime/timer_service.py and _handle_timer_fired of
--                   src/diploid_agent/runtime/lifecycle.py.
--   Watchdog        PromptWatchdog of src/diploid_agent/acp_client/watchdog.py: Stalls
--                   has the recoveries, Unblocked whom they tell, Silence the warnings.
--   Tasks           src/diploid_agent/task: Worker is WorkerPool, Execute runs a shell command or a
--                   prompt, Engine is TaskEngine with start_task and _run_task.
--
-- How the parts interact. Tasks.Engine holds a Plan.Manager and a Tasks.Worker pool: a run of a task
-- reports to the manager, which settles the statuses of the plan, and then starts the tasks that
-- became ready. Wake uses Json to scrub payloads. Plan.Manager, Wake and Dispatch are operations on
-- the dictionary; Jsonl has the file that holds it. Board reads the plans of Plan.Manager. CronService
-- holds the store of Cron, a Tasks.Engine and a Wake queue: a due job becomes a task of a standing plan,
-- the events of the engine end the run, and a delivery may put a wake into the queue. Ingress
-- composes the lock of Instance, the queue of Wake and the store of Dispatch around a turn: a message for
-- a busy chat becomes a wake, which the timer brings back. The turn controller is a function on the queue
-- and the dispatches, about which nothing is assumed. Of the writes of the queue, the one before the
-- try of continue_turn may fail.
--
-- State is passed explicitly: an operation takes the arguments of the method, then the state, and
-- gives the new state with the result. `None` is Option; an exception is a value of the result type.
-- The clock, uuid, subprocess, shlex, the engines and the turn controller are arguments. A time is a
-- natural number of clock ticks. A lock makes the transactions on a file one sequence, so an
-- interleaving of threads is a list of calls (Plan.Manager.Calls).
--
-- Fuel. The `while changed` loop of _resolve_statuses has 2 * length tasks + 1 rounds, which is
-- enough: each round that changes something takes a task on in the order PENDING, READY, BLOCKED or
-- stops, and no task changes more than twice (Plan.Resolve.Termination). The loop of
-- TurnRetainBuffer.flush has one round more than the buffer has entries, and each round takes one off
-- at least (Retention.Documents).
--
-- Not modelled: locks, temporary files and read errors of the stores; the threads of the executor;
-- `metadata` of a dispatch; the log. Of the program: the turn controller, the ACP client but for
-- its watchdog and what that calls of the transport, the prompts and their context, the memory but for the retention of turns,
-- the model router, plugins, and the configuration but for the job specs.
pub mod Prelude
pub mod Plan
pub mod Json
pub mod Jsonl
pub mod Wake
pub mod Dispatch
pub mod Tasks
pub mod Events
pub mod Instance
pub mod Typing
pub mod Cron
pub mod Restart
pub mod Board
pub mod Continue
pub mod Outbox
pub mod Ingress
pub mod Watchdog
pub mod Retention
pub mod Durations
pub mod CronService
