-- ===== src/Lib.antt =====
-- Worker Harness: an orchestrator service that registers GPU workers, runs jobs on them over SSH and
-- keeps a durable GPU queue, Pi agent sessions and an HTTP API in front of them.
--
-- How to read this library. A table of the SQLite registry is the list of its rows (Table.antt has
-- SELECT, UPDATE and ORDER BY); a method of src/worker_harness/db.py is a function from its arguments
-- and the table to its result and the new table, taken as one step: the queue and bridge methods run
-- under a lock of the class, the others are one statement or a read and a write. A command of job.py
-- is one function under the dispatch lock of its worker, on fuel where it loops; writes of other
-- requests between its statements are not interleaved in it. Texts are native strings, times are
-- seconds since the epoch, memory sizes are tenths of a GB as the worker daemon reports them.
--
--   Models.antt      the records and enumerations of src/worker_harness/models.py
--   Table.antt       SQL over a list of rows; Table/Laws and Table/Order have what it guarantees
--   Jobs.antt        db.py, the jobs table: insert_job, insert_queued_job, claim_queued_job,
--                    update_job. Jobs/Pending: update_pending_job, fail_pending_job,
--                    reconcile_starting_job. Jobs/Load, Exclusive, Keeps, Rewrites: no GPU is assigned
--                    twice. Jobs/Fifo: which job a claim starts. Jobs/History: all methods in any
--                    order. Jobs/Listing, Taken: list_queued_jobs, and the queue after a claim.
--                    Jobs/Reports, Replays, Revisions, Applied: upsert_reported_worker_job
--   JobManager.antt  src/worker_harness/job.py: free_gpu_indices (JobManager/Free), _launch_job
--                    (Launch), the loop of dispatch_worker (Turn, Dispatch), the commands (Commands,
--                    with Ended, Stop, Refresh and Enqueue) and all of them in any order (History).
--                    The loop runs on fuel: one more than the pending jobs of the worker is enough
--   Lanes.antt       src/worker_harness/lanes.py, the bounded FIFO lane of one worker. Its handlers
--                    run under the lane's lock and are steps; Lanes/Steps has all interleavings.
--                    After a shutdown the registry forgets its lanes, which a model of one lane leaves out
--   Workers.antt     the registry of workers: models.py, Worker.from_registration and
--                    update_from_registration, and db.py. Workers/Heartbeats, Workers/Removals
--   Dict.antt        Python's dict as a list of entries
--   RateLimit.antt   src/worker_harness/ratelimit.py; RateLimit/Bounds has what the buckets promise
--   Cache.antt       src/worker_harness/cache.py; Cache/Refines has it against a map without lazy
--                    deletion, Cache/Response the cached handlers
--   PiSessions.antt  db.py, the Pi sessions with their events and commands. PiSessions/Commands:
--                    enqueue, claim, acknowledge; Bridge: registration; Activity: event batches and the sweep;
--                    Frame, Mailbox, Delivery, Claims: what the mailbox promises;
--                    Blocking, Waiting: sessions that wait for an answer
--   Machines.antt    machines.py and projects.py, from the parsed file on; Paths.antt and Shell.antt have
--                    PurePosixPath, shlex.quote and str
--   SharedData.antt  data.py: which paths may be copied, and the commands; SharedData/Safe
--   Fleet.antt       orchestration.py and sandbox.py. Fleet/Action: actions on the tables and the list of
--                    calls, with exceptions; the answers of the machines, and what other tasks do while
--                    a method sleeps or waits for a lock, are parameters. Worktrees, Names, Sandbox, Sessions,
--                    Launch, Stopping, Managers: the methods; the poll loop of a launch ends after
--                    as many polls as fit before its deadline. Traces, Quiet, Waits, Phases, Kept: which
--                    calls are sent, and in which order; Rows, Closing, Failing, Fresh: what a failed
--                    launch leaves; Guards, Removals, Retirement, Attempts, Grammar: the other methods
--   Control.antt     heartbeat.py, the control API. Auth: require_role; Messages, Tasks, Bridge: the routes of
--                    Pi sessions as actions of Fleet/Action, where an HTTPException is an exception, and
--                    other requests write only where a handler sleeps or waits for a lock; Gateway: the
--                    attachments of terminals; Queue, Requests, Reconcile: jobs and the queue, and Ending,
--                    Handling: that the requests end. Permitted, Mailing, Ownership, Revoked: who
--                    may do what;
--                    Victim, Admission: how many terminals are attached, and who has to leave
--   PullRequests.antt
--                    pr.py: the sections that a summary must have, its title, and the address that is
--                    taken from the output
--
-- What is outside: the SSH commands and remote processes, the HTTP framework, SQLite itself (its
-- statements are modelled, its durability and its locking are not), asyncio (its futures and the
-- order of wake-ups are modelled in Lanes, its scheduler is not), logging and metrics.
mod Base
pub mod Models
mod Dict
mod Table
pub mod Jobs
pub mod JobManager
pub mod Workers
pub mod Lanes
pub mod RateLimit
pub mod Cache
pub mod PiSessions
mod Paths
mod Shell
pub mod Machines
pub mod SharedData
pub mod Fleet
pub mod Control
pub mod PullRequests
