-- ===== src/Lib.antt =====
-- A model of the part of the Rakazo server that keeps conversations, runs and computers consistent,
-- and of what its clients compute from a conversation.
--
-- The program. A user writes to a bot in a thread; each message queues a run. A worker claims the run
-- under a lease (an owner, a fence and an expiry), claims a computer for it, and lets the agent work.
-- The run pauses for an answer or for a takeover of the screen, and ends; a clear of the thread
-- cancels it. All of it is rows of one database, changed by transactions; subscribers of a thread
-- follow its events from a cursor.
--
-- The files, and the code that each is about:
--   Prelude          tests, lists, rows of a table, unique indexes (no code of its own)
--   RunState         packages/core/src/run-state.ts: the states of a run and their transitions
--   Store            packages/db/prisma/schema.prisma: the rows (Schema), the blocks of a message of
--                    packages/contracts/src/events.ts (Blocks), the tables (Tables) and transactions
--                    (Tx): actions `Db → Result (A × Db)` that return or throw; `transaction` rolls
--                    back a throw
--   History          packages/db/src/messages.ts, and appendEventInTransaction of
--                    packages/db/src/events.ts: the two writes to a thread's history
--   Events           packages/db/src/events.ts, a module for each method of ThreadEvents: Clear
--                    (clearThread), Send (sendUserMessage), Answer (answerRunInput), Pause
--                    (pauseRunForInput, pauseRunForTakeover), Release
--                    (finalizeComputerControlRelease), Finalize (finalizeRun), Server (appendEvent
--                    and the publication), Follow (followThreadEvents); Operations has them as one
--                    type, for theorems on any sequence of them, which Consistent and Transitions
--                    hold; Stale and Answer.Claimed combine them with Computers.Claims
--   Computers.Leases packages/adapters/src/computer-lifecycle.ts: the execution leases of computers
--   Computers.Claims packages/adapters/src/executor.ts: the claim of a run by continueRun,
--                    renewRunLease, requeueComputerRun
--   Computers.Control packages/adapters/src/computer-control.ts: a user's control of a screen
--   Computers.Effects packages/adapters/src/approval-effect.ts: the claims of external effects
--   Approvals        packages/core/src/action-approval.ts: whether a call of a tool needs approval
--   Client.Pages     packages/core/src/message-pages.ts
--   Client.Sections  packages/core/src/bot-sections.ts
--   Client.Asks      packages/core/src/answerable-ask.ts
--   Compaction       packages/adapters/src/history-compaction.ts: the job that summarises old messages
--                    (Plan, Transcripts, Job) and the history that a run gets (Select); Origin,
--                    Advance, Race, Cleared and Budget hold the theorems
--   MessagePages     apps/api/src/thread-message-pages.ts: the pages of a thread's messages
--   JobQueue         InMemoryJobQueue of packages/adapters/src/wakeup.ts, and
--                    packages/adapter-kit/src/background-jobs.ts; Schedule is what it promises
--   ScreenLease      packages/core/src/screen-lease.ts
--   Redactor         createStreamingRedactor of packages/core/src/events.ts
--   LiveMessage      reduceLiveMessageBlocks of packages/core/src/events.ts: the blocks of a message
--                    that is still being written (Text, Calls: the theorems)
--   TransactionRetry packages/db/src/transaction-retry.ts: a few attempts at an operation
--   Reconciler       packages/adapters/src/job-reconciler.ts: the order of rows (Keys), one scan (Scan),
--                    a pass over runs, routines and controls; Progress, Reach and Liveness hold the
--                    theorems
--   Samples, Tests   a small database, and the theorems tried on it
--
-- How the model stands to the code. Identifiers of rows are numbers that are only compared; times are
-- milliseconds. A database gives identifiers to new rows and reads the clock; both are arguments of
-- the operations. A transaction is atomic, and transactions run one after the other (the code locks
-- the row of the thread first); a method that is several statements takes what other transactions do
-- between them as a function on the database. Tables are lists; a query that does not order its rows
-- returns them in the list's order, and an update of many rows does not depend on it. Unique indexes
-- are kept by `create`, which throws on a clash. The texts of error messages are left out, and errors
-- are constructors. Deleting a message does not reset `sourceMessageId` of the runs: no modelled code
-- reads it once the message is gone. Blocks of a message are typed, so parsing them never fails; the
-- kinds of block that no modelled code looks into share one constructor. Publications that fail are
-- dropped by the code, so the list of publications is what was offered. `takeoverLeaseMs` gets the
-- environment's setting as an optional number. The approval rules get the tests of their regular
-- expressions, and the lower case of texts, as parameters. Expiring a control calls the provider of the screen,
-- and enqueues the continuation of a run: whether each of them throws is an argument; the job that
-- expires a control is taken to be enqueued. A function that reads the database several times takes the
-- database, or the table, at each read. A compaction takes the runtime that summarises, the rendering
-- of a message's blocks, whether there are a usable model and a memory provider, and what other
-- transactions do after its write, as arguments; the call of the runtime ends. The cursor of a thread's
-- compacted history, and the cursors of pages, are never negative; the cursor -1 of a subscriber is
-- `none`. The calls of a job queue and the firings of its timers come one after the other; a timer
-- of more than 2^31 - 1 or of no milliseconds calls back after one, as the runtime's do; a schema
-- of a job's payload accepts the identifiers that are not empty. The loop that loads pages recurs
-- on the list of reads, and the theorem on it says how many are enough; the loop of the redactor
-- has the length of its buffer as fuel, of which each round uses at least one; the loop of the
-- retry has one unit of fuel for each attempt that is allowed. A pass of the reconciler reads its
-- three tables at one time, and takes which jobs the queue accepts as an argument. The reducer of
-- live messages takes how a tool's name is shown as a parameter.
--
-- Not modelled: the agent's session and tools in executor.ts after a run and a computer are claimed,
-- routines and their schedules, the election of the reconciler's leader, providers of sandboxes and
-- models, the API's routes, the applications' user interfaces, deployment and updates of the
-- installation.
pub mod Prelude
pub mod RunState
pub mod Store
pub mod History
pub mod Events
pub mod Computers
pub mod Client
pub mod Approvals
pub mod Compaction
pub mod JobQueue
pub mod ScreenLease
pub mod Redactor
pub mod Reconciler
pub mod LiveMessage
pub mod MessagePages
pub mod Samples
pub mod Tests
pub mod TransactionRetry
