-- ===== src/Lib.antt =====
-- Bellman, a task scheduler: the core of crates/bellman-core as functions of its state, and the
-- theorems that make it correct.
--
-- The program. A timer has a schedule (crates/bellman-core/src/occurrence): a kind such as an interval,
-- a day of the month or a cron expression, a time zone, and what narrows it: a validity window, a cap on
-- the runs, excluded dates and pending skips. The scheduler asks the schedule for the next fire, waits
-- for it, claims the run in a database, and lets workers start the program of the timer. The paths of the
-- sources below are under crates/bellman-core/src.
--
-- The schedule.
-- - Occurrence/Chrono.antt: what the code takes from chrono, chrono-tz and croner, as records of
--   operations. An instant is a number of nanoseconds since the earliest instant of chrono, a date the
--   number of its day, and a wall-clock time that of its nanosecond. Nothing is assumed of these
--   operations but what a theorem names: croner searches strictly after its instant
--   (CronIsExclusive), and the clocks of a later date show later instants (DatesInOrder).
-- - Occurrence/Weekdays.antt and Kind.antt: occurrence/kind.rs, `Weekdays` and `OccurrenceKind::validate`.
-- - Occurrence/Civil.antt: occurrence/civil.rs and policy.rs. `resolve_local` turns a date and a time into
--   an instant, over the gaps and folds of the clocks. The loop of `first_second_in_window` runs on
--   fuel, one unit for each second of its window and two more.
-- - Occurrence/Schedule.antt: the record `Occurrence` of occurrence/schedule.rs, `new` and the setters.
-- - Occurrence/Candidates.antt: `raw_next_after` and the search of each kind. The bounded `for` loops
--   count down from the bound of the source.
-- - Occurrence/NextFire.antt: `next_fire`, `peek_next_fire`, `preview` and the iterator of `iter_after`.
-- - Occurrence/Examples.antt: the theorems at concrete inputs, and test runs.
--
-- The actions.
-- - Actions/Limiter.antt: actions/concurrency.rs. Each critical section of the mutex is a function of the
--   counters; `Step` interleaves those of all threads, with a condition variable that may wake a thread
--   without a notification. An action that panics ends like one that returns.
-- - Actions/Examples.antt: two threads with one permit.
--
-- The runs.
-- - Store/Ledger.antt: the table `runs` of store/mod.rs as a list of rows, the newest first, and the
--   transactions on it. SQLite is taken to commit each of them as a whole; a new run id and the clock
--   are arguments. `Write` in Store/Ledger/Keys.antt is each of these operations; the pruning of old
--   runs is not among them.
-- - Store/Models.antt, Store/Timers.antt: the records of store/models.rs and the table `timers` of
--   store/mod.rs. An update reads, patches, searches the next fire and writes in one transaction. Stored
--   values read back as written; the texts of instants keep their order in the years 0 to 9999.
--   `Edit` in Store/Timers/Rows.antt is each transaction; those of slot requests are not among them.
-- - Store/Transport.antt: the tables `transport_projections` and `target_cursors` of store/mod.rs; the
--   query joined with the runs and the pump of reply/publication.rs are left out.
-- - Pruner.antt: `is_terminal_oneshot` of pruner/mod.rs, which decides whether a one-shot is deleted; the
--   pass that deletes is left out. Pruner/Examples.antt: a one-shot that fired.
-- - Store/RunStates.antt: the lifecycle rows and the outbox of events of store/models.rs and mod.rs.
-- - Tree/Overlap.antt: `apply_overlap_disposition` of tree/mod.rs, which decides in the transaction of a
--   fire what happens while older runs of the timer are unfinished.
-- - Tree/Fire.antt: `project_fire` of tree/mod.rs under the gate of the timer, from what `barrier_read` found to
--   the deadlines after the commit. An error rolls the tables back and leaves the deadline book as it is. The
--   files of the folder of the timer, which follow, are left out. Tree/Fire/Examples.antt: a fire that
--   supersedes a running run.
-- - Store/Examples.antt, Store/Timers/Examples.antt, Store/Transport/Examples.antt,
--   Tree/Examples.antt: the theorems at concrete tables.
--
-- The replies of applications. An application that a run belongs to answers in a document; the engine
-- takes it into the row of the run, keeps the deadlines of the run and logs its transitions.
-- - Events/Record.antt: the states of a run and the lines of the log, of events/record.rs. The random id
--   of an event is left out.
-- - Reply/Document.antt: the document and its caps, of reply/document.rs, decoded.
-- - Reply/Engine.antt: the state of reply/engine.rs (`Channel`): the tables, the deadline book with its
--   hints and the anchors of fires; `register_fire`, `sync_deadline_book` and `duration_ms`. `Host` is what
--   the code takes from elsewhere: serde_json, chrono, the clocks, and the span of a watchdog, a product
--   of floating-point numbers. A statement of SQLite does not fail there, so nothing rolls back.
-- - Reply/Lines.antt, Apply.antt, Ingest.antt: `apply` and `ingest_inner`. Reply/Deadlines.antt: pickups and
--   lapses.
-- - Reply/Publication.antt: `select_transport` and `new_projection` of reply/publication.rs, and the
--   notification of reply/notification.rs; the attempts to publish are left out.
-- - Reply/Moves.antt and Lifecycle.antt are the relations of the proofs: the moves of one row, and the calls
--   of the engine in any order. The watcher, the quarantine, the gate and the status files are left out.
-- - Reply/Examples.antt, Reply/Lifecycle/Examples.antt: one run, and runs of the code at its edges.
--
-- The wake-up of the machine.
-- - Platform/Wake.antt: platform/wake/mod.rs and single_next_wake.rs. The trait `MachineWake` is a record
--   of operations on the state of a platform, and nothing is assumed of them. The mutex of the bridge is not
--   modelled: each operation runs as a whole.
-- - Platform/Wake/MacosDecision.antt, WindowsDecision.antt: the decision trees of the two systems.
-- - Platform/Examples.antt: a platform whose alarm always works.
--
-- The scheduler.
-- - Scheduler/Jitter.antt: scheduler/jitter.rs, when the execution of a fire is due and by how much it is
--   shifted.
-- - Scheduler/State.antt: the engine of scheduler/engine/mod.rs and types.rs, with the tables of the store,
--   the heap as an ordered list and the messages in the channel. A step of it is an `Effect`
--   (Common/Results.antt): it changes the engine, fails or panics, and an error keeps what was committed
--   before it. What the engine reads from outside, the clocks, random ids, `data_version` and the hash, is
--   an entry of `World` for each reading; the action is a function there. The engine has no data
--   directory: `deliver_one` claims by `claim_run`, and the startup maintenance, the startup scan of the
--   replies and the handling of a deadline that wakes are their early returns.
-- - Scheduler/Misfire.antt: the grace windows and `walk_missed` of engine/misfire.rs.
-- - Scheduler/Horizon.antt: the moves of a timer past a slot or past now, of engine/horizon.rs. The bounded
--   loops count down from the bounds of the source.
-- - Scheduler/Delivery.antt, Due.antt: `deliver_one` and `handle_due_timer` of engine/delivery.rs.
-- - Scheduler/Drain.antt, Rebuild.antt: the scan and the drain of engine/misfire.rs, and the rebuild of the
--   heap. Scheduler/Drive.antt: `boot`, `tick` and their tests, of engine/drive.rs; sleeping and the run
--   loops around `tick` are left out.
-- - Common/Meets.antt has the rules by which an effect meets a relation on states and a predicate on its
--   result; Scheduler/State/Reaches.antt is the relation that the store's transactions make.
-- - Scheduler/Examples.antt: a timer every ten seconds, due at one of its slots.
--
-- Common/Runs.antt has the runs of a step relation. Code that can panic returns a `Call`
-- (Common/Calls.antt): a result, a panic, or out of fuel, and `Ensures P` (Common/Postconditions.antt)
-- says that a call ends, by a panic or by a result with P; it excludes out of fuel.
--
-- Not modelled: leap seconds in a NaiveTime, the texts of errors but those of rejected replies, serialisation, the builders and getters
-- of `Occurrence`, and everything outside the files named here. The zone of a schedule stands resolved
-- in its record, where the source resolves the name at each use.
pub mod Common
pub mod Actions
pub mod Events
pub mod Occurrence
pub mod Platform
pub mod Pruner
pub mod Reply
pub mod Scheduler
pub mod Store
pub mod Tree
