-- ===== src/Lib.antt =====
-- RedSuite: the test harness of a validator, and the on-chain program that its scenarios drive.
--
-- The harness offers load to a validator. A rate is split over worker threads, each of which
-- paces its calls (Rate, Workers). The latencies are summed up in bounded memory (Stats), and so are
-- the admissions of each second (Admission). A fault proxy stands between the harness and the
-- validator, and a scenario tells it which operations to observe, to stall, to reject or to hold
-- (Netfault). The scenarios write to cells of a program of their own, whose instructions a client
-- builds and whose batches run on the chain (Fixture).
--
-- A driver admits the jobs of a run and records what becomes of them (Runner). What the validator
-- notifies comes in over a websocket (Socket), is matched with requests and subscriptions
-- (Subscription) and waits in a buffer for its readers (Events), who wait for a change (Wait). The
-- clock of the senders is Clock. What became of a commit is read from the logs of the validator's
-- transactions (Receipt). A suite selects scenarios, runs them in lanes and decides (Suite).
--
--   Rate            core/src/transport/rate.rs: Pacing.partition is partition, split_budget is
--                   split_budget, Pacer::wait is wait. Rate/Split, Rate/Shares and Rate/Schedule have
--                   the theorems on the budget, on the rates of the workers and on the pacer.
--   Admission       core/src/transport/rate.rs: AdmissionStats, with record as admit. Admission/Seconds
--                   has the theorem.
--   Workers         core/src/runner/workers.rs: split_iterations and WorkerBudgets::partition, the
--                   latter as partition_budgets, with theorems in Workers/Spans and Workers/Budgets.
--   Stats           core/src/stats.rs: StreamingStats with push, merge and finalize, with theorems in
--                   Stats/Reservoir, Stats/Valid and Stats/Quantile.
--   Netfault        core/src/netfault/mod.rs: gate, Gate::resolve, State::restore, Faults and the rules
--                   as functions on the scope's state. Netfault/Select has the builders of selectors,
--                   Netfault/Scope the steps of a scope in use, and Netfault/Selecting, Gating, Ledger
--                   and Hits have the theorems. core/src/netfault/rpc.rs is in Netfault/Rpc, ws.rs
--                   beside it in Netfault/Relay, with a theorem in Netfault/Watching, and the exchange
--                   of http.rs in Netfault/Exchange.
--   Runner          core/src/runner/mod.rs: Job::run is run_job, RawRunOutcome::record and merge are
--                   record_job and merge; execute_inner is in Runner/Driver, in the parts between its
--                   waits, and Runner/Schedule has the order in which these may be taken.
--                   core/src/runner/workers.rs: spawn_workers, Workers::join and execute_threaded are
--                   in Runner/Threads. Runner/Jobs, Tallies, Merging, Flight, Ledger and Joining have
--                   the theorems.
--   Socket          core/src/transport/socket.rs: parse, receive and drive, with theorems in
--                   Socket/Reading.
--   Subscription    core/src/transport/subscription.rs: Router here, Connection in
--                   Subscription/Connection and a connection in use in Subscription/Scope.
--                   Subscription/Acknowledge, Frames, Numbers, Moves and Books have the theorems.
--   Events          core/src/transport/events.rs: EventBuffer and what its readers observe, with
--                   theorems in Events/Queue, Events/Cursor, Events/Routes and Events/Delivery.
--   Clock           core/src/transport/clock.rs: SendClock, with theorems in Clock/Window.
--   Wait            core/src/wait.rs: retry_every and on_change, with theorems in Wait/Retry and
--                   Wait/Wakeup.
--   Suite           cli/src/catalog.rs, core/src/catalog.rs, core/src/scenario.rs: select, the entries
--                   and their records. cli/src/suite/mod.rs: lanes here, run_entries in Suite/Entries,
--                   Lane::run, finish and prepare in Suite/Outcome. Suite/Round has a round of
--                   cli/src/suite/continuous.rs. Suite/Lanes, Progress, Accounted, Complete and Alone
--                   have the theorems.
--   RawWs           core/src/transport/wsraw.rs: try_request, request, subscribe, unsubscribe and
--                   next_notification, with theorems in RawWs/Conserved and RawWs/Answered.
--   Receipt         core/src/receipt.rs: parse_logs and the targets here, on text as code points with the
--                   functions of Receipt/Lines; the history of an outbox and ensure_receipt_absent in
--                   Receipt/History, fetch_commit_receipt_by_intent in Receipt/Watch as fetch_by_intent,
--                   the checks in Receipt/Checks, CommitWatch::check and check_commit in Receipt/Commit.
--                   transaction_meta, transaction_logs and custom_error_code are those of
--                   core/src/api/mod.rs. Receipt/Printed has the lines of a receipt. Printed/Reading,
--                   Absence, Watch/Outcome, Checks/Included and Commit/Origin have the theorems.
--   Causal          core/src/redline/causal.rs: Step, PairModel.apply and compare, CausalPair::send as
--                   send. Causal/Holding, Steps and Agreement set them against the batches of Fixture.
--   Fixture         programs/fixture/src: the accounts and the codec here, the cells of state.rs with
--                   update in Fixture/Cell, the instructions of lib.rs in Fixture/Syntax, the batch of
--                   execute/mod.rs in Fixture/Execute, its entry point in Fixture/Process,
--                   execute/settlement.rs in Fixture/Settlement and Fixture/Process, and the client's
--                   build.rs in Fixture/Build and Fixture/Instructions. Fixture/Fill, Cells, Effects,
--                   Callback, Table, Batches, Folds and Keys have the theorems.
--   Prelude         the names the parts share: Boolean tests, lists and maps over the native numbers,
--                   results with their bind, machine words.
--
-- How tasks are modelled. An `async` operation is given in the parts between its waits, and a relation
-- of steps says in which states each part may be taken; what comes from outside in between (a frame, a
-- stop signal, the end of a job or of a scenario) is a step or an argument of one. A hash map is an
-- association list that holds a key at most once, and a search through its values takes the first.
--
-- How the code's state is modelled. A method that changes its receiver answers the new value. The
-- clock of a pacer is an argument. A panic is `none`, an error is `err`. The shared cells of the fault
-- proxy are written out as addresses of counters and numbers of interceptions. The accounts of an
-- instruction are keys into one ledger, so an account that is passed twice is one account; an error
-- discards the writes of the transaction, as the runtime does, and so leaves no ledger.
--
-- Numbers are natural numbers, and signed ones integers. Where the code works in 32 or 64 bits and can leave the range, the
-- range is written out: in combine, the cast to `i32` of Stats, checked_add, checked_sub, the words of fill, the places of the
-- account table, and the microseconds of Clock and Runner. Two definitions are on fuel. The fuel of
-- fill_from is the length of the payload: each of its chunks takes at least one byte, which
-- `length p ≤ fuel * 8` in Fixture/Fill asks for. The fuel of retry_every bounds its attempts: each
-- but the last moves the clock on by the interval or to the deadline, and so timeout / interval + 2 are
-- enough.
--
-- Parameters, with the laws used of them: floating-point arithmetic and the random generator (a draw
-- from a range that is not empty lies in it); the Wincode codec of headers (a header takes 64 bytes and
-- is read back from the front of longer data, in range) and SHA-256; the Solana runtime, the SDKs and
-- the JSON decoder, of which no law is used; the parsers of keys and signatures, where one theorem
-- asks that the empty text is no key. Of tokio's `Notify` the model of Wait uses that
-- `notify_waiters` wakes each waiter that has been enabled.
--
-- Not modelled: network input and output, processes, files, reports and the scenarios themselves; the
-- HTTP heads that the fault proxy reads, and the abort of its connections; the timeouts that drop a
-- wait; the flags of a run's outcome; the loop over the rounds of the continuous suite; the log
-- messages.
pub mod Prelude
pub mod Rate
pub mod Stats
pub mod Workers
pub mod Admission
pub mod Netfault
pub mod Fixture
pub mod Runner
pub mod Socket
pub mod Subscription
pub mod Events
pub mod Clock
pub mod Wait
pub mod Suite
pub mod Causal
pub mod RawWs
pub mod Receipt
