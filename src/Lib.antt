-- ===== src/Lib.antt =====
-- A verification library of recoup, an engine that chases unpaid invoices over virtual time.
--
-- The program. A batch of invoices is loaded into a ledger (src/recoup/ledger/ledger.py), the
-- system of record, which changes only through its writers. A tick loop (src/recoup/runner/batch.py)
-- advances virtual time six hours at a time. In each tick responses to earlier contacts land,
-- promises fall due, payers act unasked, and then a proposer is asked about every record that is due
-- for review. A policy engine (src/recoup/policy) may lower or veto the proposal; an executor carries
-- out what it lets pass; an adjudicator plays the payers. Every decision and every outcome is one row
-- of an append-only, hash-chained log (src/recoup/audit/log.py), from which a run can be rebuilt
-- (src/recoup/audit/replay.py). A live run is two passes of the loop: a rehearsal, which finds who
-- would get a payment link, and a pass that creates the few links the budget allows. When a payment
-- later comes in, it is reconciled with the stored run (src/recoup/executor/reconcile.py).
--
-- The files.
-- Base, Base/*: shared names, Boolean tests, Python's comprehensions on lists, and exceptions as
-- values. A function that may raise returns a `Result`; the errors are the exception classes.
-- Base/Doubles has Python's floats from zero up as exact binary64 numbers, Base/Decimal `str` on a
-- whole number, and Base/Substrings `in` on texts.
-- Domain, Domain/*: src/recoup/domain: enumerations, the table of interventions, and the records of
-- models.py, field by field. A date is a day number; money is a natural number of paise.
-- Ledger/Clock, Ledger/Promises: src/recoup/ledger/clock.py: ticks, hours and days, and the days that a
-- promise can name.
-- Ledger/States, Ledger/States/Machine: the transition table, the two derivations of a state, and what
-- they lead to a write-off from.
-- Ledger/Records: class `Ledger`. Python mutates one object for each invoice; a writer here takes the
-- object's value and returns the new one, and `store` puts it back under its id. Results is
-- about each writer's result, Recorded about what an action and an outcome write, Safety about sequences of writes, Lookup about finding a record.
-- Ledger/Payers, Ledger/Adjudicator: src/recoup/ledger/adjudicator.py, the tables of how payers behave
-- and class `Adjudicator`. Answers is about when it answers, Amounts about the money in its answers,
-- World about what is the same for every arm.
-- Policy/Sources, Policy/Context, Policy/Rules/*: src/recoup/policy: the sources, what a rule is
-- handed and its answers, and the eleven rules in their order. A rule's explanation is a constructor
-- over the values that its text is formatted from.
-- Policy/Engine: `PolicyEngine.adjudicate`. Policy/Contracts says what a rule owes the engine: a veto
-- or a reduction with no deferral, and a guarantee that later reductions keep. Its children take the
-- rules one by one (Quiet, Cadence, Windows), walk them in order (Walks), and are about an approval
-- (Compliance) and about a run of adjudications (Budgets).
-- Policy/Batch: `adjudicate_batch`, `arm_batch_suppression` and the schemas of
-- src/recoup/reasoner/schemas.py, a recommendation about a group of invoices; Scope is about what
-- an approved one covers, Arming about its verdict and about arming it.
-- Audit/Log, Audit/Log/Chain, Audit/Log/Resumed: `AuditLog`, `verify_chain` and resumption.
-- Audit/Replay, Audit/Replay/Rows: the fold that rebuilds a run. Audit/Replay/Compare: `compare`.
-- Runner/Batch, Runner/Batch/Decisions, Runner/Batch/Loop: `run_batch` and its steps. The record
-- `Collaborators` is the interface to proposer, gate, executor, adjudicator, promise phrases and row
-- hash. Advance has the invariant of a run, Steps and Choices are about each step, Replayed about the
-- whole run, Governed puts the policy engine in the gate's place, and Simulated the seeded
-- adjudicator in the payers'.
-- Runner/Live: `run_live_batch`, the composition of a rehearsal, the budget, the live executor and the
-- live pass. Alike relates two passes, Steps and Choices keep them alike, Rehearsal is about the
-- whole pass, Outcomes about a whole live run, Governed about the run that the command line starts.
-- Executor/Budget, Executor/Budget/Fairness: src/recoup/executor/budget.py, the allocation of scarce
-- live payment links, and spending them.
-- Executor/Simulated, Executor/Live, Executor/Fake: the executors behind the interface of
-- src/recoup/executor/base.py, and the client of rehearsals. The live executor keeps its budget and its
-- links in its state, beside the service's. An executor may raise, and the loop does not catch what it
-- raises: theorems about whole runs ask for an executor that returns. Booked is about the links it books, Spending about its
-- budget.
-- Executor/Sessions, Executor/Signature: src/recoup/executor/session.py and signature.py: the links of
-- a live run, and which deliveries are the service's own.
-- Executor/Stored, Executor/Reconcile: src/recoup/executor/reconcile.py: the files of an arm as values,
-- and a payment applied to them. Applied is about what a payment changes, Consistent about the files
-- agreeing afterwards, Credited about the money, Repeated about a delivery that comes twice.
-- Webhook: webhook/app.py, the receiver of payments: Delivered finds the link of a delivery before and
-- after, Safe is about any delivery, Repeated about one that comes twice.
-- Proposers/Naive, Proposers/Fallback: the proposers that need no model. Proposers/Portfolio: the
-- recommendation about a group that needs none, src/recoup/reasoner/batch_insight.py. Groups is about
-- its loop, Members about the invoices that the snapshots are of, Approved about one group before the
-- gate, Verdict about the whole.
-- Metrics, Metrics/Counts: src/recoup/metrics/compute.py: the counts of contacts, links and false
-- interventions.
-- Tests/*: concrete data, and the theorems applied to it.
--
-- Bounds and fuel. Integers are unbounded, as Python's are. A date ends with year 9999: the loop
-- computes the date of each tick first, which raises past that, so the date in the steps of a
-- tick, in the adjudicator and in a snapshot is that of a tick whose date exists. The loop over
-- ticks runs on the horizon as its fuel, which is enough since each turn advances the clock by one
-- from zero. The search for an admissible tick runs for four rounds, the ticks of one day. The
-- binary digits that a product or a quotient has too many, and the decimal digits of a number, are
-- counted with the number itself as fuel, which is enough since a number has no more digits than
-- its value.
--
-- Not modelled. Files, JSON forms and printed text: a file is its value. The content hash of a row,
-- the JSON form of a row, HMAC-SHA256, blake2b, the power function of the C library and the built-in
-- sum of floats are parameters, and so are the parser of a delivery, the client of the live payment
-- service and the patterns of promise phrases. The language model client and its cache, the call of
-- a batch reasoner at the start of a run, the generator, the rates and the other counts among the
-- metrics, the command line, the dashboard, the page that a payer is sent back to and the web server
-- have no model.
pub mod Base
pub mod Domain
pub mod Ledger
pub mod Policy
pub mod Audit
pub mod Runner
pub mod Executor
pub mod Webhook
pub mod Proposers
pub mod Metrics
pub mod Tests
