-- ===== src/Lib.antt =====
-- A model of the local, synthetic phone-call review application: which calls are accepted, how they
-- are processed, what may be said about them, and who may do what.
--
-- The parts and their files, with paths from the repository's root:
--
-- Prelude: the shared Boolean tests, lists as tables, and exceptions as values (Prelude/Outcome).
--
-- Policy (packages/authorization/demo_policy.py): roles, permissions and the actions offered.
--
-- Contracts (packages/contracts/review.py): the enumerations and models that the parts exchange
--   (Contracts/Events, Contracts/Analysis) and their validators (Contracts/Validators).
--
-- Calls (packages/review/state_machine.py, packages/database/repository.py and the tables of
--   packages/database/review_schema.py): the processing state machine (Calls/State), the tables
--   (Calls/Tables), the methods of `ReviewRepository` (Calls/Repository, Calls/Outputs) under the
--   names they have in the code. A table is a list of rows, the newest first; a method takes the
--   tables and returns them, or an exception with nothing changed, as its transaction does. Times
--   and generated identifiers are arguments. Calls/Timeline says when tables are consistent;
--   Calls/Ingestion, Calls/Restart and Calls/Consistency prove that each operation keeps them so.
--   Calls/Steps has the methods as steps between tables, Calls/Sequences what any sequence of them
--   reaches, and Calls/Refinement that they implement the machine of one call (Calls/Machine).
--
-- Evidence (packages/review/validation.py): the checks that an analysis has to pass against its
--   transcript. Evidence/Support says what a reference rests on, Evidence/Analyses what an analysis
--   that is accepted does, Evidence/Citations and Evidence/Review what is kept for review.
--
-- Pipeline (packages/review/pipeline.py and the adapters of packages/review/fixtures.py): the
--   entries of the manifest and the adapters that play them (Pipeline/Scripts, Pipeline/Fixtures),
--   and `process`, `retry` and the loop over attempts (Pipeline/Attempts), which composes the
--   methods of Calls and the checks of Evidence. Each method commits, so the tables are returned
--   also when a later one raises. The loop is on fuel; a round is repeated only for a scripted
--   failure, which has the number of its attempt, so one round more than the highest of these
--   numbers is enough (Pipeline/Numbers, Pipeline/Termination). Pipeline/Progress says where an
--   attempt stands, Pipeline/Rounds and Pipeline/Runs where a round and a run leave it,
--   Pipeline/Outputs, Pipeline/Storing and Pipeline/Backing what the stored analyses rest on.
--
-- Reporting (packages/review/reporting.py, packages/contracts/report.py and the reports of
--   packages/database/review_experience.py): the contracts (Reporting/Contracts), what a call
--   contributes (Reporting/Sections), `aggregate_daily_report` (Reporting/Aggregate), what
--   `generate_report` reads of the calls (Reporting/Inputs) and what it stores
--   (Reporting/Snapshots). A date is its text; texts are compared by code point, as Python does.
--   Reporting/Arrangement gives the sections as plain lists, Reporting/Reconciliation and
--   Reporting/Counting the counts, Reporting/Order the independence of the order of the calls, and
--   Reporting/Regeneration what a second generation does.
--
-- Operations (packages/database/local_operations.py, packages/contracts/operations.py and the
--   deletion of packages/media/store.py): the contracts (Operations/Contracts,
--   Operations/Configuration), the tables and what comes from outside (Operations/Tables: the
--   clock, generated identifiers, digests, the plan of injected failures, the file system),
--   `evaluate_retention` (Operations/Evaluation), the deletion of media (Operations/Media,
--   Operations/ObjectId), `_destroy_content` (Operations/Destruction), the execution of one job
--   (Operations/Execution), runs over the jobs (Operations/Runs) and `publish_configuration`
--   (Operations/Publishing). A method of several transactions returns the tables also when it
--   raises. Operations/Soundness says when the jobs are sound; the steps, rounds and evaluation
--   that keep them so are in Operations/Steps, Operations/Rounds and Operations/Retention, any
--   sequence of them in Operations/Sequences. Operations/Closure carries any property that each
--   kind of write keeps through an execution; Operations/History and Operations/Finality use it.
--   Operations/Absence says when a resource is destroyed, in the tables and in the object store, and
--   Operations/Outcomes that an execution that reports so has destroyed it.
--
-- Campaign (scripts/p1/campaign.py): debits and caps (Campaign/Debit), the ledger of a campaign and
--   its replay (Campaign/Ledger), the files and the operations on them, with the points at which an
--   append can stop (Campaign/Journal). Campaign/Replay and Campaign/Accounts say what a replay
--   returns, Campaign/Admission and Campaign/Transitions what the operations promise. A file that
--   holds a JSON object is the record of the object's fields; SHA-256 and the length of a file in
--   bytes are parameters, against which the limit of `read_private` is tested.
--
-- Uploads (packages/database/manual_uploads.py, packages/contracts/manual_upload.py): the contracts
--   (Uploads/Contracts), the tables with their constraints and how a row is read
--   (Uploads/Receipts), the methods of `ManualUploadRepository` on a receipt (Uploads/Repository)
--   and `create` (Uploads/Submissions), which takes the tables at its lookup and at its insertion,
--   since other transactions may come between. Uploads/Histories has the invariant,
--   Uploads/Lifecycle and Uploads/Creation that each method keeps it, Uploads/Sequences any
--   sequence of them in which `confirm_cancel_deletion`, which has no guard, records a deletion that
--   failed of a cancelled receipt only, as its caller does.
--
-- Times are numbers of microseconds, lengths within a call are numbers of one unit of which only
-- the order is used. Loops are recursion on the lists that they run over, but for the loop of the
-- pipeline.
--
-- Not modelled: the service of manual uploads (packages/manual_upload/service.py), which composes
-- Uploads, Calls and Reporting, and the other views and decisions of
-- packages/database/review_experience.py; the HTTP routes and middleware, the worker's process
-- loop, settings, migrations, logging, media files, the model provider's client and the other
-- scripts; of pydantic, the patterns and lengths of single fields.
pub mod Prelude
pub mod Policy
pub mod Contracts
pub mod Calls
pub mod Evidence
pub mod Operations
pub mod Campaign
pub mod Pipeline
pub mod Reporting
pub mod Uploads
