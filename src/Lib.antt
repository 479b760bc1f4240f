-- ===== src/Lib.antt =====
-- Verification of the durable core of SeanOS (`sean_os/`), a store on SQLite through which agents,
-- workers and schedules do governed work.
--
-- The parts, and the files that model them:
--   Db, Db/Actors, Db/Rows, Db/Outbox  the tables of sean_os/schema.sql as lists of rows, and the
--     object `SeanOSStore` (sean_os/store.py) as a record with the database that the connection
--     sees and the one that the last commit left.
--   Exec, Exec/Laws, Exec/Preserves  methods, which return or raise and change the store in both
--     cases, with the rules by which they keep an invariant.
--   Table, Table/Laws, Time, Json, Text, Security, Prelude  SQL on lists, times, JSON values, texts
--     and the secret scan of sean_os/security.py.
--   Security/Clean  the secret scan against a description of what it finds.
--   Access  `_audit`, `_authorize` and the kill switch.
--   Budget  the budgets, their reservations and usage events.
--   Queue   `enqueue_work`; Queue/Claim `claim_work`; Queue/Finish `block_work`, `complete_work` and
--     `fail_work`; Queue/History and Queue/Hold sequences of these calls.
--   Budget/Accounts, Budget/Conserved, Budget/Invariant, Access/Preserves, Queue/Preserves  the
--     invariants of the books, and the methods that keep them.
--   Access/Permits, Approvals/Once, Policy/Gate, Policy/Replay, Scheduler/Once, Records/Versions,
--     Reports/Export, Queue/Claim/Lease, Queue/Claim/Next, Queue/Claim/Exclusive, Queue/Claim/Progress,
--     Records/Roundtrip, Restores/Guard  proofs about one component each.
--   Records, Records/Reading  the canonical records, relationships and the lifecycle of projects.
--   Approvals, Approvals/Consume  requests, decisions and uses of approvals.
--   Actions, Policy  the receipts of actions and the registry of sean_os/policy.py, through which
--     every action runs.
--   Scheduler  sean_os/scheduler.py.
--   Transfers, Transfers/Lease, Transfers/Execution, Transfers/Approval  the outbox of backup
--     transfers.
--   Transfers/Lifecycle  the lifecycle of a transfer as an automaton; Transfers/Preserves with its
--     children, Approvals/Preserves  the methods that follow it; Transfers/History,
--     Transfers/History/Evidenced  sequences of calls; Transfers/Authorized  what an
--     authorization has used.
--   Restores, Restores/Approval, Restores/Lease, Restores/Execution  the outbox of backup restores.
--   Deliveries, Deliveries/Listing, Deliveries/Approval, Deliveries/Lease, Deliveries/Finish  the
--     outbox of alert deliveries.
--   Deliveries/Reset  what a reset leaves.
--   Outbox, Outbox/Kept  tables whose rows go through a lifecycle.
--   Alerts, Alerts/Incidents  the observations of alerts and their incidents.
--   Health  `runtime_health`; Monitoring with its children  sean_os/monitoring.py, and proofs that
--     it agrees with the store.
--   Reports  the audit events that an actor sees, the sale export and the heartbeats.
--   Examples with its children  concrete stores and the theorems at them.
--
-- Each method is one function with the name of the source's method. It takes a reading of the clock
-- and the new `uuid4` ids that the source draws as arguments. Calls follow each other as whole
-- methods on one connection; those of other connections are such calls as long as none of them
-- leaves a transaction open. BEGIN IMMEDIATE raises inside an open transaction.
--
-- Numbers are natural numbers. Units of cost are whole, where the columns are REAL: the rounding of
-- sums of fractions is left out. Of the texts of a cost that `float` reads, only those of digits are
-- read here, and the others are refused. The texts of times have the form that `isoformat` gives
-- them, and `lower`, `upper` and `strip` are those of ASCII. JSON is stored as its value. The
-- regular expressions of the secret scan, the local calendar, the SHA-256 digest, the formatting of
-- times and numbers, SQLite's check of its file and the checks of backup evidence are parameters. A
-- message into which the store writes a value is a fixed text here. Every recursion is structural,
-- so that no fuel is used.
--
-- Not modelled: the files of the database and its migrations, the export package that writes
-- files, the checks of backup evidence (sean_os/backup_*.py), the agents and the scripts.
pub mod Prelude
pub mod Exec
pub mod Text
pub mod Json
pub mod Time
pub mod Table
pub mod Outbox
pub mod Security
pub mod Db
pub mod Access
pub mod Budget
pub mod Queue
pub mod Examples
pub mod Records
pub mod Approvals
pub mod Actions
pub mod Policy
pub mod Scheduler
pub mod Transfers
pub mod Restores
pub mod Alerts
pub mod Deliveries
pub mod Reports
pub mod Health
pub mod Monitoring
