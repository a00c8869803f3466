-- ===== src/Lib.antt =====
-- The server of kenkui: durable audiobook jobs, their storage, and what is charged for them.
--
-- The program keeps jobs in a database that API requests, render workers and a supervisor share.
-- A job is admitted with a dispatch in one transaction; a worker claims the dispatch with a lease,
-- reads a snapshot of the job, computes the next snapshot with the pure transitions, and writes it
-- back under an optimistic version check, together with one event of the job's event log.
--
-- Which file models which code (paths are below src/kenkui_server):
--   Prelude/*                        Boolean tests, lists, texts (`str` as a list of code points),
--                                    signed integers, errors as values, rolled-back transactions
--                                    (Transaction) and in-memory methods (Action)
--   Jobs/Models, Jobs/Transitions    jobs/models.py, jobs/transitions.py
--   Jobs/Validation, Jobs/Settings   jobs/models.py: the `__post_init__` methods
--   Storage/Tables                   the schema of storage/migrations and its statements
--   Storage/Repositories             storage/repositories.py: compound writes (`Repositories`)
--   Storage/Execution                storage/repositories.py: execution leases
--   Storage/Changes                  what one call does to the job rows and the event log
--   Storage/System                   every interleaving of committed calls, with old snapshots
--   Storage/System/Jobs              the job rows and the event log of every reachable state
--   Storage/System/Routing, Slots,   the dispatches and the leases of every reachable state, and
--     Effects, Bound                 the number of active jobs
--   Storage/Leases                   what a lease is worth to its holder
--   Storage/Codec                    storage/repositories.py: the JSON columns
--   Storage/Queries                  storage/repositories.py: the repositories of single tables
--   Hosted/Tables, Lots, Billing     storage/postgres.py and storage/credit_lots.py: the billing
--                                    tables of migrations/postgresql with their keys and checks
--   Hosted/Repositories, Execution   storage/postgres.py and storage/postgres_execution.py: the calls
--                                    that write the job tables and the billing tables together
--   Hosted/Queries, Identities       storage/postgres.py: the repositories of single tables, and of
--                                    identities and notifications
--   Hosted/Balance, Statuses,        what these calls do to balances, authorizations, job rows and
--     Changes, Slots                 active jobs
--   Hosted/System                    interleavings of committed hosted calls; Runs adds claims
--                                    whose first query was made at an earlier time
--   Dispatcher, Hosted/Dispatcher    jobs/dispatcher.py, on top of the repositories
--   Billing/*                        billing/models.py, billing/service.py, billing/pricing.py,
--                                    billing/stripe.py; a webhook calls the service, and the
--                                    service the repository
--   Notifications/*                  notifications/service.py
--   Retention, Retention/*           storage/retention.py
--   Worker                           worker.py: the progress callback `on_event` of a render, up
--                                    to the job that it hands to `_update`
--
-- Representation. Identifiers that the server makes, or that are only compared, are numbers;
-- texts of clients are lists of code points. Time is a number of clock ticks, and the value of each
-- clock reading and of each `uuid4` is an argument. JSON columns hold the decoded value. A table is
-- the list of its rows, newest first. A transaction that raises leaves no state, since it is
-- rolled back. A transaction is one step: SQLite runs it under BEGIN IMMEDIATE, and the PostgreSQL
-- statements lock or test the rows that they write, but for `claim_execution`, which is a step of its
-- own from the row that its first query gave. All loops are structural, so no fuel is used.
--
-- Not modelled: FastAPI routing and schemas, file systems and subprocesses, the external services
-- (Stripe, WorkOS, Modal, SMTP, R2), the rendering pipeline of the kenkui package, SQLite and
-- PostgreSQL themselves beyond the keys that their tables declare.
pub mod Prelude
pub mod Jobs
pub mod Storage
pub mod Billing
pub mod Notifications
pub mod Retention
pub mod Dispatcher
pub mod Hosted
pub mod Worker
