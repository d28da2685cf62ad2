-- ===== src/Lib.antt =====
-- Incident Intelligence Platform: a model of the Python package src/incident_intel.
--
-- The program ingests bundles of a support ticket and log events, once per idempotency key, into
-- PostgreSQL or into memory; queues classification jobs in a table that workers claim under a
-- lease; classifies a bundle by rules; and lets operators draft a response and decide on it.
-- Operators reach the repositories over HTTP with a signed token, through a service that checks
-- their role. Beside these stand the correlation of a bundle with known incidents, an adapter for
-- offboarding fixtures, receipts of webhook deliveries, and metrics.
--
-- Files, and what they model:
--   Prelude, Prelude/*      shared names, lists, keyed tables, ordered lists, dictionaries, texts
--   Failure, Failure/*      the exceptions, results, and SQLAlchemy's begin and connect blocks
--   Schemas, Schemas/*      src/incident_intel/schemas.py
--   Database                src/incident_intel/db.py, as lists of rows
--   Ingestion, Ingestion/*  src/incident_intel/ingestion.py, and PostgresIngestionStore of
--                           src/incident_intel/postgres.py; Contract is the specification of both
--   Jobs, Jobs/*            src/incident_intel/jobs.py, and PostgresJobRepository of postgres.py
--   Auth, Auth/*            src/incident_intel/auth.py: the role policy, and tokens in Auth/Tokens
--   Approvals, Approvals/*  src/incident_intel/approvals.py and postgres_approvals.py
--   AuthFailures            src/incident_intel/auth_failures.py: signals and risk
--   Classification          src/incident_intel/classification.py, and the test of citations of
--                           src/incident_intel/evaluate.py
--   Runbooks, Runbooks/*    src/incident_intel/runbooks.py
--   Incidents, Incidents/*  src/incident_intel/incidents.py and PostgresIncidentRepository
--   Services, Services/*    src/incident_intel/services.py
--   Worker, Worker/*        run_once and the waits of run_forever in src/incident_intel/worker.py
--   Observability, Observability/*  src/incident_intel/observability.py
--   Correlation, Correlation/*      src/incident_intel/correlation.py
--   Offboarding, Offboarding/*      src/incident_intel/offboarding.py
--   Webhooks, Webhooks/*            src/incident_intel/webhooks.py
--   Api, Api/*                      src/incident_intel/api.py: Authentication, the operations in
--                                   Handlers and Answers, and in Routes what surrounds them
--
-- How the program becomes a model. A UUID is a natural number, an instant a number of microseconds,
-- a confidence a number of hundredths, the worker's waits are in milliseconds, a latency is
-- the bits of a float, and the arithmetic of floats is an argument. A function of the package has the model's function of the
-- same name where a module declares one of that name only; the two stores' `ingest` are
-- `ingest_memory` and `ingest_postgres`, and the methods of the service are `read_incidents`,
-- `read_incident`, `read_job`, `read_classification`, `read_draft`, `create_job`,
-- `retry_failed_job`, `draft_response` and `decide_draft`. A transaction is a function from the database to a result
-- and a database, run by `engine_begin`, which keeps the old database when the block raises; an
-- argument says whether the database answers at all. An INSERT puts its row in front and raises
-- `IntegrityError` with the constraint's name where the code reacts to the constraint. The clock,
-- uuid4, the rows that other transactions have locked, the collation of the database, SHA-256 and
-- the JSON dumps are arguments, and so are, as records of operations, HMAC, base64, UTF-8 and
-- pydantic's JSON where tokens and cursors use them. A handler of the API is a function from the
-- state behind the requests to a result and that state; behind it stands the service over
-- PostgreSQL's repositories, whichever store takes the bundles. Calls from several processes are lists of calls, each
-- one transaction; what another component does in between is an arbitrary change of its own tables.
--
-- Bounds and fuel. All loops of the program are over lists. The only fuel is the number of pages that
-- Incidents/Walk follows; one more than there are matching incidents is enough. Numbers have no upper bound: the
-- columns of the database are wide enough for attempts and times that occur.
--
-- Not modelled: FastAPI's routing, parsing and rendering, create_app's choice of stores, the preview
-- of authentication evidence, the worker's signals and logging, the aggregate numbers of evaluate.py,
-- config.py, and the migrations, which state the schema of db.py again. Column lengths are not
-- modelled either, nor the last instant that a datetime can hold.
pub mod Prelude
pub mod Failure
pub mod Schemas
pub mod Database
pub mod Jobs
pub mod Ingestion
pub mod Auth
pub mod Approvals
pub mod AuthFailures
pub mod Classification
pub mod Runbooks
pub mod Incidents
pub mod Services
pub mod Worker
pub mod Observability
pub mod Correlation
pub mod Offboarding
pub mod Webhooks
pub mod Api
