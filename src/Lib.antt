-- ===== src/Lib.antt =====
-- Managed Python Runner Engine: requests of NiFi processors run Python operators in sandboxes, once
-- for each logical request.
--
-- `RunnerService` (runner_engine/service.py) checks a request against its lease, its release and
-- its policy, claims the request's idempotency key in the tables, takes a worker from the pool, has
-- the backend run the operator, records the result, and gives the worker back. `RunnerDB`
-- (runner_engine/state.py) keeps leases, runs and idempotency keys in PostgreSQL. `WorkerPool`
-- (runner_engine/pool.py) keeps idle sandboxes by tenant, runtime and profile, and counts the
-- sandboxes that live with `Quota` (runner_engine/quota.py). The sandboxes are behind
-- `SandboxBackend` (runner_engine/sandbox/backend.py).
--
-- The images and the releases come from two other services. `PublishService`
-- (publish_service/service.py) compiles a virtual contract (operator_authoring/compiler.py) for a
-- backend and publishes it; a runner's release needs an image with the operator's packages, which
-- `BuildService` (build_service/service.py) finds, shares or builds. Each keeps its own tables:
-- `PublishStore` (publish_service/store.py) and `BuildStore` (build_service/store.py).
--
-- Files:
--   Errors, Model      runner_engine/errors.py and model.py; `Result` is what code that may raise
--                      returns
--   State              runner_engine/state.py. `Db` is the three tables. A method's block is one
--                      transaction, a function `Db → Result (A × Db)`: what raises commits nothing.
--     State/Leases, State/Claims, State/Maintenance   the methods of `RunnerDB`
--     State/Consistency, State/Reach, State/Replay    the tables in step, over any history of
--                      calls; replay and exclusion
--   Base64             `base64` of Python's standard library, of ASCII text
--   Quota              runner_engine/quota.py
--   Backend            the sandbox backend: a record of operations over a state of its own, which
--                      the pool and the service take as a parameter; each may raise
--   Pool               runner_engine/pool.py. A `Worker` object is a cell of `Pool.workers`, and a
--                      reference to it is its place there.
--     Pool/Isolation   whose worker is handed out; Pool/Recording: a backend whose calls of `create`
--                      and `destroy` are recorded; Pool/Accounting: the quota and the recorded calls
--                      against the workers
--   Service            runner_engine/service.py. `invoke` is the chain of its steps `admit`,
--                      `admitted_run`, `claimed`, `execute`, `acquired`, `ran`, `completed` and
--                      `persisted`, with `failed` for the `except` clauses.
--   Gateway            runner_engine/gateway.py: `AccessControl` and the handlers, which call the
--                      service where `authorize` or `authorize_lease` lets them
--   Catalog            runner_engine/catalog.py, over a folder for each release
--   Http               what a route of FastAPI ends with
--   Build              build_service. Lock and Model: model.py, the packages and the key of a lock;
--                      Rows and Store: store.py, whose methods are functions over `BuildDb`;
--                      Builder: builder.py, with the programs that it runs in `Tools`; Service:
--                      service.py, where `resolve` is the chain of `resolve_locked`,
--                      `resolve_existing`, `resolve_new` and `resolve_exact`, and `build` is `_build`
--                      with `run_build` for the `try` and its `except`; App: the routes of app.py
--     Build/Store/Steps   the store's specification: one committed call, and any history of them
--     Build/Store/Sharing whose packages an environment has; Build/Service/Answers: what is returned
--   Authoring          operator_authoring/model.py (Model) and compiler.py (Plans, Compiler)
--   Publish            publish_service. Rows: schema.py; Store: store.py, over `PublishDb`;
--                      Selection: selection.py and the requests of model.py; Backends: backends/;
--                      Service: service.py, where `publish_backend` is `compile_backend` and
--                      `run_publish`, the `try` and its `except`; App: the routes of app.py
--   Tests              a runner with one release, a build service and a publish service, on which
--                      the theorems are used
--
-- Bounds: times are natural numbers, microseconds in the tables and milliseconds in the pool, and
-- integers have no limit, as in Python; the fields of a contract that have one
-- value are left out. No definition runs on fuel: every loop is over a list.
--
-- Parameters: the backend; `Catalog.get` as `Settings.catalog`, which Catalog models by itself; the
-- digests of `hashlib` over the content and over the canonical JSON (`Hashing`); new `uuid4`
-- identifiers and the clocks' values, as arguments (`Draws`, `PublishDraws`). The build service's
-- digests are `Digests`, and the commands that it runs `Tools`, each of which may raise; the publish
-- service has `Rendering` and `BackendHashes`, and takes the file system, the scanner, the source
-- store, the client of the build service and the writers of artifacts as fields of `PublishService`.
--
-- Statements of SQL fail only as written out: the columns' types are not modelled (UUID, VARCHAR(64),
-- INTEGER and BIGINT are unbounded texts and numbers), nor PostgreSQL's refusal of NUL characters in
-- TEXT and JSONB, nor a lost connection. The options of a publication are texts.
--
-- Not modelled: interleavings within a method of the pool or of the services, where each method of
-- a store is one step; threads, logging and the connection pool; the creation and the migration of
-- the schema; gRPC's server and messages, the publisher, the agent in the sandbox; the scanner of
-- Python's source, the adapter's text, the source store's files and analyze; the web demo and the
-- NiFi processors.
mod Prelude
pub mod Errors
pub mod Model
pub mod Base64
pub mod State
pub mod Quota
pub mod Backend
pub mod Pool
pub mod Service
pub mod Gateway
pub mod Catalog
pub mod Http
pub mod Authoring
pub mod Publish
pub mod Build
mod Tests
