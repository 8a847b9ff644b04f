-- ===== src/Lib.antt =====
-- A model of the zero-downtime update system: the orchestrator that runs on a device, the API
-- server that tells it what to run, and the log entries that flow back. Code paths below are from
-- the repository's root.
--
-- Parts. The orchestrator (orchestrator/src) asks the API server which applications it should run,
-- merges that list into the running ones through Podman, and ships two kinds of log entries: its
-- own and those of the applications' containers. The API server (api-server/src) keeps versioned
-- assignments of OS versions and applications to devices and groups in a database, stores the logs
-- that devices post, lists them, and streams them to subscribers. The terminal interface (log-tui)
-- is such a subscriber.
--
-- Files.
-- - Prelude: Boolean tests on numbers, lists, results and byte strings.
-- - Logs: the entry types of common/src/device_api/logs.rs. Logs/Shipper is the task of
--   orchestrator/src/logging.rs (`flush`, and one turn of the `select!` as `handle`); Logs/Registry
--   is the task of orchestrator/src/podman/log_registry.rs, which keeps a buffer per application.
-- - Reconcile: orchestrator/src/loop_apps.rs. `next` is the iterator, Reconcile/Update has the
--   monad of `try_update`, the handlers of the three actions and the calls that they make
--   (`Application::launch_from_image` and `remove` of orchestrator/src/application.rs,
--   `create_container` of orchestrator/src/podman/wrapper.rs).
-- - Lifecycle: the loop of orchestrator/src/application.rs that keeps a container alive; `turn` is
--   one pass of its inner loop.
-- - OsSwitch: orchestrator/src/loop_os.rs over orchestrator/src/util/bootc_wrapper.rs; `try_switch`
--   is a cycle, and the deferred timer fires between cycles.
-- - Podman: of orchestrator/src/podman/wrapper.rs the log line parser, the calls on a container and,
--   in Podman/Images, the pull of an image; what Podman's stream yields is a parameter.
--   Podman/Containers creates containers and lists them again, and Podman/Decimal prints and reads
--   the ids of their labels.
-- - Db: the database layer. Db/Table is one table as SeaORM presents it, an interface of statements
--   and their laws; Db/OsAssignments is api-server/src/api_v1/db/os_assignments.rs with the hook of
--   api-server/src/dtos/os_assignment.rs, and Db/ApplicationAssignments and
--   Db/ApplicationConfigs likewise.
--   Db/Devices, Db/OsVersions, Db/PendingRegistrations and Db/ReportedAssignments are the tables of
--   those names.
-- - DeviceRoutes: what a device is told to run, api-server/src/api_v1/routes/device/.
-- - Auth: api-server/src/auth/, from the header of a request to the extension that it goes on with.
-- - Registration: POST /register, api-server/src/api_v1/routes/register.rs.
-- - Routes: what the handlers of the API server answer, and pages
--   (api-server/src/api_v1/routes/mod.rs and pagination.rs, common/src/lib.rs).
-- - LogApi: the logs in the API server. LogApi is the stream of api-server/src/api_v1/routes/logs.rs,
--   LogApi/Store the inserts of api-server/src/api_v1/ts_db/, LogApi/Publish the POST of
--   api-server/src/api_v1/routes/device/logs.rs, and LogApi/History the listings.
-- - LogTui: log-tui/src/app.rs. LogTui/Draw is the log pane of log-tui/src/ui.rs, LogTui/Run the loop
--   of log-tui/src/main.rs and LogTui/Stream the task of log-tui/src/client.rs. LogTui/Entry and
--   LogTui/Wrap are `render_entry` and `wrap_text` of log-tui/src/ui.rs, on characters.
-- - Crud: what users call, api-server/src/api_v1/routes/, a module for each file of handlers, with
--   the paged listings of api-server/src/api_v1/db/. Crud/Applications, Crud/Groups and
--   Crud/Tenants have the statements on those tables as well; Db/Keyed has the ones that are shared,
--   and Crud/Summaries is api-server/src/api_v1/db/device_summaries.rs.
-- - DeviceToken: the token of a device, orchestrator/src/util/device_jwt.rs.
-- - ApiClient: the client that sends it, orchestrator/src/api_client.rs; `req` is the request with
--   the registration after a 418, and ApiClient/Endpoints has the methods by endpoint.
-- - Examples: the theorems at concrete data.
--
-- Conventions. Identifiers and times are natural numbers; text is its UTF-8 bytes, which is the
-- order of Rust's `str`. The code compares and stores identifiers and does no arithmetic on them.
-- Logging calls are left out. Debug assertions are off, as in a release build: those of
-- `ReconcileIterator::new` are not modelled. A `HashMap` is an association list, and no definition
-- depends on its order but for the order in which the buffers are posted.
--
-- Outside world. What the cloud and Podman answer is a function of all requests so far, a parameter
-- of each task. The database is a parameter too, the record `Table`; its laws are those of SQL:
-- a selection returns the rows that pass its test, an insertion appends a row with a fresh key, an
-- update writes to the rows with the key, and a statement that fails changes nothing. A transaction
-- that is dropped before its commit is rolled back. Where NULL sorts is a parameter: PostgreSQL puts
-- it first in descending order, SQLite last.
--
-- Fuel. The `for` loop of `try_update` has the lengths of both lists as fuel, and each turn takes
-- an element of one; running out is a failure of its own.
-- `wrap_text` has two turns for the first character of a word and one for each other; printing a
-- number has ten digits, which an `i32` needs at most. An inner loop without fuel gives `none`.
--
-- Not modelled: configuration, the TPM and hardware readers, the construction of the HTTP client, the
-- router, the handlers of the audit log and the reported assignments, the sidebar and footer of the
-- terminal interface, and the migrations, whose unique indexes are a hypothesis where they matter.
-- sea-orm-timescale is a copy of another project's library.
pub mod Prelude
pub mod Logs
pub mod Reconcile
pub mod Lifecycle
pub mod OsSwitch
pub mod Podman
pub mod Db
pub mod Routes
pub mod Auth
pub mod Crud
pub mod DeviceToken
pub mod ApiClient
pub mod Registration
pub mod DeviceRoutes
pub mod LogApi
pub mod LogTui
pub mod Examples
