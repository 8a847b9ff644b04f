-- ===== src/Db.antt =====
-- The database layer of the API server (api-server/src/api_v1/db/).
pub mod Table
pub mod Assignments
pub mod ApplicationAssignments
pub mod ApplicationConfigs
pub mod OsAssignments
pub mod Devices
pub mod Keyed
pub mod OsVersions
pub mod ReportedAssignments
pub mod PendingRegistrations
