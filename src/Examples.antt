-- ===== src/Examples.antt =====
-- Tests of the definitions, and the theorems applied to concrete data.
mod Registration
mod Auth
mod LogTui
mod LogPane
mod LogApi
mod LogTable
mod Memory
mod Logs
mod Reconcile
mod OsAssignments
mod ApplicationConfigs
mod ApplicationAssignments
mod Lifecycle
mod Podman
mod OsSwitch
mod ReportedAssignments
mod DeviceRoutes
mod Crud
mod Summaries
mod DeviceToken
mod ApiClient
