-- ===== src/Web.antt =====
-- The web client, apps/web/src.
pub mod LogStream
pub mod LogsView
pub mod Theme
pub mod Tokens
pub mod Api
pub mod Session
pub mod Screens
pub mod Confirm
pub mod Commands
pub mod Table
pub mod RowActions
pub mod Environment
pub mod Metrics
pub mod HostName
pub mod Rename
pub mod HostInventory
pub mod HostList
pub mod Selection
pub mod Views
pub mod ErrorBoundary
pub mod Toasts
pub mod Status
pub mod Format
