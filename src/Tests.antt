-- ===== src/Tests.antt =====
-- Concrete runs of the program's parts.
pub mod Samples
pub mod Promises
pub mod Messages
pub mod Parsing
pub mod Stores
pub mod Table
pub mod Hosts
pub mod Users
pub mod LogStream
pub mod Session
pub mod Pages
pub mod Server
pub mod EndToEnd
pub mod Screens
