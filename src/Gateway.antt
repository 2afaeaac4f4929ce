-- ===== src/Gateway.antt =====
-- apps/server/src/agents/agents.gateway.ts: the server's end of the agents' WebSocket.
pub mod State
pub mod Calls
pub mod Disconnect
pub mod Handlers
pub mod Messages
pub mod Step
pub mod Ledger
pub mod Cleanup
pub mod Routing
pub mod Connections
