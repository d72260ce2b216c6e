-- ===== src/Server/Gateway.antt =====
-- packages/server/src/gateway.ts and elevate.ts: what a request of the browser makes the gateway do.
-- `Body` reads the fields of a request's body, `Routes` decides what a request asks for, `Elevated`
-- runs a capability call, and `Guards` has the theorems.
pub mod Body
pub mod Reading
pub mod Routes
pub mod Elevated
pub mod Refusals
pub mod Guards
pub mod Handling
pub mod Cleanup
