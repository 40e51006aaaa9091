-- ===== src/Worker.antt =====
-- The body of WorkerThread of ServiceCall/ServiceCall.cpp: one call of a service routine.
pub mod Defs
pub mod Truncate
pub mod Serve
pub mod Items
pub mod Rpc
pub mod Thread
pub mod Sample
mod Tests
