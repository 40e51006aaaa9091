-- ===== src/Server.antt =====
-- The server's side of ServiceCall/ServiceCall.cpp: ScInitializeService, ScRegisterServiceRoutineW,
-- ScUnregisterServiceRoutine and the loop of WaitThread.
pub mod Resources
pub mod Register
pub mod Unregister
pub mod Wait
pub mod Registered
pub mod Rounds
mod Ends
pub mod Lifetime
mod Holdings
pub mod Ledger
mod Progress
mod LifetimeTests
mod Tests
