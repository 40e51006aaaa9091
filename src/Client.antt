-- ===== src/Client.antt =====
-- ScServiceCallW and RtlSystemLpcMessageLength of ServiceCall/ServiceCall.cpp: a client's call.
pub mod Defs
pub mod Status
mod Tests
