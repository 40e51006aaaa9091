-- ===== src/Examples.antt =====
-- The program client/main.cpp and the server of server/main.cpp, over the library's functions.
pub mod Macros
pub mod Client
pub mod Server
pub mod Served
pub mod Query
pub mod Routine
pub mod Blobs
pub mod Main
pub mod Tests
mod QueryTests
mod MainTests
