-- ===== src/Mock.antt =====
-- mock/: the store in memory, which the tests and prototypes run the server on.
pub mod Memory
pub mod Wiring
pub mod Server
