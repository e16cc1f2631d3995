-- ===== src/Proto.antt =====
-- proto/: the data types that the parts of the program exchange, and the pure code on them.
pub mod Errors
pub mod Types
pub mod Service
pub mod Enums
pub mod Access
pub mod Limits
pub mod Cycles
