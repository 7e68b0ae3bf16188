-- ===== src/Feeds.antt =====
-- crates/roshi/src/oracle.rs and oracle/: the readers of oracle accounts, from their bytes to a
-- price that a handler may use.
pub mod Parse
pub mod Pyth
pub mod Scope
pub mod Switchboard
pub mod Session
