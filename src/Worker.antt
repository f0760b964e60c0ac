-- ===== src/Worker.antt =====
-- services/controller/src/worker.rs: the controller's command queue and what its commands do to the
-- tables. Each transaction is a function of the tables and of an `Env`; what it leaves behind when
-- it rolls back or fails is the tables as they were.
pub mod Claims
pub mod Events
pub mod Termination
pub mod Transitions
pub mod Fencing
pub mod Stale
pub mod Retry
pub mod Transactions
pub mod Effects
pub mod Execute
pub mod Queue
