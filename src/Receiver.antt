-- ===== src/Receiver.antt =====
-- The receiver of rist-transport/src/receiver.rs: the recv task's four handlers, which take turns,
-- and the delivery thread, which shares the reorder buffer with them under a lock. An event brings
-- the instants at which the handler reads the clock.
pub mod State
pub mod Media
pub mod Control
pub mod Pump
pub mod Delivery
pub mod Steps
pub mod Tests
