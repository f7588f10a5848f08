-- ===== src/Arq.antt =====
-- One exchange of the two tasks: the receiver's NACK pump (rist-transport/src/receiver.rs), and the
-- sender's answer to the datagram that it sends (rist-transport/src/sender.rs).
pub mod Served
pub mod Recovered
pub mod Resent
pub mod Exchange
pub mod Tests
