-- ===== src/Device.antt =====
-- The tun device: the system calls behind it, the setup of its addresses and its life.
pub mod Driver
pub mod Command
pub mod Process
pub mod Report
pub mod Json
pub mod IfAddrs
pub mod Setup
pub mod Life
pub mod Threads
pub mod Rounds
pub mod Alloc
pub mod Tests
