-- ===== src/Packet.antt =====
-- The packet path: the pool of packet buffers, the statistics and the queue between two threads.
pub mod Statistic
pub mod Buffer
pub mod Ring
pub mod Queue
pub mod Tests
