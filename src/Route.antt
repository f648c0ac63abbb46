-- ===== src/Route.antt =====
-- Routes: the record of iproute.hpp, and its text form on Linux and on macOS.
pub mod Library
pub mod IpRoute
pub mod Linux
pub mod Apple
pub mod Tests
