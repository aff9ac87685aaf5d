-- ===== src/Tunnel.antt =====
-- pkg/shoot_client/tunnel: the tunnel controller of the shoot client and its watchdog.
mod Tests
pub mod Watchdog
pub mod Server
pub mod Controller
pub mod SetUp
pub mod Run
