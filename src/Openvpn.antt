-- ===== src/Openvpn.antt =====
-- pkg/openvpn/health: the status of the OpenVPN server, and whether it is alive and ready.
mod Tests
pub mod Status
pub mod Health
pub mod Exporter
