-- ===== src/Client.antt =====
-- pkg/vpn_client, cmd/vpn_client and what they use of pkg/openvpn: the VPN client of the shoot and of
-- the seed.
mod Tests
pub mod Sysctl
pub mod Rules
pub mod Cleanup
pub mod Bonding
pub mod Setup
