-- ===== src/Server.antt =====
-- pkg/vpn_server, pkg/openvpn/config_server.go and cmd/vpn_server: the VPN server of the seed.
pub mod Values
pub mod Rules
pub mod Firewall
pub mod Files
pub mod Run
pub mod Commands
