-- ===== src/Network.antt =====
-- pkg/network: addresses and networks, their mapping, and the links and routes of the host.
pub mod Netlink
pub mod Tests
pub mod Link
pub mod Cidr
pub mod Bonding
pub mod Netmap
pub mod NetStat
pub mod Iptables
