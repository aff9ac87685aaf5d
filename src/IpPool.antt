-- ===== src/IpPool.antt =====
-- pkg/ippool: the pool of bonding addresses that the seed clients share through pod annotations.
pub mod Manager
pub mod Broker
mod Tests
