-- ===== src/PathController.antt =====
-- cmd/vpn_client/app/pathcontroller: the controller that routes the seed's traffic through one of the
-- shoot clients.
mod Tests
pub mod Ping
pub mod Router
