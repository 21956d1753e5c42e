-- ===== src/Nethub.antt =====
-- internal/nethub/nethub.go: the Ethernet hub that the guests of one host share.
pub mod Framing
pub mod Hub
pub mod Ports
pub mod Flooding
