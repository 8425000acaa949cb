-- ===== src/Inbound.antt =====
-- The protocols of an inbound (web/assets/js/model/inbound.js).
pub mod Clients
pub mod Fallback
pub mod Settings
pub mod Protocol
pub mod Sniffing
pub mod Model
pub mod VmessLink
pub mod VlessLink
pub mod TrojanLink
