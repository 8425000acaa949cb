-- ===== src/Inbound/Clients.antt =====
-- The clients of an inbound, by protocol (web/assets/js/model/inbound.js).
pub mod Vmess
pub mod Vless
pub mod Trojan
pub mod Shadowsocks
pub mod Awg
pub mod Nativewg
pub mod Account
