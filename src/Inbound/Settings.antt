-- ===== src/Inbound/Settings.antt =====
-- The settings of an inbound, by protocol (web/assets/js/model/inbound.js).
pub mod Vmess
pub mod Vless
pub mod Trojan
pub mod Shadowsocks
pub mod Tunnel
pub mod Mixed
pub mod Http
pub mod Tun
pub mod Amneziawg
pub mod Nativewg
pub mod Peer
pub mod Wireguard
