-- ===== src/Outbound/Settings.antt =====
-- The settings of an outbound, by protocol (web/assets/js/model/outbound.js).
pub mod Fragment
pub mod Noise
pub mod Freedom
pub mod Blackhole
pub mod Dns
pub mod Vmess
pub mod Trojan
pub mod Shadowsocks
pub mod Socks
pub mod Http
pub mod Hysteria
pub mod Vless
pub mod Peer
pub mod Wireguard
