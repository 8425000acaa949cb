-- ===== src/Outbound/Stream.antt =====
-- The transport settings of an outbound (web/assets/js/model/outbound.js).
pub mod Kcp
pub mod Ws
pub mod Grpc
pub mod HttpUpgrade
pub mod Tls
pub mod Reality
pub mod Tcp
pub mod Xhttp
pub mod Hysteria
pub mod Sockopt
pub mod FinalMask
pub mod Settings
