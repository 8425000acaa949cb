-- ===== src/Stream.antt =====
-- The transport settings of an inbound (web/assets/js/model/inbound.js).
pub mod Kcp
pub mod Grpc
pub mod Ws
pub mod HttpUpgrade
pub mod Xhttp
pub mod Tcp
pub mod Tls
pub mod Reality
pub mod Sockopt
pub mod FinalMask
pub mod Settings
