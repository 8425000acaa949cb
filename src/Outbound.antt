-- ===== src/Outbound.antt =====
-- The class `Outbound` and the classes that it holds (web/assets/js/model/outbound.js).
pub mod Stream
pub mod Mux
pub mod Settings
pub mod Protocol
pub mod Model
pub mod VmessLink
pub mod ParamLink
pub mod HysteriaLink
