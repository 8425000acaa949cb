-- ===== src/Tests.antt =====
-- Runs of the model at concrete inputs, and the theorems applied to such inputs.
mod HeaderRuns
mod ObjectRuns
mod InboundRuns
mod ModelRuns
mod RandomRuns
mod StreamRuns
mod WsRuns
mod OutboundRuns
mod LinkRuns
mod VlessLinkRuns
mod TrojanLinkRuns
