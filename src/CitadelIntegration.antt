-- ===== src/CitadelIntegration.antt =====
-- citadel-integration/src: the local evidence log.
pub mod WormLog
