-- ===== src/Healer.antt =====
-- The Healer, the self-healing sidecar (healer/).
pub mod Models
pub mod Queue
pub mod Classifier
pub mod Applier
pub mod Pipeline
pub mod Security
pub mod RateLimit
pub mod Breaker
pub mod Server
pub mod Tests
