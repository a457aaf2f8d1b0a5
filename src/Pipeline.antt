-- ===== src/Pipeline.antt =====
-- internal/pipeline/consumers.go: the consumers of the bus.
pub mod Cooldown
pub mod Clip
pub mod Start
