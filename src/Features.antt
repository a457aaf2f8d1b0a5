-- ===== src/Features.antt =====
-- internal/features: chat text to numbers, and numbers to windows.
pub mod Normalize
pub mod Hype
pub mod Compute
pub mod Monitor
