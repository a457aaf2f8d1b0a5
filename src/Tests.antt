-- ===== src/Tests.antt =====
-- The theorems at concrete inputs, with runs of the definitions.
pub mod Forms
pub mod Ingest
pub mod Features
pub mod Store
pub mod Pipeline
pub mod Analytics
pub mod Twitch
pub mod Auth
pub mod Predict
pub mod Bus
pub mod Cli
pub mod Chat
pub mod Clips
pub mod Login
pub mod Startup
