-- ===== src/Ingest.antt =====
-- internal/ingest: Twitch's chat lines, and the connection that they come over.
pub mod Parser
pub mod Client
