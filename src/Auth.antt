-- ===== src/Auth.antt =====
-- internal/auth: tokens of Twitch, how they are got, kept and refreshed, and the environment file.
pub mod Token
pub mod OAuth
pub mod Server
pub mod Manager
pub mod Env
