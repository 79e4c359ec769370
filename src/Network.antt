-- ===== src/Network.antt =====
pub mod Security
pub mod Settings
