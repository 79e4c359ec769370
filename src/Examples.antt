-- ===== src/Examples.antt =====
-- Concrete inputs of the theorems, part by part.
pub mod Wifi
pub mod Sessions
pub mod Readers
pub mod Streams
pub mod RuleCases
pub mod Managers
pub mod Rings
pub mod StackLists
pub mod ScriptModels
pub mod Logging
pub mod Popups
pub mod Models
pub mod Clipboards
pub mod Texts
