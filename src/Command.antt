-- ===== src/Command.antt =====
-- cmd/llama-stack/main.go: the administrative command.
pub mod Options
pub mod State
pub mod Secrets
pub mod Models
pub mod Resources
pub mod Server
pub mod Run
mod Tests
pub mod Admission
pub mod Kept
pub mod Import
