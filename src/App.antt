-- ===== src/App.antt =====
-- The applications behind a connection: src/server/app.
mod Sample
mod Tests
pub mod World
pub mod Screen
pub mod Password
pub mod TargetSelector
pub mod Harmless
pub mod Bastion
pub mod Method
pub mod Permission
pub mod ConnectTarget
