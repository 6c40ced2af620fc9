-- ===== src/Server.antt =====
-- The bastion server: src/server/bastion_server.rs and src/server/bastion_handler.rs.
pub mod Enforce
pub mod Offered
pub mod Login
pub mod Attempts
pub mod User
pub mod Handler
pub mod Sample
