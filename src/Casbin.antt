-- ===== src/Casbin.antt =====
-- The access-control core of src/server/casbin.rs: role graphs and policy extensions.
pub mod Rules
pub mod Graph
pub mod Roles
pub mod Policy
pub mod Names
