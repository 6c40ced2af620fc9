-- ===== src/Widgets.antt =====
-- The terminal widgets: src/server/widgets.
pub mod Inputs
pub mod Radio
pub mod Form
pub mod Table
