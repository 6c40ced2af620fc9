-- ===== src/Terminal.antt =====
-- The terminal: src/terminal.
pub mod Completion
