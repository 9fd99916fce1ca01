-- ===== src/Admin.antt =====
-- The admin server: the rule for passwords.
pub mod Password
mod Tests
