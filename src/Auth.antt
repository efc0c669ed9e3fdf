-- ===== src/Auth.antt =====
-- Roles and lockouts of crates/plc-auth.
pub mod Role
pub mod Lockout
