-- ===== src/Admin.antt =====
-- internal/admin: who may run a console command.
pub mod Hostmask
pub mod Flags
pub mod Console
mod Tests
