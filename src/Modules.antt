-- ===== src/Modules.antt =====
-- The checks of pkg/modules in front of an installation.
pub mod Redis
pub mod Prechecks
pub mod Switch
