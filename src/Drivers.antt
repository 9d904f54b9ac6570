-- ===== src/Drivers.antt =====
-- The checks of pkg/drivers.
pub mod Addresses
pub mod Arrays
pub mod Certificates
pub mod Prechecks
pub mod Sdc
pub mod Volumes
pub mod Placeholders
