-- ===== src/Status.antt =====
-- The status of an installation: pkg/operatorutils/status.go.
pub mod Pods
pub mod Checks
pub mod Calculate
