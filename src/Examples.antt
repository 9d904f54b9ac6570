-- ===== src/Examples.antt =====
-- Tests and runs of the theorems at concrete inputs.
mod Versions
mod Components
mod Images
mod Installs
mod Statuses
mod Reconciles
mod Installation
mod Drivers
mod Modules
mod Placeholders
mod Deletions
