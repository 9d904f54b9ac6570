-- ===== src/Examples/Installs.antt =====
-- A whole installation of a driver.
use csm_operator.Csm.{Csm}
