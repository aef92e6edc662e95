-- ===== src/Manager/Diagram/Splices.antt =====
-- The steps of the check for spliced contracts.
use dlcdevkit.Manager.Environment.{Environment}
