-- ===== src/Desired/Reports.antt =====
-- What the controller is told of a pass.
