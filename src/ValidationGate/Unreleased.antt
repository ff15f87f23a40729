-- ===== src/ValidationGate/Unreleased.antt =====
-- validation-gate.js, classifyCodes: codes that no allowance releases.
