-- ===== src/Cipher/Tests.antt =====
-- The theorem on the list of suites at a concrete buffer.
