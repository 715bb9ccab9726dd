-- ===== src/Engine/Policy/Tests.antt =====
-- stub
