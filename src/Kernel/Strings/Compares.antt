-- ===== src/Kernel/Strings/Compares.antt =====
-- x
