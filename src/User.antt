-- ===== src/User.antt =====
-- The user programs of xv6-A1/user.
pub mod Grep
pub mod Printf
pub mod Ulib
