-- ===== src/Kernel.antt =====
-- The xv6 kernel, xv6-A1/kernel.
pub mod Log
pub mod Pipe
pub mod Strings
pub mod Kalloc
pub mod Proc
pub mod Syscall
pub mod Files
pub mod Sleeplock
pub mod Printf
pub mod Console
pub mod Fs
pub mod Bio
