-- ===== src/User.antt =====
-- kernel/user: what a process has open.
pub mod Fd
pub mod Copy
pub mod Lseek
