-- ===== src/Boot.antt =====
-- What the kernel reads when it starts.
pub mod Cmdline
