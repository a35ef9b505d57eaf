-- ===== src/Exec.antt =====
-- kernel/exec: executable images.
pub mod Elf
