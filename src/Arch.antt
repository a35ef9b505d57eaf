-- ===== src/Arch.antt =====
-- kernel/arch/x86_64: what the kernel does to the processor's own data.
pub mod Paging
