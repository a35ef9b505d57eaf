-- ===== src/Mm.antt =====
-- kernel/mm: memory management.
pub mod Pmm
pub mod Vma
pub mod Space
