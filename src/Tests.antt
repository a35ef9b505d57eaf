-- ===== src/Tests.antt =====
-- Small runs of each component at concrete inputs.
mod Boot
mod Fs
mod Mm
mod Sync
mod User
mod Initramfs
mod Rbtree
mod Vma
mod Clone
mod Exec
mod Protect
mod Fat32
