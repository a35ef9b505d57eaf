-- ===== src/User/Lseek.antt =====
-- kernel/syscall/sys_lseek.c. The sizes of the inodes of a mounted file system are the parameter
-- `inode_size`.
pub mod Laws
use jnu.Base.{
  ℕ, ◌+◌, ◌-◌, ◌^◌, Bool, ◌||◌, Option, none, some, ltb, leb, if◌then◌else◌, Result, ok, err,
  einval, espipe, update,
}
use jnu.Base.Int.{ℤ, pos, negsuc, ◌+ℤ◌, ltb_ℤ}
use jnu.User.Fd.{FileType, initramfs, vfs, chardev, File, Heap, Slots, fd_get}

-- A 64-bit word read as a signed one.
unfoldable pub to_i64 : ℕ → ℤ
to_i64 w = if ltb w (2 ^ 63) then pos w else negsuc (2 ^ 64 - 1 - w)

pub data Whence : Type 0 where
  seek_set seek_cur seek_end other : Whence

module _ (inode_size : ℕ → ℕ) where
  unfoldable pub file_size : File → ℕ
  file_size f = elim f.type [ initramfs ↦ f.size | vfs ↦ inode_size f.inode | chardev ↦ 0 ]

  -- The base that an offset is relative to; `none` for an unknown `whence`.
  unfoldable pub seek_base : File → Whence → Option ℤ
  seek_base f seek_set = some (pos 0)
  seek_base f seek_cur = some (to_i64 f.offset)
  seek_base f seek_end = some (to_i64 (file_size f))
  seek_base f other = none

  -- The checks on the new offset; a sum below the range of the type is also negative.
  unfoldable pub new_offset : File → ℤ → Option ℕ
  new_offset f (negsuc n) = none
  new_offset f (pos n) =
      if leb (2 ^ 63) n || ltb_ℤ (to_i64 (file_size f)) (pos n) then none else some n

  -- The file as the call leaves it, and what the call returns.
  unfoldable pub seek : File → ℤ → Whence → File × Result ℕ
  seek f off whence = elim f.type [
    | chardev ↦ (f, err espipe)
    | _ ↦ elim (seek_base f whence) [
      | none ↦ (f, err einval)
      | some base ↦ elim (new_offset f (base +ℤ off)) [
        | none ↦ (f, err einval)
        | some n ↦ (record f { offset = n }, ok n)
      ]
    ]
  ]

  -- The whole call; `none` is an access to freed memory.
  unfoldable pub sys_lseek : Heap → Slots → ℤ → ℤ → Whence → Option (Heap × Result ℕ)
  sys_lseek h t fd off whence = elim (fd_get t fd) [
    | none ↦ some (h, err einval)
    | some p ↦ elim (h.cell p) [
      | none ↦ none
      | some f ↦
          let (f', r) = seek f off whence in some (record h { cell = update h.cell p (some f') }, r)
    ]
  ]
