-- ===== src/User/Fd.antt =====
-- kernel/user/fd.c: descriptor tables and the life of a `struct file`. Files live on a heap: a
-- pointer is a number, and a cell that is `none` is freed memory, which no function may touch (the
-- result `none`). A null pointer is the option `none`. Locks are taken and dropped within each call.
pub mod Alloc
pub mod Refs
use jnu.Base.{
  ℕ, zero, suc, ◌+◌, ◌-◌, ◌%◌, ◌^◌, Bool, true, false, ◌&&◌, Option, none, some, List, [], ◌∷◌, ltb,
  leb, ◌==◌, if◌then◌else◌, Result, ok, err, Errno, einval, emfile, update, get_or, set, replicate,
}
use jnu.Base.Int.{ℤ, pos, negsuc}

pub data FileType : Type 0 where
  initramfs vfs chardev : FileType

pub record File : Type 0 where
  pub type : FileType
  pub offset : ℕ
  pub flags : ℕ
  -- an `int`, as its 32-bit word
  pub refcount : ℕ
  -- the inode behind a file of type `vfs`
  pub inode : ℕ
  -- the size of a file of type `initramfs`
  pub size : ℕ

-- The heap of files, and the inodes handed to `vfs_close`, last first.
pub record Heap : Type 0 where
  pub cell : ℕ → Option File
  pub closed : List ℕ

-- `JNU_MAX_FDS`
abbrev pub max_fds : ℕ
max_fds = 32

-- `slots`, `JNU_MAX_FDS` pointers to files.
abbrev pub Slots : Type 0
Slots = List (Option ℕ)

abbrev pub slot : Slots → ℕ → Option ℕ
slot t fd = get_or t fd none

unfoldable pub fd_table_init : Slots
fd_table_init = replicate max_fds none

unfoldable pub file_destroy : Heap → ℕ → File → Heap
file_destroy h f c = elim c.type [
  | vfs ↦ record { cell = update h.cell f none; closed = c.inode ∷ h.closed }
  | _ ↦ record h { cell = update h.cell f none }
]

-- The word of an `int` stands for a number above 0.
abbrev pub positive : ℕ → Bool
positive w = ltb 0 w && ltb w (2 ^ 31)

-- `__atomic_add_fetch` and `__atomic_sub_fetch` wrap around.
abbrev pub up : ℕ → ℕ
up w = (w + 1) % 2 ^ 32

abbrev pub down : ℕ → ℕ
down w = (w + (2 ^ 32 - 1)) % 2 ^ 32

unfoldable pub file_get : Heap → Option ℕ → Option Heap
file_get h none = some h
file_get h (some f) = elim (h.cell f) [
  | none ↦ none
  | some c ↦
      some (record h { cell = update h.cell f (some (record c { refcount = up c.refcount })) })
]

-- The file is destroyed unless references are left.
unfoldable pub file_put : Heap → Option ℕ → Option Heap
file_put h none = some h
file_put h (some f) = elim (h.cell f) [
  | none ↦ none
  | some c ↦ some (
      if positive (down c.refcount)
      then record h { cell = update h.cell f (some (record c { refcount = down c.refcount })) }
      else file_destroy h f c)
]

-- The loop from descriptor 3 up, with `n` slots left.
unfoldable pub first_free : Slots → ℕ → ℕ → Option ℕ
first_free t zero fd = none
first_free t (suc n) fd = elim (slot t fd) [ none ↦ some fd | some f ↦ first_free t n (suc fd) ]

unfoldable pub fd_alloc : Slots → Option ℕ → Slots × Result ℕ
fd_alloc t none = (t, err einval)
fd_alloc t (some f) = elim (first_free t (max_fds - 3) 3) [
  | none ↦ (t, err emfile)
  | some fd ↦ (set t fd (some f), ok fd)
]

unfoldable pub fd_get : Slots → ℤ → Option ℕ
fd_get t (negsuc n) = none
fd_get t (pos fd) = if leb max_fds fd then none else slot t fd

unfoldable pub fd_close : Slots → ℤ → Slots × Option ℕ
fd_close t (negsuc n) = (t, none)
fd_close t (pos fd) = if leb max_fds fd then (t, none) else (set t fd none, slot t fd)

-- The loop over the slots of `src`: each file gains a reference, and `dst` gets the same pointers.
unfoldable pub fd_table_clone : Heap → Slots → Option (Heap × Slots)
fd_table_clone h [] = some (h, [])
fd_table_clone h (f ∷ src) = elim (file_get h f) [
  | none ↦ none
  | some h' ↦ elim (fd_table_clone h' src) [ none ↦ none | some (h'', dst) ↦ some (h'', f ∷ dst) ]
]

abbrev pub with_result : Slots → Option Heap → Option (Heap × Slots × Result (Unit {0}))
with_result t none = none
with_result t (some h) = some (h, t, ok tt)

-- The pointer taken out of the table is dropped.
abbrev pub put_closed : Heap → Slots × Option ℕ → Option (Heap × Slots × Result (Unit {0}))
put_closed h (t, none) = some (h, t, err einval)
put_closed h (t, some f) = with_result t (file_put h (some f))

-- Of a task with a process.
unfoldable pub sys_close : Heap → Slots → ℤ → Option (Heap × Slots × Result (Unit {0}))
sys_close h t fd = put_closed h (fd_close t fd)
