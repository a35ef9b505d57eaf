-- ===== src/Initramfs.antt =====
-- kernel/initramfs/initramfs.c: the archive that the boot loader hands over, and lookup in it.
pub mod Cpio
pub mod Walk
use jnu.Base.{
  ℕ, zero, suc, ◌+◌, ◌-◌, Bool, true, false, ◌&&◌, Option, none, some, List, [], ◌∷◌, length, leb,
  ltb, ◌==◌, if◌then◌else◌, min, take, drop, Result, ok, err, Errno, einval, enodev, enoent,
}
use jnu.Initramfs.Cpio.{Access, Entry, next, same_bytes}

-- `initrd_base`, `initrd_len` (the length of the list) and `initrd_ready`.
pub record Initrd : Type 0 where
  pub bytes : List ℕ
  pub ready : Bool

unfoldable pub skip_slash : List ℕ → List ℕ
skip_slash [] = []
skip_slash (c ∷ path) = let rest = skip_slash path in if c == b'/' then rest else c ∷ path

-- `path` without its terminator.
unfoldable pub path_match : List ℕ → Entry → List ℕ → Option Bool
path_match base e path =
    let p = skip_slash path in
    if length p == e.name_len then same_bytes base e.name_off p else some false

-- The walk of `initramfs_init`; `none` is a read out of range, or the fuel has run out.
unfoldable pub count_entries : ℕ → List ℕ → ℕ → ℕ → Access ℕ
count_entries zero base off files = none
count_entries (suc n) base off files = elim (next base off) [
  | none ↦ none
  | some (err e) ↦ some (err e)
  | some (ok none) ↦ some (ok files)
  | some (ok (some e)) ↦ count_entries n base e.next_off (files + 1)
]

-- `initrd_ready` is set only when the walk has come to the end.
abbrev pub loaded : List ℕ → Access ℕ → Option (Initrd × Result ℕ)
loaded base none = none
loaded base (some (err e)) = some (record { bytes = base; ready = false }, err e)
loaded base (some (ok files)) = some (record { bytes = base; ready = true }, ok files)

-- `i` is the static state before the call; an empty archive leaves it as it is. The archive's length
-- bounds the rounds, since each entry ends behind its start.
unfoldable pub initramfs_init : Initrd → List ℕ → Option (Initrd × Result ℕ)
initramfs_init i base =
    if length base == 0
    then some (i, err einval)
    else loaded base (count_entries (suc (length base)) base 0 0)

-- The walk of `initramfs_lookup`.
unfoldable pub find_entry : ℕ → List ℕ → ℕ → List ℕ → Access Entry
find_entry zero base off path = none
find_entry (suc n) base off path = elim (next base off) [
  | none ↦ none
  | some (err e) ↦ some (err e)
  | some (ok none) ↦ some (err enoent)
  | some (ok (some e)) ↦ elim (path_match base e path) [
    | none ↦ none
    | some true ↦ some (ok e)
    | some false ↦ find_entry n base e.next_off path
  ]
]

unfoldable pub initramfs_lookup : Initrd → List ℕ → Access Entry
initramfs_lookup i path =
    let found = find_entry (suc (length i.bytes)) i.bytes 0 path in
    if i.ready then found else some (err enodev)

-- `file` is the bytes of a file found; the bytes copied to `buf`.
unfoldable pub initramfs_read_at : List ℕ → ℕ → ℕ → List ℕ
initramfs_read_at file off len =
    if leb (length file) off then [] else take (min len (length file - off)) (drop off file)
