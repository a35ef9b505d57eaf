-- ===== src/User/Copy.antt =====
-- kernel/user/copy.c: checked access to user memory. The page tables are the parameter `flags`: what
-- `paging_get_flags` says of the page at an address (`none` is its error). Memory is a function from
-- addresses to bytes. Opening and closing access by SMAP changes no value.
pub mod Range
pub mod Text
use jnu.Base.{
  ℕ, zero, suc, ◌+◌, ◌-◌, ◌*◌, ◌/◌, ◌%◌, ◌^◌, Bool, true, false, not, ◌&&◌, ◌||◌, Option, none,
  some, List, [], ◌∷◌, ◌++◌, leb, ltb, ◌==◌, if◌then◌else◌, add64, Result, ok, err, Errno, efault,
  einval, enametoolong, min, set,
}

abbrev pub page_size : ℕ
page_size = 4096

-- `USER_TOP`
abbrev pub user_top : ℕ
user_top = 0x0000_8000_0000_0000

-- `PTE_USER` and `PTE_WRITE` of a present entry
pub record PageFlags : Type 0 where
  pub user : Bool
  pub write : Bool

abbrev pub PageTable : Type 0
PageTable = ℕ → Option PageFlags

-- The bounds of a range, unless it wraps.
unfoldable pub range_end : ℕ → ℕ → Option (ℕ × ℕ)
range_end uaddr len =
    if len == 0
    then some (uaddr, uaddr)
    else if ltb (add64 uaddr len) uaddr
    then none
    else some (uaddr, add64 uaddr len)

unfoldable pub user_range_ok : ℕ → ℕ → Bool
unfolding range_end
user_range_ok uaddr len = elim (range_end uaddr len) [
  | none ↦ false
  | some (start, end) ↦
      if len == 0
      then ltb start user_top
      else not (start == 0 || leb user_top start || ltb user_top end)
]

-- `addr & ~PAGE_MASK`
unfoldable pub page_of : ℕ → ℕ
page_of a = a / page_size * page_size

module _ (flags : PageTable) where
  unfoldable pub page_ok : Bool → ℕ → Bool
  page_ok write page = elim (flags page) [
    | none ↦ false
    | some f ↦ f.user && not (write && not f.write)
  ]

  -- The loop over the pages of a range, with `n` rounds left at most.
  unfoldable pub check_pages : Bool → ℕ → ℕ → ℕ → Bool
  check_pages write zero page end = true
  check_pages write (suc n) page end =
      let rest = check_pages write n (page + page_size) end in
      if ltb page end then page_ok write page && rest else true

  unfoldable pub user_range_mapped : ℕ → ℕ → Bool → Result (Unit {0})
  user_range_mapped uaddr len write =
      if not (user_range_ok uaddr len)
      then err efault
      else if len == 0
      then ok tt
      else elim (range_end uaddr len) [
        | none ↦ err efault
        | some (start, end) ↦
            if check_pages write (suc len) (page_of start) end then ok tt else err efault
      ]

  -- The bytes from `a` on.
  unfoldable pub bytes_at : (ℕ → ℕ) → ℕ → ℕ → List ℕ
  bytes_at memory a zero = []
  bytes_at memory a (suc n) = memory a ∷ bytes_at memory (suc a) n

  -- What is copied to the kernel's buffer.
  unfoldable pub copy_from_user : (ℕ → ℕ) → ℕ → ℕ → Result (List ℕ)
  copy_from_user memory usrc len =
      if len == 0 then ok [] else elim (user_range_mapped usrc len false) [
        | err e ↦ err e
        | ok _ ↦ ok (bytes_at memory usrc len)
      ]

  -- `memcpy` to user memory
  unfoldable pub write_bytes : (ℕ → ℕ) → ℕ → List ℕ → ℕ → ℕ
  write_bytes memory a [] q = memory q
  write_bytes memory a (b ∷ bs) q = if a == q then b else write_bytes memory (suc a) bs q

  unfoldable pub copy_to_user : (ℕ → ℕ) → ℕ → List ℕ → ℕ → Result (ℕ → ℕ)
  copy_to_user memory udst src len =
      if len == 0 then ok memory else elim (user_range_mapped udst len true) [
        | err e ↦ err e
        | ok _ ↦ ok (write_bytes memory udst src)
      ]

  -- The loop over the bytes of a chunk: those copied, and whether a terminator was among them.
  unfoldable pub copy_chunk : (ℕ → ℕ) → ℕ → ℕ → List ℕ × Bool
  copy_chunk memory a zero = ([], false)
  copy_chunk memory a (suc n) =
      let (rest, found) = copy_chunk memory (suc a) n in
      if memory a == 0 then (0 ∷ [], true) else (memory a ∷ rest, found)

  -- The size of the next chunk: to the end of the page, or of the buffer.
  unfoldable pub chunk_size : ℕ → ℕ → ℕ
  chunk_size curr room = min room (page_size - curr % page_size)

  -- The loop over the chunks with `room = max - done` bytes left in the buffer, and `n` rounds left.
  -- The result holds the bytes copied; on overflow the caller's buffer ends in a terminator too.
  unfoldable pub copy_string : ℕ → (ℕ → ℕ) → ℕ → ℕ → Result (List ℕ)
  copy_string zero memory curr room = err enametoolong
  copy_string (suc n) memory curr room =
      let size = chunk_size curr room in
      let chunk = copy_chunk memory curr size in
      let rest = copy_string n memory (add64 curr size) (room - size) in
      if room == 0 then err enametoolong else elim (user_range_mapped curr size false) [
        | err e ↦ err e
        | ok _ ↦
            if chunk.1
            then ok chunk.0
            else elim rest [ err e ↦ err e | ok bytes ↦ ok (chunk.0 ++ bytes) ]
      ]

  unfoldable pub copy_string_from_user : (ℕ → ℕ) → ℕ → ℕ → Result (List ℕ)
  copy_string_from_user memory usrc max =
      if max == 0 then err einval else copy_string (suc max) memory usrc max
