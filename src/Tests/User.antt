-- ===== src/Tests/User.antt =====
-- kernel/user/fd.c and kernel/user/copy.c at small tables and one page.
use jnu.Base.{
  ℕ, ◌^◌, ◌≢◌, ◌+◌, ◌≤◌, ◌<◌, ◌≡◌, ◌↔◌, refl, ◌⊎◌, true, false, none, some, List, [], ◌∷◌, Result,
  ok, err, emfile, arith, length, set, ◌==◌, if◌then◌else◌,
}
use jnu.Base.Int.{pos, negsuc}
use jnu.User.Fd.{
  Slots, slot, max_fds, File, Heap, vfs, chardev, fd_table_init, fd_alloc, fd_close, fd_get,
  sys_close, fd_table_clone,
}
use jnu.User.Fd.Alloc.{Used, fd_alloc-lowest}
use jnu.User.Fd.Refs.{Counted, count, sys_close-Counted, fd_table_clone-Counted}
use jnu.User.Copy.{
  PageTable, user_top, user_range_ok, user_range_mapped, copy_string_from_user, copy_string,
  copy_chunk, chunk_size, check_pages, page_ok, page_of,
}
use jnu.User.Lseek.{file_size, seek, seek_end}
use jnu.User.Lseek.Laws.{Lands, seek_iff}
use jnu.User.Copy.Range.{MayAccess, user_range_ok_iff, user_range_mapped_iff}
use jnu.User.Copy.Text.{IsText, copy_string_from_user-IsText}

fd_alloc-lowest_example :
    ((fd : ℕ) × (fd_alloc fd_table_init (some 9) ≡ (set fd_table_init fd (some 9), ok fd))
      × (3 ≤ fd)
      × (fd < max_fds)
      × (slot fd_table_init fd ≡ none)
      × ((k : ℕ) → 3 ≤ k → k < fd → Used fd_table_init k)
      × (slot (fd_alloc fd_table_init (some 9)).0 fd ≡ some 9))
    ⊎ ((fd_alloc fd_table_init (some 9) ≡ (fd_table_init, err emfile))
        × ((k : ℕ) → 3 ≤ k → k < max_fds → Used fd_table_init k))
unfolding fd_table_init
fd_alloc-lowest_example = fd_alloc-lowest fd_table_init 9 refl

-- Descriptor 3 is the one pointer to file 9.
abbrev one_open : Slots
one_open = set fd_table_init 3 (some 9)

abbrev the_file : File
the_file = record { type = vfs; offset = 0; flags = 0; refcount = 1; inode = 4; size = 0 }

abbrev one_file : Heap
one_file = record { cell = λ f. if f == 9 then some the_file else none; closed = [] }

one_file-Counted : Counted one_file (λ f. 0 + count one_open f)
unfolding fd_table_init
one_file-Counted = record {
  exact = λ f c e. ground (arith, e);
  alive = λ f i. (the_file, ground (arith, i));
  held = λ f c e. ground (arith, e);
  few = λ f. ground arith;
}

sys_close-Counted_example :
    (h' : Heap) × (t' : Slots) × (r : Result (Unit {0})) × (sys_close one_file one_open (pos 3)
      ≡ some (h', t', r))
    × (t' ≡ (fd_close one_open (pos 3)).0)
    × ((r ≡ ok tt) ↔ ((f : ℕ) × (fd_get one_open (pos 3) ≡ some f)))
    × Counted h' (λ f. 0 + count t' f)
unfolding fd_table_init
sys_close-Counted_example = sys_close-Counted (λ f. 0) one_open (pos 3) refl one_file-Counted

few_copies : (f : ℕ) → 0 + count one_open f + count one_open f < 2 ^ 31
unfolding fd_table_init
few_copies f = ground arith

fd_table_clone-Counted_example :
    (h' : Heap) × (fd_table_clone one_file one_open ≡ some (h', one_open))
    × Counted h' (λ f. 0 + count one_open f + count one_open f)
fd_table_clone-Counted_example =
    fd_table_clone-Counted one_open (λ f. 0) one_file-Counted few_copies

abbrev the_len : ℕ
the_len = 16

user_range_ok_iff_example :
    (user_range_ok 0x1000 16 ≡ true)
    ↔ (((the_len ≡ 0) × (0x1000 < user_top)) ⊎ ((0 < 16) × (0 < 0x1000) × (0x1000 + 16 ≤ user_top)))
user_range_ok_iff_example = user_range_ok_iff 0x1000 the_len (omega arith) (omega arith)

-- One page is mapped, for reading only.
abbrev one_page : PageTable
one_page page = if page == 0x1000 then some (record { user = true; write = false }) else none

user_range_mapped_iff_example : (user_range_mapped one_page 0x1000 16 false ≡ ok tt) ↔ (
    (user_range_ok 0x1000 16 ≡ true)
    × ((b : ℕ) → 0x1000 ≤ b → b < 0x1000 + 16 → MayAccess one_page false b))
user_range_mapped_iff_example =
    user_range_mapped_iff one_page 0x1000 16 false (omega arith) (omega arith) (omega arith)

-- "A" and a terminator.
abbrev letters : ℕ → ℕ
letters a = if a == 0x1000 then 65 else 0

abbrev text : List ℕ
text = 65 ∷ 0 ∷ []

copied : copy_string_from_user one_page letters 0x1000 8 ≡ ok text
unfolding copy_string_from_user copy_string copy_chunk chunk_size user_range_mapped user_range_ok
    check_pages page_ok page_of
copied = refl

copy_string_from_user-IsText_example : IsText letters 0x1000 text × (length text ≤ 8)
copy_string_from_user-IsText_example =
    copy_string_from_user-IsText one_page letters 0x1000 8 text (omega arith) copied

-- A file of ten bytes, at its third.
abbrev ten : File
ten = record { type = vfs; offset = 3; flags = 0; refcount = 1; inode = 4; size = 0 }

ten_small : file_size (λ i. 10) ten < 2 ^ 63
unfolding file_size
ten_small = omega arith

seek_iff_example : (seek (λ i. 10) ten (negsuc 1) seek_end ≡ (record ten { offset = 8 }, ok 8)) ↔ (
    (ten.type ≢ chardev)
    × (8 ≤ file_size (λ i. 10) ten)
    × Lands (file_size (λ i. 10) ten) ten (negsuc 1) seek_end 8)
seek_iff_example = seek_iff (λ i. 10) ten (negsuc 1) seek_end 8 ten_small (omega arith)
