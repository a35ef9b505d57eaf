-- ===== src/Fs/Bitmap.antt =====
-- kernel/fs/minix/bitmap.c: the inode and zone bitmaps of a MINIX file system. The buffer cache is
-- the function `blocks` from block numbers to bytes, where `none` is a block that it cannot read.
-- Allocation and freeing run under `bitmap_lock`.
pub mod Laws
use jnu.Base.{
  ℕ, zero, suc, ◌+◌, ◌-◌, ◌*◌, ◌/◌, ◌%◌, ◌^◌, Bool, true, false, not, ◌||◌, Option, none, some,
  List, [], ◌∷◌, get_or, set, leb, ltb, ◌==◌, if◌then◌else◌, Run, done, panic, update,
}

-- The fields of the superblock that count, and the cached blocks.
pub record Volume : Type 0 where
  pub ninodes : ℕ
  pub nzones : ℕ
  pub imap_blocks : ℕ
  pub zmap_blocks : ℕ
  pub firstdatazone : ℕ
  pub blocks : ℕ → Option (List ℕ)

-- `MINIX_BLOCK_SIZE * 8`
abbrev pub bits_per_block : ℕ
bits_per_block = 8192

-- Bit `bit % 8` of byte `bit / 8`.
unfoldable pub test_bit : List ℕ → ℕ → Bool
test_bit map bit = get_or map (bit / 8) 0 / 2 ^ (bit % 8) % 2 == 1

-- To set a bit that is clear adds its weight, to clear one that is set takes it off.
unfoldable pub set_bit : List ℕ → ℕ → List ℕ
set_bit map bit =
    if test_bit map bit then map else set map (bit / 8) (get_or map (bit / 8) 0 + 2 ^ (bit % 8))

unfoldable pub clear_bit : List ℕ → ℕ → List ℕ
clear_bit map bit =
    if test_bit map bit then set map (bit / 8) (get_or map (bit / 8) 0 - 2 ^ (bit % 8)) else map

-- The loop over the bits of a block whose first index is `base`, with `n` bits left.
unfoldable pub find_bit : List ℕ → ℕ → ℕ → ℕ → ℕ → Option ℕ
find_bit map base limit zero bit = none
find_bit map base limit (suc n) bit =
    let later = find_bit map base limit n (suc bit) in
    if base + bit == 0
    then later
    else if ltb limit (base + bit)
    then none
    else if test_bit map bit
    then later
    else some bit

abbrev pub write_block : Volume → ℕ → List ℕ → Volume
write_block v b bytes = record v { blocks = update v.blocks b (some bytes) }

-- The loop over the blocks of a map, with `n` blocks left; index 0 means that there is no free bit.
unfoldable pub alloc_from_map : Volume → ℕ → ℕ → ℕ → ℕ → Volume × ℕ
alloc_from_map v start_block limit zero blk = (v, 0)
alloc_from_map v start_block limit (suc n) blk = elim (v.blocks (start_block + blk)) [
  | none ↦ (v, 0)
  | some bytes ↦ elim (find_bit bytes (blk * bits_per_block) limit bits_per_block 0) [
    | none ↦ alloc_from_map v start_block limit n (suc blk)
    | some bit ↦ (write_block v (start_block + blk) (set_bit bytes bit), blk * bits_per_block + bit)
  ]
]

-- Panics if the block cannot be read, and on a double free.
unfoldable pub free_from_map : Volume → ℕ → ℕ → Run Volume
free_from_map v start_block idx =
    let b = start_block + idx / bits_per_block in
    let bit = idx % bits_per_block in
    elim (v.blocks b) [
      | none ↦ panic
      | some bytes ↦
          if test_bit bytes bit then done (write_block v b (clear_bit bytes bit)) else panic
    ]

unfoldable pub alloc_inode : Volume → Volume × ℕ
alloc_inode v = alloc_from_map v 2 v.ninodes v.imap_blocks 0

unfoldable pub free_inode : Volume → ℕ → Run Volume
free_inode v ino = if ino == 0 || ltb v.ninodes ino then panic else free_from_map v 2 ino

-- `s_nzones - s_firstdatazone`, as a 32-bit word
unfoldable pub zone_limit : Volume → ℕ
zone_limit v = (v.nzones + 2 ^ 32 - v.firstdatazone) % 2 ^ 32

unfoldable pub alloc_zone : Volume → Volume × ℕ
alloc_zone v =
    let (t, zidx) = alloc_from_map v (2 + v.imap_blocks) (zone_limit v) v.zmap_blocks 0 in
    (t, if zidx == 0 then 0 else v.firstdatazone + zidx - 1)

unfoldable pub free_zone : Volume → ℕ → Run Volume
free_zone v zone =
    if ltb zone v.firstdatazone || leb v.nzones zone
    then panic
    else free_from_map v (2 + v.imap_blocks) (zone - v.firstdatazone + 1)
