-- ===== src/Tests/Fs.antt =====
-- kernel/fs/minix/bitmap.c at a volume whose maps begin with one byte each.
use jnu.Base.{◌≡◌, ◌≢◌, refl, [], ◌∷◌, some, arith}
use jnu.Fs.Bitmap.{Volume, alloc_inode, alloc_zone, alloc_from_map, find_bit, test_bit, zone_limit}
use jnu.Fs.Bitmap.Laws.{Lowest, alloc_inode-Lowest}

-- Bits 0 and 1 of each map are set.
abbrev volume : Volume
volume = record {
  ninodes = 5;
  nzones = 9;
  imap_blocks = 1;
  zmap_blocks = 1;
  firstdatazone = 4;
  blocks = λ b. some (3 ∷ []);
}

second_inode : (alloc_inode volume).1 ≡ 2
unfolding alloc_inode alloc_from_map find_bit test_bit
second_inode = refl

second_zone : (alloc_zone volume).1 ≡ 5
unfolding alloc_zone alloc_from_map find_bit test_bit zone_limit
second_zone = refl

inode_given : (alloc_inode volume).1 ≢ 0
inode_given e = absurd (omega (arith, second_inode))

zone_given : (alloc_zone volume).1 ≢ 0
zone_given e = absurd (omega (arith, second_zone))

alloc_inode-Lowest_example : Lowest volume 2 5 0 (alloc_inode volume).1
alloc_inode-Lowest_example = alloc_inode-Lowest volume inode_given
