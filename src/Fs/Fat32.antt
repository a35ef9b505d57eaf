-- ===== src/Fs/Fat32.antt =====
-- kernel/fs/fat32/fat.c and kernel/fs/fat32/file.c: cluster chains and reads of FAT32 files. The sector
-- cache is the function `sectors` from sector numbers to bytes, where `none` is a failed read.
pub mod Places
pub mod Chain
pub mod Pieces
pub mod Reads
use jnu.Base.{
  ℕ, zero, suc, ◌+◌, ◌-◌, ◌*◌, ◌/◌, ◌%◌, ◌^◌, Bool, true, false, not, ◌&&◌, ◌||◌, Option, none,
  some, List, [], ◌∷◌, ◌++◌, get_or, take, drop, leb, ltb, ◌==◌, if◌then◌else◌, Result, ok, err,
  eio, eisdir, ◌>>=◌,
}

-- The fields of `struct fat32_priv` that count, and the sectors of the device.
pub record Fat32 : Type 0 where
  pub bytes_per_sec : ℕ
  pub sec_per_clus : ℕ
  pub rsvd_sec : ℕ
  pub data_start_sec : ℕ
  pub cluster_count : ℕ
  pub cluster_bytes : ℕ
  pub sectors : ℕ → Option (List ℕ)

-- `FAT32_EOC_MIN`
abbrev pub eoc_min : ℕ
eoc_min = 0x0ffffff8

abbrev pub is_eoc : ℕ → Bool
is_eoc cluster = leb eoc_min cluster

unfoldable pub cluster_lba : Fat32 → ℕ → ℕ
cluster_lba p cluster = p.data_start_sec + (cluster + 2 ^ 32 - 2) % 2 ^ 32 * p.sec_per_clus

unfoldable pub cluster_valid : Fat32 → ℕ → Bool
cluster_valid p cluster = leb 2 cluster && ltb cluster ((p.cluster_count + 2) % 2 ^ 32)

-- `fat32_rd32` without the top four bits.
unfoldable pub fat_entry : List ℕ → ℕ → ℕ
fat_entry bytes off =
    (get_or bytes off 0
      + 2 ^ 8 * get_or bytes (off + 1) 0
      + 2 ^ 16 * get_or bytes (off + 2) 0
      + 2 ^ 24 * get_or bytes (off + 3) 0)
    % 2 ^ 28

unfoldable pub next_cluster : Fat32 → ℕ → ℕ
next_cluster p cluster = elim (p.sectors (p.rsvd_sec + cluster * 4 / p.bytes_per_sec)) [
  | none ↦ eoc_min
  | some bytes ↦ fat_entry bytes (cluster * 4 % p.bytes_per_sec)
]

-- The walk to the cluster that holds the offset, and the steps so far; `none` ends the read.
unfoldable pub seek_cluster : Fat32 → ℕ → ℕ → ℕ → Option (ℕ × ℕ)
seek_cluster p cluster guard zero = some (cluster, guard)
seek_cluster p cluster guard (suc k) =
    let next = next_cluster p cluster in
    let rest = seek_cluster p next (guard + 1) k in
    if not (cluster_valid p cluster) || (is_eoc next || ltb p.cluster_count (guard + 1))
    then none
    else rest

abbrev pub smaller : ℕ → ℕ → ℕ
smaller a b = if ltb b a then b else a

-- The loop that copies, with fuel.
unfoldable pub read_from : Fat32 → ℕ → ℕ → ℕ → ℕ → ℕ → Result (List ℕ)
read_from p zero cluster guard cur left = ok []
read_from p (suc fuel) cluster guard cur left =
    let coff = cur % p.cluster_bytes in
    let soff = coff % p.bytes_per_sec in
    let chunk = smaller (p.bytes_per_sec - soff) left in
    let cross = ltb chunk left && (cur + chunk) % p.cluster_bytes == 0 in
    let cluster' = if cross then next_cluster p cluster else cluster in
    let guard' = if cross then guard + 1 else guard in
    let more = read_from p fuel cluster' guard' (cur + chunk) (left - chunk) in
    if left == 0 || not (cluster_valid p cluster)
    then ok []
    else elim (p.sectors (cluster_lba p cluster + coff / p.bytes_per_sec)) [
      | none ↦ err eio
      | some bytes ↦
          let piece = take chunk (drop soff bytes) in
          if cross && (is_eoc cluster' || ltb p.cluster_count guard')
          then ok piece
          else (more >>= λ rest. ok (piece ++ rest))
    ]

unfoldable pub fat32_read : Fat32 → Bool → ℕ → ℕ → ℕ → ℕ → Result (List ℕ)
fat32_read p is_dir size first_cluster offset len =
    let wanted = smaller len (size - offset) in
    if is_dir
    then err eisdir
    else if leb size offset || wanted == 0
    then ok []
    else elim (seek_cluster p first_cluster 0 (offset / p.cluster_bytes)) [
      | none ↦ ok []
      | some (cluster, guard) ↦ read_from p wanted cluster guard offset wanted
    ]
