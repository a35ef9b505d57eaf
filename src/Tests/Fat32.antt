-- ===== src/Tests/Fat32.antt =====
-- kernel/fs/fat32/file.c at a file of two clusters of one sector.
use jnu.Base.{
  ℕ, ◌-◌, ◌%◌, ◌≡◌, refl, sym, ap, ◌∙◌, inl, inr, false, List, [], ◌∷◌, ◌++◌, Option, none, some,
  length, replicate, ◌==◌, if◌then◌else◌, ok, Bool-cases,
}
use jnu.Fs.Fat32.{
  Fat32, fat32_read, seek_cluster, read_from, cluster_valid, cluster_lba, next_cluster, fat_entry,
  smaller,
}
use jnu.Fs.Fat32.Chain.{Geometry}
use jnu.Fs.Fat32.Pieces.{Good}
use jnu.Fs.Fat32.Reads.{fat32_read-Good}

-- Cluster 3 follows cluster 2 and is the last.
abbrev table : List ℕ
table = replicate 8 0 ++ (3 ∷ 0 ∷ 0 ∷ 0 ∷ 255 ∷ 255 ∷ 255 ∷ 255 ∷ replicate 496 0)

abbrev volume : Fat32
volume = record {
  bytes_per_sec = 512;
  sec_per_clus = 1;
  rsvd_sec = 32;
  data_start_sec = 100;
  cluster_count = 70000;
  cluster_bytes = 512;
  sectors = λ l. some (if l == 32 then table else replicate 512 (l % 256));
}

abbrev two_clusters : List ℕ
two_clusters = 100 ∷ 100 ∷ 101 ∷ 101 ∷ []

across : fat32_read volume false 1000 2 510 4 ≡ ok two_clusters
unfolding fat32_read seek_cluster read_from cluster_valid cluster_lba next_cluster fat_entry
across = refl

abbrev bytes_or : Option (List ℕ) → List ℕ
bytes_or none = []
bytes_or (some bytes) = bytes

volume-Geometry : Geometry volume
volume-Geometry = record {
  sector = refl;
  cluster = inl refl;
  full = λ l bytes e. ap (λ o. length (bytes_or o)) (sym e) ∙ sized l;
}
  where
    sized : (l : ℕ) → length (if l == 32 then table else replicate 512 (l % 256)) ≡ 512
    sized l = elim (Bool-cases (l == 32)) [ inl k ↦ rw k refl | inr k ↦ rw k refl ]

fat32_read-Good_example : Good volume 2 510 (smaller 4 (1000 - 510)) two_clusters
fat32_read-Good_example = fat32_read-Good volume 1000 2 510 4 two_clusters volume-Geometry across
