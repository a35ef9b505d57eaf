-- ===== src/Tests/Initramfs.antt =====
-- kernel/initramfs/ at an archive of one file.
use jnu.Base.{
  ℕ, ◌^◌, ◌<◌, ◌≡◌, refl, true, some, List, [], ◌∷◌, ◌++◌, Result, ok, arith, length, replicate,
}
use jnu.Initramfs.{Initrd, initramfs_init, initramfs_lookup}
use jnu.Initramfs.Cpio.{
  Entry, next, magic, read_header, parse_hex8, hex_digits, hexval, checked_add, memcmp, same_bytes,
  read, locate, check_trailer, align4,
}
use jnu.Initramfs.Cpio.Safe.{Ensures, Found, next-Located}
use jnu.Initramfs.Walk.{Loading, initramfs_init-total, initramfs_lookup-total}

abbrev two_digits : List ℕ
two_digits = replicate 7 b'0' ++ b'2' ∷ []

-- The file "a" with the text "hi".
abbrev archive : List ℕ
archive =
    magic
    ++ replicate 48 b'0'
    ++ two_digits
    ++ replicate 32 b'0'
    ++ two_digits
    ++ replicate 8 b'0'
    ++ b'a' ∷ 0 ∷ b'h' ∷ b'i' ∷ 0 ∷ 0 ∷ []

archive_small : length archive < 2 ^ 63
archive_small = omega arith

next-Located_example : Ensures (Found archive 0) (next archive 0)
next-Located_example = next-Located archive 0 archive_small

-- Another archive was ready before.
abbrev earlier : Initrd
earlier = record { bytes = magic; ready = true }

initramfs_init-total_example :
    (j : Initrd) × (r : Result ℕ) × (initramfs_init earlier archive ≡ some (j, r))
    × Loading earlier archive j r
initramfs_init-total_example = initramfs_init-total earlier archive archive_small

abbrev initrd : Initrd
initrd = record { bytes = archive; ready = true }

initramfs_lookup-total_example : (r : Result Entry) × (initramfs_lookup initrd (b'a' ∷ []) ≡ some r)
initramfs_lookup-total_example = initramfs_lookup-total initrd (b'a' ∷ []) archive_small

parsed :
    next archive 0
    ≡ some (
        ok (
          some (record {
            name_off = 110;
            name_len = 1;
            data_off = 112;
            data_len = 2;
            mode = 0;
            next_off = 116;
          })))
unfolding next read_header parse_hex8 hex_digits hexval checked_add memcmp same_bytes read locate
    check_trailer align4
parsed = refl
