-- ===== src/Exec/Elf.antt =====
-- kernel/exec/elf64.c: the check of an executable image. `read_at` of an image is a parameter: it gives
-- the bytes it has read, or an error.
pub mod Segments
pub mod Headers
pub mod Span
pub mod Accepts
use jnu.Base.{
  ℕ, zero, suc, ◌+◌, ◌-◌, ◌*◌, ◌/◌, ◌^◌, Bool, true, false, not, ◌&&◌, ◌||◌, Option, none, some,
  List, [], ◌∷◌, length, take, drop, leb, ltb, ◌==◌, if◌then◌else◌, add64, Result, ok, err, enoexec,
  ◌>>=◌,
}
use Prim.Native.Nat.{bit_and}
use jnu.Mm.Space.{user_top, has}

-- `struct exec_image`
pub record Image : Type 0 where
  pub read_at : ℕ → ℕ → Result (List ℕ)
  pub size : ℕ

-- `struct exec_load_info`
pub record LoadInfo : Type 0 where
  pub entry : ℕ
  pub low : ℕ
  pub high : ℕ

-- The fields that are read of `struct elf64_ehdr`.
pub record Ehdr : Type 0 where
  pub ident : List ℕ
  pub kind : ℕ
  pub machine : ℕ
  pub entry : ℕ
  pub phoff : ℕ
  pub phentsize : ℕ
  pub phnum : ℕ

-- The fields that are read of `struct elf64_phdr`.
pub record Phdr : Type 0 where
  pub kind : ℕ
  pub flags : ℕ
  pub offset : ℕ
  pub vaddr : ℕ
  pub filesz : ℕ
  pub memsz : ℕ

-- The number that bytes make, the lowest first.
unfoldable pub little_endian : List ℕ → ℕ
little_endian [] = 0
little_endian (b ∷ bs) = b + 256 * little_endian bs

abbrev pub field : ℕ → ℕ → List ℕ → ℕ
field off width bytes = little_endian (take width (drop off bytes))

unfoldable pub decode_ehdr : List ℕ → Ehdr
decode_ehdr b = record {
  ident = take 16 b;
  kind = field 16 2 b;
  machine = field 18 2 b;
  entry = field 24 8 b;
  phoff = field 32 8 b;
  phentsize = field 54 2 b;
  phnum = field 56 2 b;
}

unfoldable pub decode_phdr : List ℕ → Phdr
decode_phdr b = record {
  kind = field 0 4 b;
  flags = field 4 4 b;
  offset = field 8 8 b;
  vaddr = field 16 8 b;
  filesz = field 32 8 b;
  memsz = field 40 8 b;
}

unfoldable pub image_read_exact : Image → ℕ → ℕ → Result (List ℕ)
image_read_exact image off len =
    if ltb image.size off || ltb (image.size - off) len
    then err enoexec
    else (image.read_at off len >>= λ bytes. if length bytes == len then ok bytes else err enoexec)

-- The end of a range of user addresses.
unfoldable pub user_range : ℕ → ℕ → Option ℕ
user_range start len =
    let e = add64 start len in
    if len == 0 || ltb e start
    then none
    else if ltb start 0x1000 || leb user_top start || ltb user_top e
    then none
    else some e

abbrev same_bytes : List ℕ → List ℕ → Bool
same_bytes [] [] = true
same_bytes (x ∷ xs) (y ∷ ys) = x == y && same_bytes xs ys
same_bytes _ _ = false

-- What the check wants of the header: "\x7fELF", 64 bits, little-endian, `ET_EXEC`, `EM_X86_64`.
unfoldable pub good_header : Ehdr → Bool
good_header eh =
    same_bytes (take 4 eh.ident) (0x7f ∷ 0x45 ∷ 0x4c ∷ 0x46 ∷ [])
    && (field 4 1 eh.ident == 2
        && (field 5 1 eh.ident == 1
            && (eh.kind == 2 && (eh.machine == 62 && (eh.phentsize == 56 && not (eh.phnum == 0))))))

-- The variables of the loop over the program headers.
pub record Scan : Type 0 where
  pub low : ℕ
  pub high : ℕ
  pub loads : ℕ
  pub entry_in_exec : Bool

-- The conditions on a segment besides those on its range.
unfoldable pub bad_segment : ℕ → Phdr → Bool
bad_segment size ph =
    ltb ph.memsz ph.filesz
    || (ltb size ph.offset || (ltb (size - ph.offset) ph.filesz || bit_and ph.flags 3 == 3))

unfoldable pub scan_segment : ℕ → ℕ → Scan → Phdr → Result Scan
scan_segment size entry s ph =
    if not (ph.kind == 1)
    then ok s
    else if bad_segment size ph
    then err enoexec
    else elim (user_range ph.vaddr ph.memsz) [
      | none ↦ err enoexec
      | some end ↦ ok (record {
        low = if ltb ph.vaddr s.low then ph.vaddr else s.low;
        high = if ltb s.high end then end else s.high;
        loads = s.loads + 1;
        entry_in_exec =
            (has ph.flags 1 && (leb ph.vaddr entry && ltb entry end)) || s.entry_in_exec;
      })
    ]

-- The rounds from `i` on, `k` of them.
unfoldable pub scan_segments : Image → Ehdr → ℕ → ℕ → Scan → Result Scan
scan_segments image eh i zero s = ok s
scan_segments image eh i (suc k) s =
    image_read_exact image (add64 eh.phoff (i * 56)) 56 >>= λ bytes.
    (scan_segment image.size eh.entry s (decode_phdr bytes) >>= λ s'.
    scan_segments image eh (i + 1) k s')

abbrev pub start_scan : Scan
start_scan = record { low = user_top; high = 0; loads = 0; entry_in_exec = false }

unfoldable pub elf64_validate_image : Image → Result LoadInfo
elf64_validate_image image = image_read_exact image 0 64 >>= λ bytes.
    let eh = decode_ehdr bytes in
    if not (good_header eh)
    then err enoexec
    else if ltb image.size eh.phoff || ltb ((image.size - eh.phoff) / 56) eh.phnum
    then err enoexec
    else (scan_segments image eh 0 eh.phnum start_scan >>= λ s.
        if s.loads == 0 || not s.entry_in_exec
        then err enoexec
        else ok (record { entry = eh.entry; low = s.low; high = s.high }))
