-- ===== src/Initramfs/Cpio.antt =====
-- kernel/initramfs/cpio_newc.c: the archive parser. A pointer into the archive is an offset, and a
-- read out of the archive's range gives `none` for the whole call.
pub mod Safe
use jnu.Base.{
  ℕ, zero, suc, ◌+◌, ◌-◌, ◌*◌, ◌/◌, ◌%◌, ◌^◌, Bool, true, false, not, ◌&&◌, Option, none, some,
  List, [], ◌∷◌, length, get_elem?, leb, ltb, ◌==◌, if◌then◌else◌, add64, Result, ok, err, Errno,
  einval, erange,
}

abbrev pub Access {ℓ} : Type ℓ → Type ℓ
Access A = Option (Result A)

infixl 5 ◌>>=◌ ◌>>◌
abbrev pub ◌>>=◌ : {A B : Type 0} → Access A → (A → Access B) → Access B
none >>= f = none
some (err e) >>= f = some (err e)
some (ok a) >>= f = f a

abbrev pub ◌>>◌ : {B : Type 0} → Access (Unit {0}) → Access B → Access B
m >> k = m >>= λ _. k

abbrev pub pure : {A : Type 0} → A → Access A
pure a = some (ok a)

abbrev pub guard : Bool → Access (Unit {0})
guard true = some (ok tt)
guard false = some (err einval)

pub record Entry : Type 0 where
  pub name_off : ℕ
  pub name_len : ℕ
  pub data_off : ℕ
  pub data_len : ℕ
  pub mode : ℕ
  pub next_off : ℕ

unfoldable pub align4 : ℕ → ℕ
align4 v = add64 v 3 / 4 * 4

unfoldable pub checked_add : ℕ → ℕ → Access ℕ
checked_add a b = if ltb (add64 a b) a then some (err erange) else some (ok (add64 a b))

unfoldable pub hexval : ℕ → Option ℕ
hexval c =
    if leb b'0' c && leb c b'9'
    then some (c - b'0')
    else if leb b'a' c && leb c b'f'
    then some (c - b'a' + 10)
    else if leb b'A' c && leb c b'F'
    then some (c - b'A' + 10)
    else none

-- The loop with `n` digits left; `v << 4` is free in its low digit, so `|` adds.
unfoldable pub hex_digits : List ℕ → ℕ → ℕ → ℕ → Access ℕ
hex_digits base zero p v = some (ok v)
hex_digits base (suc n) p v = elim (get_elem? base p) [
  | none ↦ none
  | some c ↦ elim (hexval c) [
    | none ↦ some (err einval)
    | some d ↦ hex_digits base n (suc p) (v * 16 % 2 ^ 32 + d)
  ]
]

unfoldable pub parse_hex8 : List ℕ → ℕ → Access ℕ
parse_hex8 base p = hex_digits base 8 p 0

-- `memcmp(base + p, text, n) == 0`
unfoldable pub same_bytes : List ℕ → ℕ → List ℕ → Option Bool
same_bytes base p [] = some true
same_bytes base p (c ∷ text) = elim (get_elem? base p) [
  | none ↦ none
  | some b ↦ elim (same_bytes base (suc p) text) [
    | none ↦ none
    | some rest ↦ some ((b == c) && rest)
  ]
]

unfoldable pub memcmp : List ℕ → ℕ → List ℕ → Access Bool
memcmp base p text = elim (same_bytes base p text) [ none ↦ none | some b ↦ some (ok b) ]

unfoldable pub read : List ℕ → ℕ → Access ℕ
read base p = elim (get_elem? base p) [ none ↦ none | some b ↦ some (ok b) ]

abbrev pub header_size : ℕ
header_size = 110

-- "070701"
abbrev pub magic : List ℕ
magic = b'0' ∷ b'7' ∷ b'0' ∷ b'7' ∷ b'0' ∷ b'1' ∷ []

-- "TRAILER!!!"
abbrev pub trailer : List ℕ
trailer = b'T' ∷ b'R' ∷ b'A' ∷ b'I' ∷ b'L' ∷ b'E' ∷ b'R' ∷ b'!' ∷ b'!' ∷ b'!' ∷ []

pub record Header : Type 0 where
  pub mode : ℕ
  pub filesize : ℕ
  pub namesize : ℕ

-- The fixed part of an entry, from the magic to the check of `namesize`.
unfoldable pub read_header : List ℕ → ℕ → Access Header
read_header base off = do
  good ← memcmp base off magic
  guard good
  mode ← parse_hex8 base (off + 14)
  filesize ← parse_hex8 base (off + 54)
  namesize ← parse_hex8 base (off + 94)
  guard (not (namesize == 0))
  pure (record { mode = mode; filesize = filesize; namesize = namesize })

-- The offsets of the name, the data and the next entry, each checked against the archive.
unfoldable pub locate : List ℕ → ℕ → Header → Access Entry
locate base off h = do
  name_off ← checked_add off header_size
  name_end ← checked_add name_off h.namesize
  guard (leb name_end (length base))
  last ← read base (name_end - 1)
  guard (last == 0)
  data_end ← checked_add (align4 name_end) h.filesize
  guard (leb data_end (length base))
  guard (leb (align4 data_end) (length base))
  pure (record {
    name_off = name_off;
    name_len = h.namesize - 1;
    data_off = align4 name_end;
    data_len = h.filesize;
    mode = h.mode;
    next_off = align4 data_end;
  })

-- `TRAILER!!!` ends the archive.
unfoldable pub check_trailer : List ℕ → Entry → Access (Option Entry)
check_trailer base e =
    if e.name_len == length trailer
    then memcmp base e.name_off trailer >>= (λ last. pure (if last then none else some e))
    else pure (some e)

-- `cpio_newc_next`: `none` for the return value 0, the entry for 1.
unfoldable pub next : List ℕ → ℕ → Access (Option Entry)
next base off =
    if leb (length base) off
    then pure none
    else if ltb (length base - off) header_size
    then some (err einval)
    else read_header base off >>= (λ h. locate base off h >>= (λ e. check_trailer base e))
