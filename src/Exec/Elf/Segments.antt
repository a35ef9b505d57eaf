-- ===== src/Exec/Elf/Segments.antt =====
-- kernel/exec/elf64.c: the loop over the program headers of an image.
use jnu.Base.{
  ℕ, ◌+◌, ◌*◌, ◌^◌, ◌≤◌, ◌<◌, ◌≡◌, refl, ap, ◌⊎◌, inl, inr, Bool, true, false, ◌&&◌, ◌||◌, none,
  some, List, [], ◌∷◌, leb, ltb, ◌==◌, if◌then◌else◌, add64, ok, err, enoexec, arith, Bool-cases,
}
use Prim.Native.Nat.{bit_and}
use jnu.Mm.Space.{user_top, has}
use jnu.Exec.Elf.{
  Image, Phdr, Scan, decode_phdr, image_read_exact, user_range, bad_segment, scan_segment,
}

abbrev pub AllBytes : List ℕ → Type 0
AllBytes [] = Unit {0}
AllBytes (b ∷ bs) = (b < 256) × AllBytes bs

-- What the uint64_t size and the bytes of a buffer are.
pub record IsImage (image : Image) : Type 0 where
  pub small : image.size < 2 ^ 64
  pub bytes : (off len : ℕ) (bs : List ℕ) → image.read_at off len ≡ ok bs → AllBytes bs

abbrev pub is_load : Phdr → Bool
is_load p = p.kind == 1

-- A segment that may be loaded: its bytes are in the file, its addresses are user addresses above the
-- first page, and it is not both writable (2) and executable (1).
pub record Segment (size : ℕ) (p : Phdr) : Type 0 where
  pub in_file : p.offset + p.filesz ≤ size
  pub zero_filled : p.filesz ≤ p.memsz
  pub exclusive : (bit_and p.flags 3 == 3) ≡ false
  pub above : 4096 ≤ p.vaddr
  pub inhabited : 0 < p.memsz
  pub below : p.vaddr + p.memsz ≤ 2 ^ 47

abbrev pub AllGood : ℕ → List Phdr → Type 0
AllGood size [] = Unit {0}
AllGood size (p ∷ ps) = (is_load p ≡ true → Segment size p) × AllGood size ps

-- The program headers from number `i` on, as the file has them.
abbrev pub Listed : Image → ℕ → ℕ → List Phdr → Type 0
Listed image phoff i [] = Unit {0}
Listed image phoff i (p ∷ ps) =
    ((bytes : List ℕ) × (image_read_exact image (phoff + 56 * i) 56 ≡ ok bytes)
      × (p ≡ decode_phdr bytes))
    × Listed image phoff (i + 1) ps

abbrev pub smaller : ℕ → ℕ → ℕ
smaller a b = if ltb a b then a else b

abbrev pub larger : ℕ → ℕ → ℕ
larger a b = if ltb b a then a else b

-- The entry point is in a segment that is executable.
abbrev pub runs : ℕ → Phdr → Bool
runs entry p = is_load p && (has p.flags 1 && (leb p.vaddr entry && ltb entry (p.vaddr + p.memsz)))

abbrev pub after : ℕ → Scan → Phdr → Scan
after entry s p =
    if is_load p
    then (record {
      low = smaller p.vaddr s.low;
      high = larger (p.vaddr + p.memsz) s.high;
      loads = s.loads + 1;
      entry_in_exec =
          (has p.flags 1 && (leb p.vaddr entry && ltb entry (p.vaddr + p.memsz)))
          || s.entry_in_exec;
    })
    else s

abbrev pub after_all : ℕ → Scan → List Phdr → Scan
after_all entry s [] = s
after_all entry s (p ∷ ps) = after_all entry (after entry s p) ps

user_range_lem :
    (start len : ℕ)
    → start < 2 ^ 64
    → len < 2 ^ 64
    → ((user_range start len ≡ some (start + len))
        × (4096 ≤ start)
        × (0 < len)
        × (start + len ≤ 2 ^ 47))
      ⊎ ((user_range start len ≡ none) × (4096 ≤ start → 0 < len → start + len ≤ 2 ^ 47 → ⊥))
unfolding user_range
user_range_lem start len h k = elim (Bool-cases (len == 0 || ltb (add64 start len) start)) [
  | inl a ↦ inr (rw (a, user_range) refl, λ i j l. ground (arith, a, i, j, l, h, k))
  | inr a ↦
      elim (Bool-cases (ltb start 0x1000 || leb user_top start || ltb user_top (add64 start len))) [
        | inl b ↦ inr (rw (a, b, user_range) refl, λ i j l. ground (arith, b, i, j, l))
        | inr b ↦
            let (fits, above, below, long) : (add64 start len ≡ start + len)
                × (4096 ≤ start)
                × (start + len ≤ 2 ^ 47)
                × (0 < len) =
              (
                ground (arith, a, b, h, k),
                ground (arith, b),
                ground (arith, a, b, h, k),
                ground (arith, a),
              ) in
            inl (rw (a, b, user_range) (ap some fits), above, long, below)
      ]
]

pub one_header :
    (size entry : ℕ) (s : Scan) (p : Phdr)
    → p.vaddr < 2 ^ 64
    → p.memsz < 2 ^ 64
    → ((scan_segment size entry s p ≡ ok (after entry s p)) × (is_load p ≡ true → Segment size p))
      ⊎ ((scan_segment size entry s p ≡ err enoexec) × ((is_load p ≡ true → Segment size p) → ⊥))
unfolding scan_segment bad_segment
one_header size entry s p h k = elim (Bool-cases (is_load p)) [
  | inr l ↦ inl (rw (l, scan_segment) refl, λ m. cc)
  | inl l ↦ elim (Bool-cases (bad_segment size p)) [
    | inl b ↦ inr (
      rw (l, b, scan_segment) refl,
      λ good. let g = good l in ground (arith, b, g.in_file, g.zero_filled, g.exclusive),
    )
    | inr b ↦ elim (user_range_lem p.vaddr p.memsz h k) [
      | inl (e, above, long, below) ↦ inl (
        rw (l, b, e, scan_segment) refl,
        λ m. record {
          in_file = ground (arith, b);
          zero_filled = ground (arith, b);
          exclusive = ground (arith, b);
          above = above;
          inhabited = long;
          below = below;
        },
      )
      | inr (e, out) ↦ inr (
        rw (l, b, e, scan_segment) refl,
        λ good. let g = good l in out g.above g.inhabited g.below,
      )
    ]
  ]
]
