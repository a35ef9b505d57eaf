-- ===== src/Exec/Elf/Headers.antt =====
-- kernel/exec/elf64.c: the program headers that the loop has read when it ends.
use jnu.Base.{
  ℕ, zero, suc, ◌+◌, ◌-◌, ◌*◌, ◌^◌, ◌≤◌, ◌<◌, ◌≡◌, refl, sym, ap, ◌∙◌, subst, inl, inr, true, ◌||◌,
  List, [], ◌∷◌, length, take, drop, ltb, ◌==◌, add64, ok, enoexec, arith, Bool-cases, Result-cases,
  pow_add, refute, returned,
}
use jnu.Exec.Elf.{
  Image, Ehdr, Phdr, Scan, little_endian, field, decode_phdr, image_read_exact, scan_segments,
}
use jnu.Exec.Elf.Segments.{
  AllBytes, IsImage, is_load, Segment, AllGood, Listed, after, after_all, one_header,
}

little_endian-bound : (n : ℕ) (bs : List ℕ) → AllBytes bs → little_endian (take n bs) < 2 ^ (8 * n)
unfolding little_endian
little_endian-bound zero bs h = omega arith
little_endian-bound (suc n) [] h =
    let size : 2 ^ (8 * suc n) ≡ 2 ^ 8 * 2 ^ (8 * n) =
      ap (λ x. 2 ^ x) (omega arith) ∙ pow_add 8 (8 * n) in
    omega (arith, size, little_endian-bound n [] tt)
little_endian-bound (suc n) (b ∷ bs) (h, hs) =
    let size : 2 ^ (8 * suc n) ≡ 2 ^ 8 * 2 ^ (8 * n) =
      ap (λ x. 2 ^ x) (omega arith) ∙ pow_add 8 (8 * n) in
    omega (arith, size, h, little_endian-bound n bs hs)

drop-AllBytes : (n : ℕ) (bs : List ℕ) → AllBytes bs → AllBytes (drop n bs)
drop-AllBytes zero bs h = h
drop-AllBytes (suc n) [] h = tt
drop-AllBytes (suc n) (b ∷ bs) h = drop-AllBytes n bs h.1

pub field-bound : (off n : ℕ) (bs : List ℕ) → AllBytes bs → field off n bs < 2 ^ (8 * n)
field-bound off n bs h = little_endian-bound n (drop off bs) (drop-AllBytes off bs h)

-- A read that succeeds is one inside the file.
pub read_inside :
    (image : Image) (off len : ℕ) (bs : List ℕ)
    → image_read_exact image off len ≡ ok bs
    → (off + len ≤ image.size) × (image.read_at off len ≡ ok bs)
unfolding image_read_exact
read_inside image off len bs e =
    elim (Bool-cases (ltb image.size off || ltb (image.size - off) len)) [
      | inl f ↦ absurd (refute enoexec e (rw (f, image_read_exact) refl))
      | inr f ↦ elim (Result-cases (image.read_at off len)) [
        | inl (x, g) ↦ absurd (refute x e (rw (f, g, image_read_exact) refl))
        | inr (b, g) ↦ elim (Bool-cases (length b == len)) [
          | inr n ↦ absurd (refute enoexec e (rw (f, g, n, image_read_exact) refl))
          | inl n ↦ (ground (arith, f), g ∙ (sym (rw (f, g, n, image_read_exact) refl) ∙ e))
        ]
      ]
    ]

next_at :
    (phoff i k size : ℕ)
    → phoff + 56 * (i + suc k) ≤ size
    → size < 2 ^ 64
    → add64 phoff (i * 56) ≡ phoff + 56 * i
next_at phoff i k size h j = omega (arith, h, j)

pub phdr_bounds :
    (bs : List ℕ)
    → AllBytes bs
    → ((decode_phdr bs).vaddr < 2 ^ 64) × ((decode_phdr bs).memsz < 2 ^ 64)
unfolding decode_phdr
phdr_bounds bs h = (field-bound 16 8 bs h, field-bound 40 8 bs h)

-- If the loop ends without an error, the headers that it has read are all good.
pub scan_segments-reads :
    (image : Image) (eh : Ehdr) (i k : ℕ) (s s' : Scan)
    → IsImage image
    → eh.phoff + 56 * (i + k) ≤ image.size
    → scan_segments image eh i k s ≡ ok s'
    → (phs : List Phdr) × (length phs ≡ k)
      × Listed image eh.phoff i phs
      × AllGood image.size phs
      × (s' ≡ after_all eh.entry s phs)
unfolding scan_segments
scan_segments-reads image eh i zero s s' good h e = ([], refl, tt, tt, sym (returned e refl))
scan_segments-reads image eh i (suc k) s s' good h e =
    elim (Result-cases (image_read_exact image (add64 eh.phoff (i * 56)) 56)) [
      | inl (x, f) ↦ absurd (refute x e (rw (f, scan_segments) refl))
      | inr (bs, f) ↦
          let (v, m) = phdr_bounds bs (
            good.bytes (add64 eh.phoff (i * 56)) 56 bs
              (read_inside image (add64 eh.phoff (i * 56)) 56 bs f).1) in
          elim (one_header image.size eh.entry s (decode_phdr bs) v m) [
            | inr (g, _) ↦ absurd (refute enoexec e (rw (f, g, scan_segments) refl))
            | inl (g, segment) ↦
                let (phs, long, listed, segments, same) =
                  scan_segments-reads image eh (i + 1) k (after eh.entry s (decode_phdr bs)) s' good
                    (omega (arith, h)) (sym (rw (f, g, scan_segments) refl) ∙ e) in
                let at : image_read_exact image (eh.phoff + 56 * i) 56 ≡ ok bs =
                  subst (λ o. image_read_exact image o 56 ≡ ok bs)
                    (next_at eh.phoff i k image.size h good.small) f in
                (
                  decode_phdr bs ∷ phs,
                  ap suc long,
                  ((bs, at, refl), listed),
                  (segment, segments),
                  same,
                )
          ]
    ]

-- Good headers in the file make the loop end without an error.
pub scan_segments-works :
    (image : Image) (eh : Ehdr) (i : ℕ) (phs : List Phdr) (s : Scan)
    → IsImage image
    → eh.phoff + 56 * (i + length phs) ≤ image.size
    → Listed image eh.phoff i phs
    → AllGood image.size phs
    → scan_segments image eh i (length phs) s ≡ ok (after_all eh.entry s phs)
unfolding scan_segments
scan_segments-works image eh i [] s good h listed segments = refl
scan_segments-works image eh i (p ∷ ps) s good h ((bytes, e, d), listed) (segment, segments) =
    let at : image_read_exact image (add64 eh.phoff (i * 56)) 56 ≡ ok bytes =
      subst (λ o. image_read_exact image o 56 ≡ ok bytes)
        (sym (next_at eh.phoff i (length ps) image.size h good.small)) e in
    let (v, m) = phdr_bounds bytes (
      good.bytes (eh.phoff + 56 * i) 56 bytes
        (read_inside image (eh.phoff + 56 * i) 56 bytes e).1) in
    elim (one_header image.size eh.entry s (decode_phdr bytes) v m) [
      | inr (g, out) ↦ absurd (out (subst (λ q. is_load q ≡ true → Segment image.size q) d segment))
      | inl (g, _) ↦
          rw (at, g, d, scan_segments)
            (scan_segments-works image eh (i + 1) ps (after eh.entry s (decode_phdr bytes)) good
              (omega (arith, h)) listed segments)
    ]
