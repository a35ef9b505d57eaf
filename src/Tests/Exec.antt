-- ===== src/Tests/Exec.antt =====
-- kernel/exec/elf64.c at the image of its self test: the headers, loaded as one segment.
use jnu.Base.{
  ℕ, zero, suc, ◌^◌, ◌<◌, ◌≤◌, ◌≡◌, refl, subst, Bool, true, ◌&&◌, List, [], ◌∷◌, ◌++◌, take, drop,
  ltb, arith, ok, Bool-cases, returned, inl, inr, ◌↔◌,
}
use jnu.Exec.Elf.{
  Image, LoadInfo, elf64_validate_image, image_read_exact, good_header, decode_ehdr, little_endian,
  scan_segments, scan_segment, decode_phdr, bad_segment, user_range,
}
use jnu.Exec.Elf.Segments.{AllBytes, IsImage}
use jnu.Exec.Elf.Accepts.{Loadable, elf64_validate_image-Loadable, elf64_validate_image-bounds}

-- Four and eight bytes of a small number.
abbrev word : ℕ → ℕ → List ℕ
word lo hi = lo ∷ 0 ∷ hi ∷ 0 ∷ []

abbrev quad : ℕ → ℕ → List ℕ
quad lo hi = word lo hi ++ word 0 0

abbrev file : List ℕ
file =
    0x7f
    ∷ 0x45
    ∷ 0x4c
    ∷ 0x46
    ∷ 2
    ∷ 1
    ∷ 0
    ∷ 0
    ∷ (quad 0 0
        ++ word 2 62
        ++ word 0 0
        ++ quad 0 0x40
        ++ quad 64 0
        ++ quad 0 0
        ++ word 0 0
        ++ word 0 56
        ++ word 1 0
        ++ word 0 0
        ++ word 1 0
        ++ word 1 0
        ++ quad 0 0
        ++ quad 0 0x40
        ++ quad 0 0
        ++ quad 120 0
        ++ quad 120 0
        ++ quad 0 0)

abbrev image : Image
image = record { read_at = λ off len. ok (take len (drop off file)); size = 120 }

abbrev info : LoadInfo
info = record { entry = 0x400000; low = 0x400000; high = 0x400078 }

accepted : elf64_validate_image image ≡ ok info
unfolding elf64_validate_image image_read_exact good_header decode_ehdr little_endian scan_segments
    scan_segment decode_phdr bad_segment user_range
accepted = refl

abbrev all_small : List ℕ → Bool
all_small [] = true
all_small (b ∷ bs) = ltb b 256 && all_small bs

small-AllBytes : (bs : List ℕ) → all_small bs ≡ true → AllBytes bs
small-AllBytes [] h = tt
small-AllBytes (b ∷ bs) h = elim (Bool-cases (ltb b 256)) [
  | inl k ↦ (ground (arith, k), small-AllBytes bs (subst (λ c. (c && all_small bs) ≡ true) k h))
  | inr k ↦ cc
]

small_take : (n : ℕ) (bs : List ℕ) → AllBytes bs → AllBytes (take n bs)
small_take zero bs h = tt
small_take (suc n) [] h = tt
small_take (suc n) (b ∷ bs) h = (h.0, small_take n bs h.1)

small_drop : (n : ℕ) (bs : List ℕ) → AllBytes bs → AllBytes (drop n bs)
small_drop zero bs h = h
small_drop (suc n) [] h = tt
small_drop (suc n) (b ∷ bs) h = small_drop n bs h.1

image-IsImage : IsImage image
image-IsImage = record {
  small = omega arith;
  bytes = λ off len bs e.
      subst (λ x. AllBytes x) (returned e refl)
        (small_take len (drop off file) (small_drop off file (small-AllBytes file refl)));
}

elf64_validate_image-Loadable_example : (elf64_validate_image image ≡ ok info) ↔ Loadable image info
elf64_validate_image-Loadable_example = elf64_validate_image-Loadable image info image-IsImage

elf64_validate_image-bounds_example :
    (4096 ≤ info.low) × (info.low ≤ info.entry) × (info.entry < info.high) × (info.high ≤ 2 ^ 47)
elf64_validate_image-bounds_example = elf64_validate_image-bounds image info image-IsImage accepted
