-- ===== src/Exec/Elf/Accepts.antt =====
-- kernel/exec/elf64.c: the images that `elf64_validate_image` accepts.
use jnu.Base.{
  ℕ, ◌+◌, ◌-◌, ◌*◌, ◌/◌, ◌^◌, ◌≤◌, ◌<◌, ◌≡◌, refl, sym, ap, ◌∙◌, subst, inl, inr, ◌↔◌, Bool, true,
  false, not, ◌&&◌, ◌||◌, List, [], ◌∷◌, length, leb, ltb, ◌==◌, ok, enoexec, arith, Bool-cases,
  Result-cases, refute, returned,
}
use jnu.Mm.Space.{has}
use jnu.Exec.Elf.{
  Image, LoadInfo, Phdr, decode_ehdr, image_read_exact, good_header, scan_segments, start_scan,
  elf64_validate_image,
}
use jnu.Exec.Elf.Segments.{IsImage, is_load, AllGood, Listed, smaller, larger, after_all}
use jnu.Exec.Elf.Headers.{scan_segments-reads, scan_segments-works}
use jnu.Exec.Elf.Span.{
  after_all-loads, any_runs, highest, info_same, lowest, scanned_entry, scanned_high, scanned_low,
}

-- What makes an image one that may be loaded, with where it starts, and the addresses it takes.
pub record Loadable (image : Image) (info : LoadInfo) : Type 0 where
  pub bytes : List ℕ
  pub headers : List Phdr
  pub read : image_read_exact image 0 64 ≡ ok bytes
  pub header : good_header (decode_ehdr bytes) ≡ true
  pub table : (decode_ehdr bytes).phoff + 56 * length headers ≤ image.size
  pub count : length headers ≡ (decode_ehdr bytes).phnum
  pub listed : Listed image (decode_ehdr bytes).phoff 0 headers
  pub segments : AllGood image.size headers
  pub entered : any_runs info.entry headers ≡ true
  pub entry : info.entry ≡ (decode_ehdr bytes).entry
  pub low : info.low ≡ lowest headers
  pub high : info.high ≡ highest headers

table_fits :
    (size phoff n : ℕ)
    → phoff + 56 * n ≤ size
    → (ltb size phoff || ltb ((size - phoff) / 56) n) ≡ false
table_fits size phoff n h = ground (arith, h)

fits_table :
    (size phoff n : ℕ)
    → (ltb size phoff || ltb ((size - phoff) / 56) n) ≡ false
    → phoff + 56 * n ≤ size
fits_table size phoff n h = ground (arith, h)

Loadable-accepted :
    (image : Image) (info : LoadInfo)
    → IsImage image
    → Loadable image info
    → elf64_validate_image image ≡ ok info
unfolding elf64_validate_image
Loadable-accepted image info good l =
    let eh = decode_ehdr l.bytes in
    let s = after_all eh.entry start_scan l.headers in
    let fits : (ltb image.size eh.phoff || ltb ((image.size - eh.phoff) / 56) eh.phnum) ≡ false =
      table_fits image.size eh.phoff eh.phnum
        (subst (λ n. eh.phoff + 56 * n ≤ image.size) l.count l.table) in
    let looped : scan_segments image eh 0 eh.phnum start_scan ≡ ok s =
      subst (λ n. scan_segments image eh 0 n start_scan ≡ ok s) l.count
        (scan_segments-works image eh 0 l.headers start_scan good (omega (arith, l.table)) l.listed
          l.segments) in
    let enters : any_runs eh.entry l.headers ≡ true =
      subst (λ x. any_runs x l.headers ≡ true) l.entry l.entered in
    let some_load : (s.loads == 0) ≡ false =
      ground (arith, (after_all-loads eh.entry start_scan l.headers).1 enters) in
    let runs_there : s.entry_in_exec ≡ true = scanned_entry eh.entry l.headers ∙ enters in
    rw (l.read, l.header, fits, looped, some_load, runs_there, elf64_validate_image)
      (ap ok (
        info_same _ info (sym l.entry) (scanned_low eh.entry l.headers ∙ sym l.low)
          (scanned_high eh.entry l.headers ∙ sym l.high)))

passed : (b c : Bool) → (b || not c) ≡ false → c ≡ true
passed true c e = cc
passed false true e = refl
passed false false e = cc

accepted-Loadable :
    (image : Image) (info : LoadInfo)
    → IsImage image
    → elf64_validate_image image ≡ ok info
    → Loadable image info
unfolding elf64_validate_image
accepted-Loadable image info good e = elim (Result-cases (image_read_exact image 0 64)) [
  | inl (x, f) ↦ absurd (refute x e (rw (f, elf64_validate_image) refl))
  | inr (bytes, f) ↦
      let eh = decode_ehdr bytes in
      elim (Bool-cases (good_header eh)) [
        | inr h ↦ absurd (refute enoexec e (rw (f, h, elf64_validate_image) refl))
        | inl h ↦
            elim (Bool-cases
              (ltb image.size eh.phoff || ltb ((image.size - eh.phoff) / 56) eh.phnum)) [
                | inl t ↦ absurd (refute enoexec e (rw (f, h, t, elf64_validate_image) refl))
                | inr t ↦ elim (Result-cases (scan_segments image eh 0 eh.phnum start_scan)) [
                  | inl (x, l) ↦ absurd (refute x e (rw (f, h, t, l, elf64_validate_image) refl))
                  | inr (s, l) ↦ elim (Bool-cases (s.loads == 0 || not s.entry_in_exec)) [
                    | inl n ↦
                        absurd (refute enoexec e (rw (f, h, t, l, n, elf64_validate_image) refl))
                    | inr n ↦
                        let (phs, long, listed, segments, same) =
                          scan_segments-reads image eh 0 eh.phnum start_scan s good
                            (omega (arith, fits_table image.size eh.phoff eh.phnum t)) l in
                        let found : LoadInfo = record {
                          entry = eh.entry;
                          low = s.low;
                          high = s.high;
                        } in
                        let made : found ≡ info =
                          returned e (rw (f, h, t, l, n, elf64_validate_image) refl) in
                        let loaded : Loadable image found = record {
                          bytes = bytes;
                          headers = phs;
                          read = f;
                          header = h;
                          table =
                              subst (λ k. eh.phoff + 56 * k ≤ image.size) (sym long)
                                (fits_table image.size eh.phoff eh.phnum t);
                          count = long;
                          listed = listed;
                          segments = segments;
                          entered =
                              sym (scanned_entry eh.entry phs)
                              ∙ (ap (λ x. x.entry_in_exec) (sym same)
                                  ∙ passed (s.loads == 0) s.entry_in_exec n);
                          entry = refl;
                          low = ap (λ x. x.low) same ∙ scanned_low eh.entry phs;
                          high = ap (λ x. x.high) same ∙ scanned_high eh.entry phs;
                        } in
                        subst (λ i. Loadable image i) made loaded
                  ]
                ]
              ]
      ]
]

-- For an image of 64-bit size whose reads give bytes, `elf64_validate_image` returns `info`
-- exactly if the header is that of a static x86-64 executable (`good_header`: magic, class,
-- byte order, type `ET_EXEC`, machine, size and number of program headers), all program headers
-- lie in the file, each segment to load has its bytes in the file, ends in user memory, starts
-- above the first page and is not both writable and executable, the entry point is in an
-- executable one, and `info` has that entry, the least start and the greatest end.
pub elf64_validate_image-Loadable :
    (image : Image) (info : LoadInfo)
    → IsImage image
    → (elf64_validate_image image ≡ ok info) ↔ Loadable image info
elf64_validate_image-Loadable image info good =
    (accepted-Loadable image info good, Loadable-accepted image info good)

in_bounds :
    (size entry : ℕ) (ps : List Phdr)
    → AllGood size ps
    → (4096 ≤ lowest ps)
      × (highest ps ≤ 2 ^ 47)
      × (any_runs entry ps ≡ true → (lowest ps ≤ entry) × (entry < highest ps))
in_bounds size entry [] good = (omega arith, omega arith, λ e. cc)
in_bounds size entry (p ∷ ps) (segment, good) =
    let (a, b, later) = in_bounds size entry ps good in
    elim (Bool-cases (is_load p)) [
      | inr l ↦ rw l (a, b, later)
      | inl l ↦
          let g = segment l in
          let v = p.vaddr in
          let w = p.vaddr + p.memsz in
          let above : 4096 ≤ smaller v (lowest ps) = ground (arith, a, g.above) in
          let below : larger w (highest ps) ≤ 2 ^ 47 = ground (arith, b, g.below) in
          let wider : (lowest ps ≤ entry) × (entry < highest ps)
              → (smaller v (lowest ps) ≤ entry) × (entry < larger w (highest ps)) =
            λ h. (ground (arith, h.0), ground (arith, h.1)) in
          let itself : (v ≤ entry) × (entry < w)
              → (smaller v (lowest ps) ≤ entry) × (entry < larger w (highest ps)) =
            λ h. (ground (arith, h.0), ground (arith, h.1)) in
          rw l (
            above,
            below,
            λ e. elim (Bool-cases (any_runs entry ps)) [
              | inl k ↦ wider (later k)
              | inr k ↦ itself (here (has p.flags 1) (any_runs entry ps) e k)
            ],
          )
    ]
  where
    here :
        (x r : Bool)
        → (x && (leb p.vaddr entry && ltb entry (p.vaddr + p.memsz)) || r) ≡ true
        → r ≡ false
        → (p.vaddr ≤ entry) × (entry < p.vaddr + p.memsz)
    here true r e k = (ground (arith, e, k), ground (arith, e, k))
    here false r e k = cc

-- For an image of 64-bit size whose reads give bytes, if `elf64_validate_image` returns `info`,
-- then its range starts at 4096 or above, ends at 2 ^ 47 at most, and holds the entry point.
pub elf64_validate_image-bounds :
    (image : Image) (info : LoadInfo)
    → IsImage image
    → elf64_validate_image image ≡ ok info
    → (4096 ≤ info.low) × (info.low ≤ info.entry) × (info.entry < info.high) × (info.high ≤ 2 ^ 47)
elf64_validate_image-bounds image info good e =
    let l = accepted-Loadable image info good e in
    let (low, high, inside) = in_bounds image.size info.entry l.headers l.segments in
    let (after_low, before_high) = inside l.entered in
    (
      omega (arith, low, l.low),
      omega (arith, after_low, l.low),
      omega (arith, before_high, l.high),
      omega (arith, high, l.high),
    )
