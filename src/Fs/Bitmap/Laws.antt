-- ===== src/Fs/Bitmap/Laws.antt =====
-- kernel/fs/minix/bitmap.c: which bit an allocation takes.
use jnu.Base.{
  ℕ, zero, suc, ◌+◌, ◌-◌, ◌*◌, ◌/◌, ◌%◌, ◌^◌, ◌≤◌, ◌<◌, ◌≡◌, ◌≢◌, refl, sym, ap, ◌∙◌, subst, inl,
  inr, Bool, true, false, Option, none, some, List, ltb, ◌==◌, arith, Bool-cases, Option-cases,
}
use native.Mathlib.Decide.{dec_lt}
use jnu.Fs.Bitmap.{
  Volume, bits_per_block, test_bit, find_bit, alloc_from_map, alloc_inode, zone_limit, alloc_zone,
}

-- A bit found is clear and its index in range, and all those of the block before it but index 0 are
-- set.
find_bit-some :
    (map : List ℕ) (base limit n bit : ℕ) {r : ℕ}
    → find_bit map base limit n bit ≡ some r
    → (bit ≤ r)
      × (r < bit + n)
      × (base + r ≢ 0)
      × (base + r ≤ limit)
      × (test_bit map r ≡ false)
      × ((k : ℕ) → bit ≤ k → k < r → base + k ≢ 0 → test_bit map k ≡ true)
unfolding find_bit
find_bit-some map base limit zero bit h = cc
find_bit-some map base limit (suc n) bit {r} h = elim (Bool-cases (base + bit == 0)) [
  | inl z ↦
      let (a, b, c, d, e, f) =
        find_bit-some map base limit n (suc bit) {r = r} (ground (arith, h, z)) in
      (omega arith, omega arith, c, d, e, λ k i j o. f k (ground (arith, z, o)) j o)
  | inr nz ↦ elim (Bool-cases (ltb limit (base + bit))) [
    | inl far ↦ absurd (ground (arith, h, nz, far))
    | inr near ↦ elim (Bool-cases (test_bit map bit)) [
      | inl used ↦
          let (a, b, c, d, e, f) =
            find_bit-some map base limit n (suc bit) {r = r} (ground (arith, h, nz, near, used)) in
          (
            omega arith,
            omega arith,
            c,
            d,
            e,
            λ k i j o. elim (Bool-cases (bit == k)) [
              | inl same ↦ subst (λ q. test_bit map q ≡ true) (ground arith) used
              | inr ne ↦ f k (ground arith) j o
            ],
          )
      | inr clear ↦
          let same : bit ≡ r = ground (arith, h, nz, near, clear) in
          (
            omega arith,
            omega arith,
            ground arith,
            ground arith,
            subst (λ q. test_bit map q ≡ false) same clear,
            λ k i j o. absurd (omega arith),
          )
    ]
  ]
]

-- Without a bit found, all those of the block in range but index 0 are set.
find_bit-none :
    (map : List ℕ) (base limit n bit k : ℕ)
    → find_bit map base limit n bit ≡ none
    → bit ≤ k
    → k < bit + n
    → base + k ≢ 0
    → base + k ≤ limit
    → test_bit map k ≡ true
unfolding find_bit
find_bit-none map base limit zero bit k h i j o l = absurd (omega arith)
find_bit-none map base limit (suc n) bit k h i j o l = elim (Bool-cases (bit == k)) [
  | inl same ↦
      let here : bit ≡ k = ground arith in
      subst (λ q. test_bit map q ≡ true) here (ground (arith, h, o, l, here))
  | inr ne ↦
      find_bit-none map base limit n (suc bit) k (ground (arith, h, o, l, ne, i)) (ground arith)
        (omega arith) o l
]

abbrev bit_in : Option (List ℕ) → ℕ → Option Bool
bit_in none bit = none
bit_in (some bytes) bit = some (test_bit bytes bit)

-- The bit of an index, of a map that begins at a block; `none` if its block cannot be read.
abbrev pub bit_of : Volume → ℕ → ℕ → Option Bool
bit_of v start_block idx =
    bit_in (v.blocks (start_block + idx / bits_per_block)) (idx % bits_per_block)

bit_of-at :
    (v : Volume) (start_block blk k : ℕ) (bytes : List ℕ)
    → v.blocks (start_block + blk) ≡ some bytes
    → blk * bits_per_block ≤ k
    → k < suc blk * bits_per_block
    → bit_of v start_block k ≡ some (test_bit bytes (k - blk * bits_per_block))
bit_of-at v start_block blk k bytes e i j =
    let here : k / bits_per_block ≡ blk = omega arith in
    let there : k % bits_per_block ≡ k - blk * bits_per_block = omega arith in
    ap (λ (q : ℕ). bit_in (v.blocks (start_block + q)) (k % bits_per_block)) here
    ∙ (ap (λ o. bit_in o (k % bits_per_block)) e ∙ ap (λ b. some (test_bit bytes b)) there)

-- What an index of a map must be for the allocator to return it, with indices from `from` looked at.
pub record Lowest (v : Volume) (start_block limit from idx : ℕ) : Type 0 where
  pub at_least : from ≤ idx
  pub nonzero : idx ≢ 0
  pub within : idx ≤ limit
  pub clear : bit_of v start_block idx ≡ some false
  pub used_before : (k : ℕ) → from ≤ k → k < idx → k ≢ 0 → bit_of v start_block k ≡ some true

alloc_from_map-Lowest :
    (v : Volume) (start_block limit n blk : ℕ)
    → (alloc_from_map v start_block limit n blk).1 ≢ 0
    → Lowest v start_block limit (blk * bits_per_block) (alloc_from_map v start_block limit n blk).1
unfolding alloc_from_map
alloc_from_map-Lowest v start_block limit zero blk h = absurd (h refl)
alloc_from_map-Lowest v start_block limit (suc n) blk h =
    elim (Option-cases (v.blocks (start_block + blk))) [
      | inl e ↦ absurd (h (rw (e, alloc_from_map) refl))
      | inr (bytes, e) ↦
          let base = blk * bits_per_block in
          elim (Option-cases (find_bit bytes base limit bits_per_block 0)) [
            | inl f ↦
                let after = alloc_from_map v start_block limit n (suc blk) in
                let run : (alloc_from_map v start_block limit (suc n) blk).1 ≡ after.1 =
                  rw (e, alloc_from_map, f) refl in
                let later =
                  alloc_from_map-Lowest v start_block limit n (suc blk) λ z. h (run ∙ z) in
                subst (λ r. Lowest v start_block limit base r) (sym run)
                  (record {
                    at_least = omega (arith, later.at_least);
                    nonzero = later.nonzero;
                    within = later.within;
                    clear = later.clear;
                    used_before = λ k i j o. elim (dec_lt k (suc blk * bits_per_block)) [
                      | yes near ↦
                          bit_of-at v start_block blk k bytes e i near
                          ∙ ap (λ b. some b)
                              (find_bit-none bytes base limit bits_per_block 0 (k - base) f
                                (omega arith) (omega arith) (λ z. o (omega arith))
                                (omega (arith, later.within)))
                      | no far ↦ later.used_before k (omega arith) j o
                    ];
                  })
            | inr (bit, f) ↦
                let run : (alloc_from_map v start_block limit (suc n) blk).1 ≡ base + bit =
                  rw (e, alloc_from_map, f) refl in
                let (_, short, nonzero, within, clear, used) =
                  find_bit-some bytes base limit bits_per_block 0 {r = bit} f in
                let offset : (base + bit) - base ≡ bit = omega arith in
                subst (λ r. Lowest v start_block limit base r) (sym run)
                  (record {
                    at_least = omega arith;
                    nonzero = nonzero;
                    within = within;
                    clear =
                        bit_of-at v start_block blk (base + bit) bytes e (omega arith) (omega arith)
                        ∙ ap (λ b. some b) (ap (λ b. test_bit bytes b) offset ∙ clear);
                    used_before = λ k i j o.
                        bit_of-at v start_block blk k bytes e i (omega arith)
                        ∙ ap (λ b. some b)
                            (used (k - base) (omega arith) (omega arith) (λ z. o (omega arith)));
                  })
          ]
    ]

-- When `minix_alloc_inode` returns an index other than 0, it is at most the number of inodes,
-- its bit in the inode map was clear, and the bits of all lower indices above 0 were set.
pub alloc_inode-Lowest :
    (v : Volume) → (alloc_inode v).1 ≢ 0 → Lowest v 2 v.ninodes 0 (alloc_inode v).1
unfolding alloc_inode
alloc_inode-Lowest v h = alloc_from_map-Lowest v 2 v.ninodes v.imap_blocks 0 h

-- If the first data zone is above 0, the volume has no fewer zones than that and fewer than 2 ^
-- 16, then a zone other than 0 that `minix_alloc_zone` returns is a data zone of the volume,
-- its bit in the zone map was clear, and the bits of all lower indices above 0 were set.
pub alloc_zone-Lowest :
    (v : Volume)
    → 0 < v.firstdatazone
    → v.firstdatazone ≤ v.nzones
    → v.nzones < 2 ^ 16
    → (alloc_zone v).1 ≢ 0
    → (v.firstdatazone ≤ (alloc_zone v).1)
      × ((alloc_zone v).1 < v.nzones)
      × Lowest v
          (2 + v.imap_blocks)
          (v.nzones - v.firstdatazone)
          0
          ((alloc_zone v).1 - v.firstdatazone + 1)
unfolding alloc_zone zone_limit
alloc_zone-Lowest v pos order word h =
    let idx = (alloc_from_map v (2 + v.imap_blocks) (zone_limit v) v.zmap_blocks 0).1 in
    let limit : zone_limit v ≡ v.nzones - v.firstdatazone = omega arith in
    elim (Bool-cases (idx == 0)) [
      | inl z ↦ absurd (h (rw z refl))
      | inr nz ↦
          let positive : 0 < idx = ground (arith, nz) in
          let low =
            alloc_from_map-Lowest v (2 + v.imap_blocks) (zone_limit v) v.zmap_blocks 0
              (λ e. absurd (omega (arith, e, positive))) in
          let run : (alloc_zone v).1 ≡ v.firstdatazone + idx - 1 = rw nz refl in
          let back : (alloc_zone v).1 - v.firstdatazone + 1 ≡ idx = omega (arith, run, positive) in
          (
            omega (arith, run, positive),
            omega (arith, run, low.within, limit, positive),
            subst (λ r. Lowest v (2 + v.imap_blocks) (v.nzones - v.firstdatazone) 0 r) (sym back)
                (subst (λ l. Lowest v (2 + v.imap_blocks) l 0 idx) limit low),
          )
    ]
