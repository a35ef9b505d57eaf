-- ===== src/Mm/Pmm/Blocks.antt =====
-- kernel/mm/pmm.c: the free blocks as sets of page frames, and what the list operations do to them.
pub mod Moves
pub mod Allocate
pub mod Halves
pub mod Release
pub mod FreePages
pub mod Results
pub mod Pages
use jnu.Base.{
  ℕ, suc, ◌+◌, ◌*◌, ◌^◌, ◌%◌, ◌≤◌, ◌<◌, ◌≡◌, refl, sym, ap, ◌∙◌, ◌⊎◌, inl, inr, Option, none, some,
  arith, pow_order, pow_double, pow_mono, pow_add, below_multiple, ◌-◌,
}
use jnu.Mm.Pmm.{Pmm, pfn_to_pa, zone_of}
use jnu.Mm.Pmm.Lists.{mark, zone_at, Lists, Holds}

-- The frames of the block of order `o` at `p`.
abbrev pub InBlock : ℕ → ℕ → ℕ → Type 0
InBlock p o q = (p ≤ q) × (q < p + 2 ^ o)

-- `q` is a frame of a free block.
abbrev pub Covered : Pmm → ℕ → Type 0
Covered s q = (p : ℕ) × (o : ℕ) × (mark s p ≡ some o) × (p ≤ q) × (q < p + 2 ^ o)

-- A block of a legal order, at a multiple of its size, within the table.
pub record Fits (count p o : ℕ) : Type 0 where
  pub index : ℕ
  pub aligned : p ≡ index * 2 ^ o
  pub within : p + 2 ^ o ≤ count
  pub legal : o < 11

-- The lists hold what the table marks, every free block fits, and no two of them overlap.
pub record WellFormed (s : Pmm) : Type 0 where
  pub lists : Lists
  pub holds : Holds s lists
  pub small : s.pfn_count ≤ 2 ^ 52
  pub fits : (p o : ℕ) → mark s p ≡ some o → Fits s.pfn_count p o
  pub disjoint :
      (p o p' o' q : ℕ)
      → mark s p ≡ some o
      → mark s p' ≡ some o'
      → InBlock p o q
      → InBlock p' o' q
      → p ≡ p'

-- `t` has the free frames of `s` and, besides, exactly those of `A`, none of which was free in `s`.
pub record Adds (A : ℕ → Type 0) (s t : Pmm) : Type 0 where
  pub keeps : (q : ℕ) → Covered s q → Covered t q
  pub gains : (q : ℕ) → A q → Covered t q
  pub only : (q : ℕ) → Covered t q → Covered s q ⊎ A q
  pub fresh : (q : ℕ) → A q → ¬ Covered s q

-- If `t` has the parts `A` and `B` more than `s`, and `m` has `B` more than `s`, then `t` has `A` more
-- than `m`.
pub Adds-between :
    {A B C : ℕ → Type 0} {s m t : Pmm}
    → ((q : ℕ) → C q → A q ⊎ B q)
    → ((q : ℕ) → A q → C q)
    → ((q : ℕ) → B q → C q)
    → ((q : ℕ) → A q → ¬ B q)
    → Adds C s t
    → Adds B s m
    → Adds A m t
Adds-between parts left right apart c b = record {
  keeps = λ q h. elim (b.only q h) [ inl k ↦ c.keeps q k | inr k ↦ c.gains q (right q k) ];
  gains = λ q h. c.gains q (left q h);
  only = λ q h. elim (c.only q h) [
    | inl k ↦ inl (b.keeps q k)
    | inr k ↦ elim (parts q k) [ inl a ↦ inr a | inr a ↦ inl (b.gains q a) ]
  ];
  fresh = λ q h k. elim (b.only q k) [ inl k ↦ c.fresh q (left q h) k | inr k ↦ apart q h k ];
}

-- The first 4096 frames are `ZONE_DMA`. A block does not reach across that border.
Fits-border : {count p o : ℕ} → Fits count p o → p < 4096 → p + 2 ^ o ≤ 4096
Fits-border {count} {p} {o} f h =
    let whole : 12 - o + o ≡ 12 = omega (arith, f.legal) in
    let split : 2 ^ (12 - o) * 2 ^ o ≡ 4096 =
      sym (pow_add (12 - o) o) ∙ ap (λ (k : ℕ). 2 ^ k) whole in
    omega (arith, split, below_multiple f.index (2 ^ (12 - o)) (2 ^ o) (omega (arith, split)))

zone_border :
    (p q : ℕ) → p < 2 ^ 52 → q < 2 ^ 52 → p ≤ q → (p < 4096 → q < 4096) → zone_at q ≡ zone_at p
unfolding pfn_to_pa zone_of
zone_border p q hp hq h k = ground arith

pub zone_of_block :
    {count p o : ℕ} (q : ℕ)
    → Fits count p o
    → count ≤ 2 ^ 52
    → InBlock p o q
    → zone_at q ≡ zone_at p
zone_of_block {p = p} q f h i =
    zone_border p q (omega arith) (omega arith) i.0 (λ k. omega (arith, Fits-border f k))
