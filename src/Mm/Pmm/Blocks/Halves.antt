-- ===== src/Mm/Pmm/Blocks/Halves.antt =====
-- kernel/mm/pmm.c: the buddy of a block is the other half of the block twice as large.
use Prim.Native.Nat.{bit_xor}
use jnu.Base.{
  ℕ, suc, ◌+◌, ◌-◌, ◌*◌, ◌/◌, ◌%◌, ◌^◌, ◌≡◌, ap, ◌∙◌, ◌⊎◌, inl, inr, ◌==◌, arith, Bool-cases,
  pow_double, xor_one, xor_pow, min,
}
use jnu.Mm.Pmm.Free.{buddy_pfn}
use jnu.Mm.Pmm.Blocks.{Fits}

-- `m` begins the block of which `p` and `b` begin the halves.
pub record Halves (m p b o : ℕ) : Type 0 where
  pub index : ℕ
  pub aligned : m ≡ index * 2 ^ suc o
  pub sides : ((p ≡ m) × (b ≡ m + 2 ^ o)) ⊎ ((b ≡ m) × (p ≡ m + 2 ^ o))

pub buddy-Halves :
    {count p o : ℕ} → Fits count p o → Halves (min (buddy_pfn p o) p) p (buddy_pfn p o) o
unfolding buddy_pfn
buddy-Halves {count} {p} {o} f = elim (Bool-cases (f.index % 2 == 0)) [
  | inl even ↦
      let i : f.index ≡ 2 * j = ground arith in
      let k : j * 2 + (1 - f.index % 2) ≡ 2 * j + 1 = ground arith in
      let p' = f.aligned ∙ ap (λ (t : ℕ). t * 2 ^ o) i in
      let b' = neighbour ∙ ap (λ (t : ℕ). t * 2 ^ o) k in
      record {
        index = j;
        aligned = omega (arith, p', b', double);
        sides = inl (omega (arith, p', b'), omega (arith, p', b'));
      }
  | inr odd ↦
      let i : f.index ≡ 2 * j + 1 = ground arith in
      let k : j * 2 + (1 - f.index % 2) ≡ 2 * j = ground arith in
      let p' = f.aligned ∙ ap (λ (t : ℕ). t * 2 ^ o) i in
      let b' = neighbour ∙ ap (λ (t : ℕ). t * 2 ^ o) k in
      record {
        index = j;
        aligned = omega (arith, p', b', double);
        sides = inr (omega (arith, p', b'), omega (arith, p', b'));
      }
]
  where
    j : ℕ
    j = f.index / 2

    double : j * 2 ^ suc o ≡ 2 * (j * 2 ^ o)
    double = omega (arith, ap (λ (t : ℕ). j * t) (pow_double o))

    neighbour : bit_xor p (2 ^ o) ≡ (j * 2 + (1 - f.index % 2)) * 2 ^ o
    neighbour =
        ap (λ (t : ℕ). bit_xor t (2 ^ o)) f.aligned
        ∙ xor_pow o f.index
        ∙ ap (λ (t : ℕ). t * 2 ^ o) (xor_one f.index)
