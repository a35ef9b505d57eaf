-- ===== src/Rbtree/Balance/Height.antt =====
-- kernel/lib/rbtree.c: how deep a red-black tree of some size can be.
use jnu.Base.{
  ℕ, zero, suc, ◌+◌, ◌*◌, ◌/◌, ◌^◌, ◌≤◌, ◌≡◌, ap, false, List, [], ◌∷◌, length, arith, pow_double,
  pow_mono,
}
use Prim.Native.Nat.{max}
use jnu.Rbtree.{red, black, Tree, leaf, node, is_red}
use jnu.Rbtree.Order.{flat, items}
use jnu.Rbtree.Balance.{IsRb, Balanced}

module _ {ℓ} {A : Type ℓ} where
  -- The nodes on the longest way down, which bound the rounds of every loop that walks down.
  abbrev pub depth : Tree A → ℕ
  depth leaf = 0
  depth (node c l a r) = suc (max (depth l) (depth r))

  depth-IsRb :
      (t : Tree A) (h : ℕ) → IsRb t h → (depth t ≤ 2 * h + 1) × (is_red t ≡ false → depth t ≤ 2 * h)
  depth-IsRb leaf h v = (omega arith, λ _. omega arith)
  depth-IsRb (node red l a r) h v =
      let (_, dl) = depth-IsRb l h v.2 in
      let (_, dr) = depth-IsRb r h v.3 in (omega (arith, dl v.0, dr v.1), λ e. absurd (cc))
  depth-IsRb (node black l a r) zero v = absurd v
  depth-IsRb (node black l a r) (suc h) v =
      let (dl, _) = depth-IsRb l h v.0 in
      let (dr, _) = depth-IsRb r h v.1 in (omega (arith, dl, dr), λ _. omega (arith, dl, dr))

  length-IsRb :
      (t : Tree A) (h : ℕ) (k : List A) → IsRb t h → 2 ^ h + length k ≤ length (flat t k) + 1
  length-IsRb leaf h k v = omega (arith, ap (λ (n : ℕ). 2 ^ n) v)
  length-IsRb (node red l a r) h k v =
      omega (arith, length-IsRb l h (a ∷ flat r k) v.2, length-IsRb r h k v.3)
  length-IsRb (node black l a r) zero k v = absurd v
  length-IsRb (node black l a r) (suc h) k v =
      omega (arith, length-IsRb l h (a ∷ flat r k) v.0, length-IsRb r h k v.1, pow_double h)

  -- Two to half the depth of a red-black tree is at most one more than the number of its items.
  pub depth-Balanced : (t : Tree A) → Balanced t → 2 ^ (depth t / 2) ≤ length (items t) + 1
  depth-Balanced t (h, v) =
      let (d, _) = depth-IsRb t h v in
      omega (arith, length-IsRb t h [] v, pow_mono {a = depth t / 2} {b = h} (omega (arith, d)))
