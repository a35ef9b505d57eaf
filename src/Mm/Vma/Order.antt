-- ===== src/Mm/Vma/Order.antt =====
-- kernel/mm/vma.c: trees whose areas are in order and do not overlap.
use jnu.Base.{
  ℕ, ◌≤◌, ◌<◌, ◌≡◌, refl, subst, inl, inr, Bool, true, false, ◌&&◌, none, some, List, [], ◌∷◌, leb,
  ltb, arith, Bool-cases,
}
use jnu.Rbtree.{Tree, leaf, node}
use jnu.Rbtree.Order.{flat, items}
use jnu.Rbtree.Balance.{Balanced}
use jnu.Mm.Vma.{Vma, vma_find}

-- A list of areas that do not overlap, in order, from `lo` on.
abbrev pub Areas : ℕ → List Vma → Type 0
Areas lo [] = Unit {0}
Areas lo (v ∷ vs) = (lo ≤ v.start) × (v.start < v.end) × Areas v.end vs

-- The same of a tree, whose areas end at `hi` at most.
abbrev pub Within : ℕ → Tree Vma → ℕ → Type 0
Within lo leaf hi = lo ≤ hi
Within lo (node c l v r) hi = Within lo l v.start × (v.start < v.end) × Within v.end r hi

-- What the operations rely on and keep.
pub record Valid (t : Tree Vma) : Type 0 where
  pub ordered : Areas 0 (items t)
  pub balanced : Balanced t

abbrev pub holds : Vma → ℕ → Bool
holds v a = leb v.start a && ltb a v.end

pub Areas-lower : (lo lo' : ℕ) (vs : List Vma) → lo' ≤ lo → Areas lo vs → Areas lo' vs
Areas-lower lo lo' [] h v = tt
Areas-lower lo lo' (w ∷ vs) h v = (omega (arith, v.0), v.1, v.2)

pub Within-lower :
    (lo lo' : ℕ) (t : Tree Vma) (hi : ℕ) → lo' ≤ lo → Within lo t hi → Within lo' t hi
Within-lower lo lo' leaf hi h v = omega arith
Within-lower lo lo' (node c l a r) hi h v = (Within-lower lo lo' l a.start h v.0, v.1, v.2)

pub Within-higher :
    (lo : ℕ) (t : Tree Vma) (hi hi' : ℕ) → hi ≤ hi' → Within lo t hi → Within lo t hi'
Within-higher lo leaf hi hi' h v = omega arith
Within-higher lo (node c l a r) hi hi' h v = (v.0, v.1, Within-higher a.end r hi hi' h v.2)

pub Within-le : (lo : ℕ) (t : Tree Vma) (hi : ℕ) → Within lo t hi → lo ≤ hi
Within-le lo leaf hi v = v
Within-le lo (node c l a r) hi v =
    omega (arith, Within-le lo l a.start v.0, v.1, Within-le a.end r hi v.2)

pub Areas-flat :
    (lo : ℕ) (t : Tree Vma) (hi : ℕ) (k : List Vma)
    → Within lo t hi
    → Areas hi k
    → Areas lo (flat t k)
Areas-flat lo leaf hi k v w = Areas-lower hi lo k v w
Areas-flat lo (node c l a r) hi k v w =
    Areas-flat lo l a.start (a ∷ flat r k) v.0 (omega arith, v.1, Areas-flat a.end r hi k v.2 w)

pub Within-flat :
    (lo : ℕ) (t : Tree Vma) (k : List Vma)
    → Areas lo (flat t k)
    → (hi : ℕ) × Within lo t hi × Areas hi k
Within-flat lo leaf k v = (lo, omega arith, v)
Within-flat lo (node c l a r) k v =
    let (m, wl, (below, long, v')) = Within-flat lo l (a ∷ flat r k) v in
    let (hi, wr, w) = Within-flat a.end r k v' in
    (hi, (Within-higher lo l m a.start below wl, long, wr), w)

-- An address outside the bounds is in no area.
pub find_below : (lo : ℕ) (t : Tree Vma) (hi a : ℕ) → Within lo t hi → a < lo → vma_find t a ≡ none
unfolding vma_find
find_below lo leaf hi a v h = refl
find_below lo (node c l b r) hi a v h =
    let low : ltb a b.start ≡ true = ground (arith, Within-le lo l b.start v.0) in
    rw low (find_below lo l b.start a v.0 h)

pub find_above : (lo : ℕ) (t : Tree Vma) (hi a : ℕ) → Within lo t hi → hi ≤ a → vma_find t a ≡ none
unfolding vma_find
find_above lo leaf hi a v h = refl
find_above lo (node c l b r) hi a v h =
    let inside = Within-le b.end r hi v.2 in
    let high : ltb a b.start ≡ false = ground (arith, inside, v.1) in
    let past : leb b.end a ≡ true = ground (arith, inside) in
    rw (high, past) (find_above b.end r hi a v.2 h)

-- A found area holds the address and lies within the bounds.
pub find-some :
    (lo : ℕ) (t : Tree Vma) (hi a : ℕ) (v : Vma)
    → Within lo t hi
    → vma_find t a ≡ some v
    → (lo ≤ v.start) × (v.start ≤ a) × (a < v.end) × (v.end ≤ hi)
unfolding vma_find
find-some lo leaf hi a v w e = cc
find-some lo (node c l b r) hi a v w e = elim (Bool-cases (ltb a b.start)) [
  | inl k ↦
      let (p, q, s, u) = find-some lo l b.start a v w.0 (ground (arith, e, k)) in
      (p, q, s, omega (arith, u, w.1, Within-le b.end r hi w.2))
  | inr k ↦ elim (Bool-cases (leb b.end a)) [
    | inl j ↦
        let (p, q, s, u) = find-some b.end r hi a v w.2 (ground (arith, e, k, j)) in
        (omega (arith, p, w.1, Within-le lo l b.start w.0), q, s, u)
    | inr j ↦
        let same : b ≡ v = ground (arith, e, k, j) in
        subst (λ x. (lo ≤ x.start) × (x.start ≤ a) × (a < x.end) × (x.end ≤ hi)) same
          (
            Within-le lo l b.start w.0,
            ground (arith, k),
            ground (arith, j),
            Within-le b.end r hi w.2,
          )
  ]
]
