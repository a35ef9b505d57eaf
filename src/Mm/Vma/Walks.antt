-- ===== src/Mm/Vma/Walks.antt =====
-- kernel/mm/vma.c: the areas that a loop over a range visits.
use jnu.Base.{
  ℕ, ◌≤◌, ◌≡◌, refl, sym, ap, ◌∙◌, inl, inr, false, none, some, List, [], ◌∷◌, leb, ◌==◌,
  if◌then◌else◌, arith, Bool-cases, Option-cases,
}
use jnu.Rbtree.{Tree}
use jnu.Rbtree.Order.{items}
use jnu.Mm.Vma.{Vma, vma_find, items_from_start, skip_ended, walk_from}
use jnu.Mm.Vma.Order.{Areas, Valid, holds, Areas-lower}
use jnu.Mm.Vma.Find.{find_in, vma_find-items, find_in-some, find_in_below, find_in-behind}
use jnu.Mm.Vma.Split.{holds-find}

-- A later part of a list of areas.
data Later : List Vma → List Vma → Type 0 where
  here : {vs : List Vma} → Later vs vs
  past : {w : Vma} {vs ws : List Vma} → Later vs ws → Later (w ∷ vs) ws

Later-Areas :
    (lo : ℕ) {vs ws : List Vma}
    → Areas lo vs
    → Later vs ws
    → Areas lo ws × ((a : ℕ) (v : Vma) → find_in ws a ≡ some v → find_in vs a ≡ some v)
Later-Areas lo h here = (h, λ a v e. e)
Later-Areas lo h (past {w} {vs} {ws} p) =
    let (x, y) = Later-Areas w.end h.2 p in
    (
      Areas-lower w.end lo ws (omega (arith, h.0, h.1)) x,
      λ a v e. find_in-behind lo w vs a v h (y a v e),
    )

-- Both ways to begin leave out only areas that end at `s` at most.
from_start :
    (lo s b : ℕ) (v : Vma) (vs : List Vma)
    → Areas lo vs
    → find_in vs b ≡ some v
    → v.start ≡ s
    → Later vs (items_from_start s vs)
      × ((a : ℕ) → s ≤ a → find_in (items_from_start s vs) a ≡ find_in vs a)
unfolding items_from_start
from_start lo s b v [] h e same = cc
from_start lo s b v (w ∷ vs) h e same = elim (Bool-cases (w.start == s)) [
  | inl k ↦ rw k (here, λ a _. refl)
  | inr k ↦ elim (Bool-cases (holds w b)) [
    | inl i ↦
        let one : w ≡ v = ground (arith, e, i) in
        absurd (ground (arith, k, same, ap (λ (x : Vma). x.start) one))
    | inr i ↦
        let deeper : find_in vs b ≡ some v = ground (arith, e, i) in
        let (x, y) = from_start w.end s b v vs h.2 deeper same in
        let (after, _, _) = find_in-some w.end vs b v h.2 deeper in
        rw k (
          past x,
          λ a low.
              let out : holds w a ≡ false = ground (arith, low, after, same) in rw out (y a low),
        )
  ]
]

from_skip :
    (s : ℕ) (vs : List Vma)
    → Later vs (skip_ended s vs) × ((a : ℕ) → s ≤ a → find_in (skip_ended s vs) a ≡ find_in vs a)
unfolding skip_ended
from_skip s [] = (here, λ a _. refl)
from_skip s (w ∷ vs) = elim (Bool-cases (leb w.end s)) [
  | inr k ↦ rw k (here, λ a _. refl)
  | inl k ↦
      let (x, y) = from_skip s vs in
      rw k
        (past x, λ a low. let out : holds w a ≡ false = ground (arith, low, k) in rw out (y a low))
]

-- A list of areas in the tree that has all with an address in the range.
pub record Walk (t : Tree Vma) (s : ℕ) (lo : ℕ) (vs : List Vma) : Type 0 where
  pub in_order : Areas lo vs
  pub each : (a : ℕ) (v : Vma) → find_in vs a ≡ some v → vma_find t a ≡ some v
  pub cover : (a : ℕ) → s ≤ a → vma_find t a ≡ find_in vs a

Later-Walk :
    {t : Tree Vma} (s : ℕ) (ws : List Vma)
    → Valid t
    → Later (items t) ws
    → ((a : ℕ) → s ≤ a → find_in ws a ≡ find_in (items t) a)
    → Walk t s 0 ws
Later-Walk s ws good p q =
    let (x, y) = Later-Areas 0 good.ordered p in
    record {
      in_order = x;
      each = λ a v e. vma_find-items a good ∙ y a v e;
      cover = λ a low. vma_find-items a good ∙ sym (q a low);
    }

-- The areas that `walk_from` visits.
pub walk_from-Walk : {t : Tree Vma} (s : ℕ) → Valid t → Walk t s 0 (walk_from t s)
unfolding walk_from
walk_from-Walk {t} s good = elim (Option-cases (vma_find t s)) [
  | inl e ↦
      let (x, y) = from_skip s (items t) in
      rw (e, walk_from) (Later-Walk s (skip_ended s (items t)) good x y)
  | inr (v, e) ↦
      let listed = sym (vma_find-items s good) ∙ e in
      let (x, y) = from_start 0 v.start s v (items t) good.ordered listed refl in
      let low = holds-find s v good e in
      rw (e, walk_from)
        (Later-Walk s (items_from_start v.start (items t)) good x
          (λ a i. y a (ground (arith, i, low))))
]

-- The walk behind an area, once the area is gone or when it ends before the range.
pub Walk-removed :
    {t : Tree Vma} (s lo : ℕ) (v : Vma) (vs : List Vma)
    → Walk t s lo (v ∷ vs)
    → (u : Tree Vma) → ((a : ℕ) → vma_find u a ≡ (if holds v a then none else vma_find t a))
    → Walk u s v.end vs
Walk-removed {t} s lo v vs w u less = record {
  in_order = w.in_order.2;
  each = λ a x e.
      let (q, n, _) = find_in-some v.end vs a x w.in_order.2 e in
      let out : holds v a ≡ false = ground (arith, q, n) in less a ∙ rw out (w.each a x (rw out e));
  cover = λ a low. elim (Bool-cases (holds v a)) [
    | inl i ↦ less a ∙ rw i (sym (find_in_below v.end vs a w.in_order.2 (ground (arith, i))))
    | inr i ↦ less a ∙ rw i (w.cover a low ∙ rw i refl)
  ];
}

pub Walk-passed :
    {t : Tree Vma} (s lo : ℕ) (v : Vma) (vs : List Vma)
    → Walk t s lo (v ∷ vs)
    → v.end ≤ s
    → Walk t s v.end vs
Walk-passed {t} s lo v vs w behind = record {
  in_order = w.in_order.2;
  each = λ a x e. w.each a x (find_in-behind lo v vs a x w.in_order e);
  cover = λ a low.
      let out : holds v a ≡ false = ground (arith, low, behind) in w.cover a low ∙ rw out refl;
}
