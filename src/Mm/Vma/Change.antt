-- ===== src/Mm/Vma/Change.antt =====
-- kernel/mm/vma.c: `vma_insert` and `vma_remove` as changes of the map from addresses to areas.
use jnu.Base.{
  ℕ, ◌+◌, ◌≤◌, ◌<◌, ◌≡◌, refl, sym, ap, ◌∙◌, subst, ◌⊎◌, inl, inr, true, false, none, some, [], ◌∷◌,
  ◌++◌, leb, ltb, if◌then◌else◌, arith, Bool-cases, Option-cases, Result, ok, err, eexist,
}
use jnu.Rbtree.{Tree, leaf, node, Parents, top, left_of, right_of, Cursor, plug}
use jnu.Rbtree.Order.{items, items-link_node}
use jnu.Rbtree.Insert.{link_node}
use jnu.Rbtree.Erase.{rb_erase}
use jnu.Rbtree.Balance.{Balanced}
use jnu.Rbtree.Balance.Insert.{link_node-Balanced}
use jnu.Rbtree.Balance.Erase.{rb_erase-Balanced}
use jnu.Mm.Vma.{Vma, vma_find, vma_insert, vma_remove, locate, seat}
use jnu.Mm.Vma.Order.{Areas, Within, Valid, holds, Within-higher, Within-le, Within-flat}
use jnu.Mm.Vma.Find.{find_in, put, vma_find-items}
use jnu.Mm.Vma.Put.{seat-put, seat-none, find_in-put, find_in_clear, Areas-drop, find_in-drop}
use jnu.Rbtree.Contract.{whole, around}

-- An area is added, or it would overlap and nothing is.
pub data Insertion (t : Tree Vma) (v : Vma) (r : Tree Vma × Result (Unit {0})) : Type 0 where
  added :
      r.1 ≡ ok tt
      → Valid r.0
      → ((a : ℕ) → vma_find r.0 a ≡ (if holds v a then some v else vma_find t a))
      → ((a : ℕ) → holds v a ≡ true → vma_find t a ≡ none)
      → Insertion t v r
  overlaps :
      (a : ℕ) (w : Vma)
      → r ≡ (t, err eexist)
      → holds v a ≡ true
      → vma_find t a ≡ some w
      → Insertion t v r

-- For an area of at least one address and a valid tree, `vma_insert` either succeeds, the tree
-- is valid, the addresses of the area, which were in none, are in it and all others are in the
-- areas they were in; or it fails with `EEXIST`, nothing changes, and some address of the area
-- is in an area of the tree.
pub vma_insert-Insertion :
    {t : Tree Vma} (v : Vma) → Valid t → v.start < v.end → Insertion t v (vma_insert t v)
unfolding vma_insert
vma_insert-Insertion {t} v good long =
    let (hi, w, _) = Within-flat 0 t [] good.ordered in
    let w' = Within-higher 0 t hi (hi + v.end) (omega arith) w in
    elim (Option-cases (seat v t top)) [
      | inl e ↦
          let (a, x, h, f) = seat-none v 0 t hi top w long e in
          overlaps a x (rw (e, vma_insert) refl) h f
      | inr (q, e) ↦
          let (places, sorted, whole) =
            seat-put v 0 t (hi + v.end) top q w' tt (omega arith) long (omega arith) e in
          let listed : items (link_node v q) ≡ put v (items t) = items-link_node v q ∙ places in
          let next : Valid (link_node v q) = record {
            ordered = subst (λ xs. Areas 0 xs) (sym listed) sorted;
            balanced = link_node-Balanced v q (subst (λ x. Balanced x) (sym whole) good.balanced);
          } in
          let finds : (a : ℕ)
              → vma_find (link_node v q) a ≡ (if holds v a then some v else vma_find t a) =
            λ a.
              vma_find-items a next
              ∙ (ap (λ xs. find_in xs a) listed
                  ∙ (find_in-put 0 v (items t) a sorted
                      ∙ ap (λ o. if holds v a then some v else o) (sym (vma_find-items a good)))) in
          rw (e, vma_insert)
            (added refl next finds
              (λ a i. vma_find-items a good ∙ find_in_clear 0 v (items t) a sorted i))
    ]

abbrev Has : Tree Vma → Vma → Type 0
Has leaf v = ⊥
Has (node c l b r) v = Has l v ⊎ ((b ≡ v) ⊎ Has r v)

find-Has : (t : Tree Vma) (a : ℕ) (v : Vma) → vma_find t a ≡ some v → Has t v
unfolding vma_find
find-Has leaf a v e = cc
find-Has (node c l b r) a v e = elim (Bool-cases (ltb a b.start)) [
  | inl k ↦ inl (find-Has l a v (ground (arith, e, k)))
  | inr k ↦ elim (Bool-cases (leb b.end a)) [
    | inl n ↦ inr (inr (find-Has r a v (ground (arith, e, k, n))))
    | inr n ↦ inr (inl (ground (arith, e, k, n)))
  ]
]

Has-bounds :
    (lo : ℕ) (t : Tree Vma) (hi : ℕ) (v : Vma)
    → Within lo t hi
    → Has t v
    → (lo ≤ v.start) × (v.start < v.end) × (v.end ≤ hi)
Has-bounds lo leaf hi v w x = elim x [ ]
Has-bounds lo (node c l b r) hi v w (inl h) =
    let (x, y, z) = Has-bounds lo l b.start v w.0 h in
    (x, y, omega (arith, z, w.1, Within-le b.end r hi w.2))
Has-bounds lo (node c l b r) hi v w (inr (inl e)) =
    subst (λ (u : Vma). (lo ≤ u.start) × (u.start < u.end) × (u.end ≤ hi)) e
      (Within-le lo l b.start w.0, w.1, Within-le b.end r hi w.2)
Has-bounds lo (node c l b r) hi v w (inr (inr h)) =
    let (x, y, z) = Has-bounds b.end r hi v w.2 h in
    (omega (arith, x, w.1, Within-le lo l b.start w.0), y, z)

locate-Has :
    (lo : ℕ) (t : Tree Vma) (hi : ℕ) (v : Vma) (p : Parents Vma)
    → Within lo t hi
    → Has t v
    → (z : Cursor Vma) × (locate v.start t p ≡ some z) × (z.item ≡ v) × (whole z ≡ plug t p)
unfolding locate
locate-Has lo leaf hi v p w x = elim x [ ]
locate-Has lo (node c l b r) hi v p w (inl h) =
    let (x, y, z) = Has-bounds lo l b.start v w.0 h in
    let low : ltb v.start b.start ≡ true = ground (arith, y, z) in
    rw low (locate-Has lo l b.start v (left_of c b r p) w.0 h)
locate-Has lo (node c l b r) hi v p w (inr (inl e)) =
    let low : ltb v.start b.start ≡ false = ground (arith, ap (λ (u : Vma). u.start) e) in
    let high : ltb b.start v.start ≡ false = ground (arith, ap (λ (u : Vma). u.start) e) in
    rw (low, high) (_, refl, e, refl)
locate-Has lo (node c l b r) hi v p w (inr (inr h)) =
    let (x, y, z) = Has-bounds b.end r hi v w.2 h in
    let low : ltb v.start b.start ≡ false = ground (arith, x, w.1) in
    let high : ltb b.start v.start ≡ true = ground (arith, x, w.1) in
    rw (low, high) (locate-Has b.end r hi v (right_of c l b p) w.2 h)

-- `vma_remove` takes an area out, and changes no other.
pub vma_remove-clears :
    {t : Tree Vma} (v : Vma) (b : ℕ)
    → Valid t
    → vma_find t b ≡ some v
    → Valid (vma_remove t v)
      × ((a : ℕ) → vma_find (vma_remove t v) a ≡ (if holds v a then none else vma_find t a))
unfolding vma_remove
vma_remove-clears {t} v b good found =
    let (hi, w, _) = Within-flat 0 t [] good.ordered in
    let (z, at, same, all) = locate-Has 0 t hi v top w (find-Has t b v found) in
    let (zs, ws, full, less) = around z in
    let listed : items t ≡ zs ++ (v ∷ ws) =
      subst (λ x. items t ≡ zs ++ (x ∷ ws)) same (ap (λ x. items x) (sym all) ∙ full) in
    let sorted = subst (λ xs. Areas 0 xs) listed good.ordered in
    let next : Valid (rb_erase z) = record {
      ordered = subst (λ xs. Areas 0 xs) (sym less) (Areas-drop 0 zs v ws sorted);
      balanced = rb_erase-Balanced z (subst (λ x. Balanced x) (sym all) good.balanced);
    } in
    rw (at, vma_remove)
      (
        next,
        λ a.
            vma_find-items a next
            ∙ (ap (λ xs. find_in xs a) less
                ∙ (find_in-drop 0 zs v ws a sorted
                    ∙ ap (λ o. if holds v a then none else o)
                        (ap (λ xs. find_in xs a) (sym listed) ∙ sym (vma_find-items a good)))),
      )
