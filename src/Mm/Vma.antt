-- ===== src/Mm/Vma.antt =====
-- kernel/mm/vma.c: the areas of an address space, in a red-black tree that is ordered by address. A
-- pointer to an area in the tree is its start, which no other area of the tree has; the areas that
-- `vma_next` visits from one on are the rest of the tree's items.
pub mod Order
pub mod Find
pub mod Put
pub mod Change
pub mod Split
pub mod Edges
pub mod Walks
pub mod Range
pub mod Gap
pub mod GapPages
use jnu.Base.{
  ℕ, zero, suc, ◌+◌, ◌-◌, ◌%◌, ◌/◌, Bool, true, false, not, ◌&&◌, ◌||◌, Option, none, some, List,
  [], ◌∷◌, leb, ltb, ◌==◌, if◌then◌else◌, add64, sub64, then_ok, Result, ok, err, Errno, einval,
  enomem, eexist,
}
use jnu.Rbtree.{Tree, leaf, node, Parents, top, left_of, right_of, Cursor}
use jnu.Rbtree.Insert.{link_node}
use jnu.Rbtree.Erase.{rb_erase}
use jnu.Rbtree.Order.{items}

-- `VMA_READ`, `VMA_WRITE` and `VMA_EXEC`; the areas here all have `VMA_USER`.
pub record VmaFlags : Type 0 where
  pub read : Bool
  pub write : Bool
  pub exec : Bool

pub record Vma : Type 0 where
  pub start : ℕ
  -- exclusive
  pub end : ℕ
  pub flags : VmaFlags

-- The walk of `vma_insert` down to a free place; `none` at an area that overlaps.
unfoldable pub seat : Vma → Tree Vma → Parents Vma → Option (Parents Vma)
seat v leaf p = some p
seat v (node c l cur r) p =
    let left = seat v l (left_of c cur r p) in
    let right = seat v r (right_of c l cur p) in
    if leb v.end cur.start then left else if leb cur.end v.start then right else none

unfoldable pub vma_insert : Tree Vma → Vma → Tree Vma × Result (Unit {0})
vma_insert t v = elim (seat v t top) [ none ↦ (t, err eexist) | some p ↦ (link_node v p, ok tt) ]

unfoldable pub vma_find : Tree Vma → ℕ → Option Vma
vma_find leaf addr = none
vma_find (node c l cur r) addr =
    let left = vma_find l addr in
    let right = vma_find r addr in
    if ltb addr cur.start then left else if leb cur.end addr then right else some cur

-- The place of the area that a pointer stands for.
unfoldable pub locate : ℕ → Tree Vma → Parents Vma → Option (Cursor Vma)
locate s leaf p = none
locate s (node c l cur r) p =
    let left = locate s l (left_of c cur r p) in
    let right = locate s r (right_of c l cur p) in
    if ltb s cur.start
    then left
    else if ltb cur.start s
    then right
    else some (record { color = c; left = l; item = cur; right = r; above = p })

unfoldable pub vma_remove : Tree Vma → Vma → Tree Vma
vma_remove t v = elim (locate v.start t top) [ none ↦ t | some z ↦ rb_erase z ]

-- Both insertions behind the removal; each failure puts the area back as it was.
unfoldable pub insert_halves : Tree Vma → Vma → Vma → Vma → Tree Vma × Result (Unit {0})
insert_halves t whole lower upper =
    let one = vma_insert t lower in
    let two = vma_insert one.0 upper in
    elim one.1 [
      | err e ↦ ((vma_insert one.0 whole).0, err e)
      | ok _ ↦ elim two.1 [
        | err e ↦ ((vma_insert (vma_remove two.0 lower) whole).0, err e)
        | ok _ ↦ (two.0, ok tt)
      ]
    ]

-- `memory` says whether `kzalloc` finds memory.
unfoldable pub vma_split_at : Tree Vma → Vma → ℕ → Bool → Tree Vma × Result (Unit {0})
vma_split_at t v boundary memory =
    let lower = record v { end = boundary } in
    let upper = record v { start = boundary } in
    if leb boundary v.start || leb v.end boundary
    then (t, err einval)
    else if not (boundary % 4096 == 0)
    then (t, err einval)
    else if not memory
    then (t, err enomem)
    else insert_halves (vma_remove t v) v lower upper

-- The areas from one on.
unfoldable pub items_from_start : ℕ → List Vma → List Vma
items_from_start s [] = []
items_from_start s (v ∷ vs) = if v.start == s then v ∷ vs else items_from_start s vs

-- `while (v && v->end <= start) v = vma_next(v)`
unfoldable pub skip_ended : ℕ → List Vma → List Vma
skip_ended s [] = []
skip_ended s (v ∷ vs) = let rest = skip_ended s vs in if leb v.end s then rest else v ∷ vs

-- Where the loops of `vma_remove_range` and `sys_mprotect` begin.
unfoldable pub walk_from : Tree Vma → ℕ → List Vma
walk_from t start = elim (vma_find t start) [
  | some v ↦ items_from_start v.start (items t)
  | none ↦ skip_ended start (items t)
]

-- The splits at both ends of a range, with the memory for each.
unfoldable pub split_left : Tree Vma → ℕ → Bool → Tree Vma × Result (Unit {0})
split_left t start memory = elim (vma_find t start) [
  | none ↦ (t, ok tt)
  | some v ↦ if ltb v.start start then vma_split_at t v start memory else (t, ok tt)
]

unfoldable pub split_right : Tree Vma → ℕ → Bool → Tree Vma × Result (Unit {0})
split_right t end memory = elim (vma_find t (end - 1)) [
  | none ↦ (t, ok tt)
  | some v ↦ if ltb end v.end then vma_split_at t v end memory else (t, ok tt)
]

abbrev pub split_ends : Tree Vma → ℕ → ℕ → Bool → Bool → Tree Vma × Result (Unit {0})
split_ends t start end m1 m2 = then_ok (split_left t start m1) λ t1 _. split_right t1 end m2

-- The loop that removes the areas within the range; the successor is found before an area goes.
unfoldable pub remove_within : Tree Vma → ℕ → ℕ → List Vma → Tree Vma
remove_within t start end [] = t
remove_within t start end (v ∷ vs) =
    if ltb v.start end
    then remove_within (if leb start v.start && leb v.end end then vma_remove t v else t) start end
        vs
    else t

unfoldable pub vma_remove_range : Tree Vma → ℕ → ℕ → Bool → Bool → Tree Vma × Result (Unit {0})
vma_remove_range t start end m1 m2 =
    if leb end start
    then (t, err einval)
    else then_ok (split_ends t start end m1 m2)
        λ t1 _. (remove_within t1 start end (walk_from t1 start), ok tt)

-- One candidate of the gap search: the upper end of the gap from `prev_end` to `gap_end`.
abbrev pub candidate : ℕ → ℕ → ℕ → ℕ → ℕ → ℕ
candidate floor size prev_end gap_end best =
    if ltb prev_end gap_end && leb size (gap_end - prev_end)
    then (let c = gap_end - size in
        if leb prev_end c && leb floor c && (best == 0 || ltb best c) then c else best)
    else best

-- The loop over the areas, and the gap below the ceiling.
unfoldable pub best_gap : ℕ → ℕ → ℕ → ℕ → List Vma → ℕ
best_gap size ceiling prev_end best [] = candidate 0 size prev_end ceiling best
best_gap size ceiling prev_end best (v ∷ vs) =
    let rest = best_gap size ceiling v.end (candidate 4096 size prev_end v.start best) vs in
    if leb ceiling v.start then candidate 0 size prev_end ceiling best else rest

unfoldable pub vma_find_gap_top_down : Tree Vma → ℕ → ℕ → ℕ
vma_find_gap_top_down t size ceiling =
    if size == 0 || not (size % 4096 == 0) then 0 else elim (items t) [
      | [] ↦ if leb (add64 4096 size) ceiling then sub64 ceiling size else 0
      | v ∷ vs ↦ best_gap size ceiling 4096 0 (v ∷ vs)
    ]
