-- ===== src/Rbtree/Erase.antt =====
-- kernel/lib/rbtree.c: `rb_erase`.
use jnu.Base.{◌||◌, if◌then◌else◌}
use jnu.Rbtree.{
  Color, red, black, Tree, leaf, node, Parents, top, left_of, right_of, Cursor, is_red, blacken,
  plug, rb_min,
}

-- What one round of the loop of `erase_fixup` ends with: the whole tree, or the parent, with the
-- subtree below it, as the next `x`.
pub data Round {ℓ} (A : Type ℓ) : Type ℓ where
  finished : Tree A → Round A
  again : Tree A → Round A

module _ {ℓ} {A : Type ℓ} where
  -- The inner turn of a sibling `w`, if its far child is not red, so that it is after it.
  unfoldable pub turn_right : Tree A → A → Tree A → Tree A
  turn_right leaf a r = node red leaf a r
  turn_right (node c ll b lr) a r = node black ll b (node red lr a r)

  unfoldable pub turn_left : Tree A → A → Tree A → Tree A
  turn_left l a leaf = node red l a leaf
  turn_left l a (node c rl b rr) = node black (node red l a rl) b rr

  -- The sibling's colour, the parent's colour, and the last rotation; then `x` is the root.
  unfoldable pub rotate_last_left : Color → Tree A → A → Tree A → Parents A → Tree A
  rotate_last_left c x b leaf p = blacken (plug (node black x b leaf) p)
  rotate_last_left c x b (node wc wl w wr) p =
      blacken (plug (node c (node black x b wl) w (blacken wr)) p)

  unfoldable pub rotate_last_right : Color → Tree A → A → Tree A → Parents A → Tree A
  rotate_last_right c leaf b x p = blacken (plug (node black leaf b x) p)
  rotate_last_right c (node wc wl w wr) b x p =
      blacken (plug (node c (blacken wl) w (node black wr b x)) p)

  -- The round behind the case of a red sibling, for a left child `x` of a node of colour `c`.
  unfoldable pub round_left : Color → Tree A → A → Tree A → Parents A → Round A
  round_left c x b leaf p = again (node c x b leaf)
  round_left c x b (node wc wl w wr) p =
      if is_red wl || is_red wr
      then finished
          (rotate_last_left c x b (if is_red wr then node wc wl w wr else turn_right wl w wr) p)
      else again (node c x b (node red wl w wr))

  unfoldable pub round_right : Color → Tree A → A → Tree A → Parents A → Round A
  round_right c leaf b x p = again (node c leaf b x)
  round_right c (node wc wl w wr) b x p =
      if is_red wl || is_red wr
      then finished
          (rotate_last_right c (if is_red wl then node wc wl w wr else turn_left wl w wr) b x p)
      else again (node c (node red wl w wr) b x)

  -- Behind a red sibling the parent is red, so if it is the next `x`, the loop ends with it.
  abbrev pub close : Parents A → Round A → Tree A
  close p (finished t) = t
  close p (again x) = plug (blacken x) p

  abbrev pub resume : (Tree A → Tree A) → Round A → Tree A
  resume f (finished t) = t
  resume f (again x) = f x

  -- The loop, and the line behind it. `x` is on the side that the path says; where both children are
  -- null the code takes the left side, with the same result.
  unfoldable pub erase_fixup : Tree A → Parents A → Tree A
  erase_fixup x top = blacken x
  erase_fixup x (left_of c b (node red wl w wr) p) =
      let above = left_of black w wr p in
      if is_red x
      then plug (blacken x) (left_of c b (node red wl w wr) p)
      else close above (round_left red x b wl above)
  erase_fixup x (left_of c b s p) =
      if is_red x
      then plug (blacken x) (left_of c b s p)
      else resume (λ y. erase_fixup y p) (round_left c x b s p)
  erase_fixup x (right_of c (node red wl w wr) b p) =
      let above = right_of black wl w p in
      if is_red x
      then plug (blacken x) (right_of c (node red wl w wr) b p)
      else close above (round_right red wr b x above)
  erase_fixup x (right_of c s b p) =
      if is_red x
      then plug (blacken x) (right_of c s b p)
      else resume (λ y. erase_fixup y p) (round_right c s b x p)

  -- Behind the node that left its place: nothing is out of balance if it was red.
  abbrev pub fix_after : Color → Tree A → Parents A → Tree A
  fix_after red x p = plug x p
  fix_after black x p = erase_fixup x p

  -- A node with two children gives its place, and its colour, to the next node.
  unfoldable pub rb_erase : Cursor A → Tree A
  rb_erase z = elim z.left [
    | leaf ↦ fix_after z.color z.right z.above
    | node lc ll la lr ↦ elim z.right [
      | leaf ↦ fix_after z.color z.left z.above
      | node rc rl ra rr ↦
          let least = (rb_min rc rl ra rr top).item in
          let y = rb_min rc rl ra rr (right_of z.color z.left least z.above) in
          fix_after y.color y.right y.above
    ]
  ]
