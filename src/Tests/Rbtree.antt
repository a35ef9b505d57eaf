-- ===== src/Tests/Rbtree.antt =====
-- kernel/lib/rbtree.c at trees of three numbers.
use jnu.Base.{ℕ, ◌≡◌, refl, List, [], ◌∷◌, ◌++◌}
use jnu.Rbtree.{red, black, leaf, node, Parents, top, left_of, right_of, Cursor, plug}
use jnu.Rbtree.Order.{items}
use jnu.Rbtree.Insert.{link_node}
use jnu.Rbtree.Erase.{rb_erase, erase_fixup, round_left}
use jnu.Rbtree.Balance.{Balanced}
use jnu.Rbtree.Contract.{whole, rb_erase-Tree, link_node-Tree}

-- The place to the right of 1, whose sibling is red.
abbrev below_red : Parents ℕ
below_red = right_of red leaf 1 (left_of black 3 (node red leaf 7 leaf) top)

link_node-Tree_example :
    (zs : List ℕ) × (ws : List ℕ) × (items (plug leaf below_red) ≡ zs ++ ws)
    × (items (link_node 2 below_red) ≡ zs ++ (2 ∷ ws))
    × Balanced (link_node 2 below_red)
link_node-Tree_example =
    link_node-Tree 2 below_red (1, ((refl, refl, refl, refl), (refl, refl, refl, refl)))

-- A black node without children, so that its going has to be mended.
abbrev black_leaf : Cursor ℕ
black_leaf = record {
  color = black;
  left = leaf;
  item = 1;
  right = leaf;
  above = left_of black 3 (node black leaf 7 leaf) top;
}

rb_erase-Tree_example :
    (zs : List ℕ) × (ws : List ℕ) × (items (whole black_leaf) ≡ zs ++ (1 ∷ ws))
    × (items (rb_erase black_leaf) ≡ zs ++ ws)
    × Balanced (rb_erase black_leaf)
rb_erase-Tree_example = rb_erase-Tree black_leaf (2, ((refl, refl), (refl, refl)))

erased_items : items (rb_erase black_leaf) ≡ 3 ∷ 7 ∷ []
unfolding rb_erase erase_fixup round_left
erased_items = refl
