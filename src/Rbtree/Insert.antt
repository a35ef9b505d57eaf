-- ===== src/Rbtree/Insert.antt =====
-- kernel/lib/rbtree.c: `rb_link_node` and `rb_insert_color`.
use jnu.Base.{if◌then◌else◌}
use jnu.Rbtree.{
  red, black, Tree, leaf, node, Parents, top, left_of, right_of, is_red, blacken, plug,
}

module _ {ℓ} {A : Type ℓ} where
  -- The loop of `rb_insert_color` and the line behind it, for the red node `z` with the children `l`
  -- and `r`. A red uncle moves the trouble two levels up; a black one ends it with one rotation or
  -- two.
  unfoldable pub insert_color : Tree A → A → Tree A → Parents A → Tree A
  insert_color l a r top = node black l a r
  insert_color l a r (left_of black b s p) = blacken (plug (node red l a r) (left_of black b s p))
  insert_color l a r (right_of black s b p) = blacken (plug (node red l a r) (right_of black s b p))
  insert_color l a r (left_of red b s top) = node black (node red l a r) b s
  insert_color l a r (right_of red s b top) = node black s b (node red l a r)
  insert_color l a r (left_of red b s (left_of gc g u p)) =
      let up = insert_color (node black (node red l a r) b s) g (blacken u) p in
      if is_red u then up else blacken (plug (node black (node red l a r) b (node red s g u)) p)
  insert_color l a r (right_of red s b (left_of gc g u p)) =
      let up = insert_color (node black s b (node red l a r)) g (blacken u) p in
      if is_red u then up else blacken (plug (node black (node red s b l) a (node red r g u)) p)
  insert_color l a r (right_of red s b (right_of gc u g p)) =
      let up = insert_color (blacken u) g (node black s b (node red l a r)) p in
      if is_red u then up else blacken (plug (node black (node red u g s) b (node red l a r)) p)
  insert_color l a r (left_of red b s (right_of gc u g p)) =
      let up = insert_color (blacken u) g (node black (node red l a r) b s) p in
      if is_red u then up else blacken (plug (node black (node red u g l) a (node red r b s)) p)

  -- A new node is red and has no children.
  unfoldable pub link_node : A → Parents A → Tree A
  link_node a p = insert_color leaf a leaf p
