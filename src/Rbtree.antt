-- ===== src/Rbtree.antt =====
-- kernel/lib/rbtree.c: the intrusive red-black tree. The parent pointers are the path from a subtree
-- up to the root, so a rotation rebuilds the nodes at the top of a subtree. A null pointer is `leaf`.
pub mod Insert
pub mod Erase
pub mod Order
pub mod Walk
pub mod Contract
pub mod Balance
use jnu.Base.{Bool, true, false, Option, none, some}

-- `enum rb_color`
pub data Color : Type 0 where
  red black : Color

pub data Tree {ℓ} (A : Type ℓ) : Type ℓ where
  leaf : Tree A
  node : Color → Tree A → A → Tree A → Tree A

-- The parent and what is above it, seen from its left or its right child; with the sibling.
pub data Parents {ℓ} (A : Type ℓ) : Type ℓ where
  top : Parents A
  left_of : Color → A → Tree A → Parents A → Parents A
  right_of : Color → Tree A → A → Parents A → Parents A

-- A node with its place in the tree.
pub record Cursor {ℓ} (A : Type ℓ) : Type ℓ where
  pub color : Color
  pub left : Tree A
  pub item : A
  pub right : Tree A
  pub above : Parents A

module _ {ℓ} {A : Type ℓ} where
  -- `n && n->color == RB_RED`
  abbrev pub is_red : Tree A → Bool
  is_red leaf = false
  is_red (node red l a r) = true
  is_red (node black l a r) = false

  -- `if (n) n->color = RB_BLACK`
  abbrev pub blacken : Tree A → Tree A
  blacken leaf = leaf
  blacken (node c l a r) = node black l a r

  -- The whole tree around a subtree.
  abbrev pub plug : Tree A → Parents A → Tree A
  plug t top = t
  plug t (left_of c a r p) = plug (node c t a r) p
  plug t (right_of c l a p) = plug (node c l a t) p

  -- `rb_min` of a subtree that is not empty, given as the fields of its root, with the way down.
  unfoldable pub rb_min : Color → Tree A → A → Tree A → Parents A → Cursor A
  rb_min c leaf a r p = record { color = c; left = leaf; item = a; right = r; above = p }
  rb_min c (node d ll b lr) a r p = rb_min d ll b lr (left_of c a r p)

  unfoldable pub rb_first : Tree A → Option (Cursor A)
  rb_first leaf = none
  rb_first (node c l a r) = some (rb_min c l a r top)

  -- The loop of `rb_next`: up while the node is a right child.
  unfoldable pub climb : Tree A → Parents A → Option (Cursor A)
  climb t top = none
  climb t (right_of c l a p) = climb (node c l a t) p
  climb t (left_of c a r p) = some (record { color = c; left = t; item = a; right = r; above = p })

  unfoldable pub rb_next : Cursor A → Option (Cursor A)
  rb_next n = elim n.right [
    | leaf ↦ climb (node n.color n.left n.item leaf) n.above
    | node d rl b rr ↦ some (rb_min d rl b rr (right_of n.color n.left n.item n.above))
  ]
