-- ===== src/Rbtree/Walk.antt =====
-- kernel/lib/rbtree.c: the walk by `rb_first` and `rb_next`.
use jnu.Base.{◌≡◌, refl, sym, ap, List, [], ◌∷◌, Option, none, some}
use jnu.Rbtree.{Tree, leaf, node, Parents, top, left_of, right_of, Cursor, rb_first, climb, rb_next}
use jnu.Rbtree.Order.{flat, after, items, after-rb_min}

module _ {ℓ} {A : Type ℓ} where
  -- The items from a place on.
  abbrev pub items_from : Option (Cursor A) → List A
  items_from none = []
  items_from (some n) = n.item ∷ flat n.right (after n.above)

  -- The walk begins at the first item.
  pub items_from-rb_first : (t : Tree A) → items_from (rb_first t) ≡ items t
  unfolding rb_first
  items_from-rb_first leaf = refl
  items_from-rb_first (node c l a r) = after-rb_min c l a r top

  items_from-climb : (t : Tree A) (p : Parents A) → items_from (climb t p) ≡ after p
  unfolding climb
  items_from-climb t top = refl
  items_from-climb t (left_of c a r p) = refl
  items_from-climb t (right_of c l a p) = items_from-climb (node c l a t) p

  -- The items from a node on are its own item and the items from the node that `rb_next`
  -- returns.
  pub items_from-rb_next : (n : Cursor A) → items_from (some n) ≡ n.item ∷ items_from (rb_next n)
  unfolding rb_next
  items_from-rb_next n = go n.right
    where
      go :
          (r : Tree A)
          → n.item ∷ flat r (after n.above) ≡ n.item ∷ items_from (rb_next (record n { right = r }))
      go leaf =
          ap (λ k. n.item ∷ k) (sym (items_from-climb (node n.color n.left n.item leaf) n.above))
      go (node d rl b rr) =
          ap (λ k. n.item ∷ k)
            (sym (after-rb_min d rl b rr (right_of n.color n.left n.item n.above)))
