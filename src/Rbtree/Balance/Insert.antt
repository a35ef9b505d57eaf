-- ===== src/Rbtree/Balance/Insert.antt =====
-- kernel/lib/rbtree.c: the red-black conditions under `rb_insert_color`.
use jnu.Base.{ℕ, suc, ◌≡◌, refl, Bool, true, false, if◌then◌else◌}
use jnu.Rbtree.{
  red, black, Tree, leaf, node, Parents, top, left_of, right_of, is_red, blacken, plug,
}
use jnu.Rbtree.Insert.{insert_color, link_node}
use jnu.Rbtree.Balance.{
  IsRb, Balanced, under_red, IsHole, unplug, and_false, is_red-blacken, blacken-IsRb,
  blacken-plug-Balanced,
}

module _ {ℓ} {A : Type ℓ} where
  Balanced-if :
      (b : Bool) (s t : Tree A)
      → (b ≡ true → Balanced s)
      → (b ≡ false → Balanced t)
      → Balanced (if b then s else t)
  Balanced-if true s t f g = f refl
  Balanced-if false s t f g = g refl

  insert_color-Balanced :
      (l : Tree A) (a : A) (r : Tree A) (p : Parents A) (h : ℕ)
      → is_red l ≡ false
      → is_red r ≡ false
      → IsRb l h
      → IsRb r h
      → IsHole p h
      → Balanced (insert_color l a r p)
  unfolding insert_color
  insert_color-Balanced l a r top h e f v w o = (suc h, (v, w))
  insert_color-Balanced l a r (left_of black b s p) h e f v w o =
      blacken-plug-Balanced (node red l a r) (left_of black b s p) h (e, f, v, w) o refl
  insert_color-Balanced l a r (right_of black s b p) h e f v w o =
      blacken-plug-Balanced (node red l a r) (right_of black s b p) h (e, f, v, w) o refl
  insert_color-Balanced l a r (left_of red b s top) h e f v w o = (suc h, ((e, f, v, w), o.2))
  insert_color-Balanced l a r (right_of red s b top) h e f v w o = (suc h, (o.2, (e, f, v, w)))
  insert_color-Balanced l a r (left_of red b s (left_of red g u p)) h e f v w o = absurd (cc)
  insert_color-Balanced l a r (right_of red s b (left_of red g u p)) h e f v w o = absurd (cc)
  insert_color-Balanced l a r (left_of red b s (right_of red u g p)) h e f v w o = absurd (cc)
  insert_color-Balanced l a r (right_of red s b (right_of red u g p)) h e f v w o = absurd (cc)
  insert_color-Balanced l a r (left_of red b s (left_of black g u p)) h e f v w
        (os, _, vs, (vu, o)) =
      Balanced-if (is_red u) _ _
        (λ k.
          insert_color-Balanced (node black (node red l a r) b s) g (blacken u) p (suc h) refl
            (is_red-blacken u) ((e, f, v, w), vs) (blacken-IsRb u h k vu) o)
        (λ k.
          blacken-plug-Balanced (node black (node red l a r) b (node red s g u)) p (suc h)
            ((e, f, v, w), (os, k, vs, vu)) o (and_false (under_red p)))
  insert_color-Balanced l a r (right_of red s b (left_of black g u p)) h e f v w
        (os, _, vs, (vu, o)) =
      Balanced-if (is_red u) _ _
        (λ k.
          insert_color-Balanced (node black s b (node red l a r)) g (blacken u) p (suc h) refl
            (is_red-blacken u) (vs, (e, f, v, w)) (blacken-IsRb u h k vu) o)
        (λ k.
          blacken-plug-Balanced (node black (node red s b l) a (node red r g u)) p (suc h)
            ((os, e, vs, v), (f, k, w, vu)) o (and_false (under_red p)))
  insert_color-Balanced l a r (right_of red s b (right_of black u g p)) h e f v w
        (os, _, vs, (vu, o)) =
      Balanced-if (is_red u) _ _
        (λ k.
          insert_color-Balanced (blacken u) g (node black s b (node red l a r)) p (suc h)
            (is_red-blacken u) refl (blacken-IsRb u h k vu) (vs, (e, f, v, w)) o)
        (λ k.
          blacken-plug-Balanced (node black (node red u g s) b (node red l a r)) p (suc h)
            ((k, os, vu, vs), (e, f, v, w)) o (and_false (under_red p)))
  insert_color-Balanced l a r (left_of red b s (right_of black u g p)) h e f v w
        (os, _, vs, (vu, o)) =
      Balanced-if (is_red u) _ _
        (λ k.
          insert_color-Balanced (blacken u) g (node black (node red l a r) b s) p (suc h)
            (is_red-blacken u) refl (blacken-IsRb u h k vu) ((e, f, v, w), vs) o)
        (λ k.
          blacken-plug-Balanced (node black (node red u g l) a (node red r b s)) p (suc h)
            ((k, e, vu, v), (f, os, w, vs)) o (and_false (under_red p)))

  -- A new node in a red-black tree leaves one.
  pub link_node-Balanced :
      (a : A) (p : Parents A) → Balanced (plug leaf p) → Balanced (link_node a p)
  unfolding link_node
  link_node-Balanced a p v =
      let (h, u, w, _) = unplug leaf p v in insert_color-Balanced leaf a leaf p h refl refl u u w
