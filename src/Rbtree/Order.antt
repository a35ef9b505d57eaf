-- ===== src/Rbtree/Order.antt =====
-- kernel/lib/rbtree.c: the nodes from left to right, under insertion and removal.
use jnu.Base.{
  ◌≡◌, refl, ap, ◌∙◌, Bool, true, false, ◌||◌, List, [], ◌∷◌, if◌then◌else◌, Bool-cases, inl, inr,
}
use jnu.Rbtree.{
  Color, red, black, Tree, leaf, node, Parents, top, left_of, right_of, Cursor, is_red, blacken,
  plug, rb_min,
}
use jnu.Rbtree.Insert.{insert_color, link_node}
use jnu.Rbtree.Erase.{
  Round, finished, again, turn_right, turn_left, rotate_last_left, rotate_last_right, round_left,
  round_right, close, resume, erase_fixup, fix_after, rb_erase,
}

module _ {ℓ} {A : Type ℓ} where
  -- The items of a tree from left to right, in front of a list.
  abbrev pub flat : Tree A → List A → List A
  flat leaf k = k
  flat (node c l a r) k = flat l (a ∷ flat r k)

  -- The items before and after the place that a path leads to.
  abbrev pub before : Parents A → List A → List A
  before top k = k
  before (left_of c a r p) k = before p k
  before (right_of c l a p) k = before p (flat l (a ∷ k))

  abbrev pub after : Parents A → List A
  after top = []
  after (left_of c a r p) = a ∷ flat r (after p)
  after (right_of c l a p) = after p

  abbrev pub items : Tree A → List A
  items t = flat t []

  pub flat-blacken : (t : Tree A) (k : List A) → flat (blacken t) k ≡ flat t k
  flat-blacken leaf k = refl
  flat-blacken (node c l a r) k = refl

  pub items-plug : (t : Tree A) (p : Parents A) → items (plug t p) ≡ before p (flat t (after p))
  items-plug t top = refl
  items-plug t (left_of c a r p) = items-plug (node c t a r) p
  items-plug t (right_of c l a p) = items-plug (node c l a t) p

  items-blacken-plug :
      (t : Tree A) (p : Parents A) → items (blacken (plug t p)) ≡ before p (flat t (after p))
  items-blacken-plug t p = flat-blacken (plug t p) [] ∙ items-plug t p

  items-if :
      (b : Bool) (s t : Tree A) {k : List A}
      → items s ≡ k
      → items t ≡ k
      → items (if b then s else t) ≡ k
  items-if true s t h i = h
  items-if false s t h i = i

  items-insert_color :
      (l : Tree A) (a : A) (r : Tree A) (p : Parents A)
      → items (insert_color l a r p) ≡ before p (flat l (a ∷ flat r (after p)))
  unfolding insert_color
  items-insert_color l a r top = refl
  items-insert_color l a r (left_of black b s p) =
      items-blacken-plug (node red l a r) (left_of black b s p)
  items-insert_color l a r (right_of black s b p) =
      items-blacken-plug (node red l a r) (right_of black s b p)
  items-insert_color l a r (left_of red b s top) = refl
  items-insert_color l a r (right_of red s b top) = refl
  items-insert_color l a r (left_of red b s (left_of gc g u p)) =
      items-if (is_red u) _ _
        (items-insert_color (node black (node red l a r) b s) g (blacken u) p
          ∙ ap (λ k. before p (flat l (a ∷ flat r (b ∷ flat s (g ∷ k)))))
              (flat-blacken u (after p)))
        (items-blacken-plug (node black (node red l a r) b (node red s g u)) p)
  items-insert_color l a r (right_of red s b (left_of gc g u p)) =
      items-if (is_red u) _ _
        (items-insert_color (node black s b (node red l a r)) g (blacken u) p
          ∙ ap (λ k. before p (flat s (b ∷ flat l (a ∷ flat r (g ∷ k)))))
              (flat-blacken u (after p)))
        (items-blacken-plug (node black (node red s b l) a (node red r g u)) p)
  items-insert_color l a r (right_of red s b (right_of gc u g p)) =
      items-if (is_red u) _ _
        (items-insert_color (blacken u) g (node black s b (node red l a r)) p
          ∙ ap (λ k. before p k) (flat-blacken u _))
        (items-blacken-plug (node black (node red u g s) b (node red l a r)) p)
  items-insert_color l a r (left_of red b s (right_of gc u g p)) =
      items-if (is_red u) _ _
        (items-insert_color (blacken u) g (node black (node red l a r) b s) p
          ∙ ap (λ k. before p k) (flat-blacken u _))
        (items-blacken-plug (node black (node red u g l) a (node red r b s)) p)

  -- A new node stands at its place in the order.
  pub items-link_node : (a : A) (p : Parents A) → items (link_node a p) ≡ before p (a ∷ after p)
  unfolding link_node
  items-link_node a p = items-insert_color leaf a leaf p

  -- The items of the whole tree, as the round leaves it.
  abbrev round_items : Parents A → Round A → List A
  round_items p (finished t) = items t
  round_items p (again y) = before p (flat y (after p))

  flat-turn_right :
      (l : Tree A) (a : A) (r : Tree A) (k : List A)
      → flat (turn_right l a r) k ≡ flat l (a ∷ flat r k)
  unfolding turn_right
  flat-turn_right leaf a r k = refl
  flat-turn_right (node c ll b lr) a r k = refl

  flat-turn_left :
      (l : Tree A) (a : A) (r : Tree A) (k : List A)
      → flat (turn_left l a r) k ≡ flat l (a ∷ flat r k)
  unfolding turn_left
  flat-turn_left l a leaf k = refl
  flat-turn_left l a (node c rl b rr) k = refl

  items-rotate_last_left :
      (c : Color) (x : Tree A) (b : A) (w : Tree A) (p : Parents A)
      → items (rotate_last_left c x b w p) ≡ before p (flat x (b ∷ flat w (after p)))
  unfolding rotate_last_left
  items-rotate_last_left c x b leaf p = items-blacken-plug (node black x b leaf) p
  items-rotate_last_left c x b (node wc wl w wr) p =
      items-blacken-plug (node c (node black x b wl) w (blacken wr)) p
      ∙ ap (λ k. before p (flat x (b ∷ flat wl (w ∷ k)))) (flat-blacken wr (after p))

  items-rotate_last_right :
      (c : Color) (w : Tree A) (b : A) (x : Tree A) (p : Parents A)
      → items (rotate_last_right c w b x p) ≡ before p (flat w (b ∷ flat x (after p)))
  unfolding rotate_last_right
  items-rotate_last_right c leaf b x p = items-blacken-plug (node black leaf b x) p
  items-rotate_last_right c (node wc wl w wr) b x p =
      items-blacken-plug (node c (blacken wl) w (node black wr b x)) p
      ∙ ap (λ k. before p k) (flat-blacken wl _)

  items-round_left :
      (c : Color) (x : Tree A) (b : A) (w : Tree A) (p : Parents A)
      → round_items p (round_left c x b w p) ≡ before p (flat x (b ∷ flat w (after p)))
  unfolding round_left
  items-round_left c x b leaf p = refl
  items-round_left c x b (node wc wl w wr) p = elim (Bool-cases (is_red wl || is_red wr)) [
    | inl e ↦ rw e (elim (Bool-cases (is_red wr)) [
      | inl k ↦ rw k (items-rotate_last_left c x b (node wc wl w wr) p)
      | inr k ↦ rw k (
          items-rotate_last_left c x b (turn_right wl w wr) p
          ∙ ap (λ i. before p (flat x (b ∷ i))) (flat-turn_right wl w wr (after p)))
    ])
    | inr e ↦ rw e refl
  ]

  items-round_right :
      (c : Color) (w : Tree A) (b : A) (x : Tree A) (p : Parents A)
      → round_items p (round_right c w b x p) ≡ before p (flat w (b ∷ flat x (after p)))
  unfolding round_right
  items-round_right c leaf b x p = refl
  items-round_right c (node wc wl w wr) b x p = elim (Bool-cases (is_red wl || is_red wr)) [
    | inl e ↦ rw e (elim (Bool-cases (is_red wl)) [
      | inl k ↦ rw k (items-rotate_last_right c (node wc wl w wr) b x p)
      | inr k ↦ rw k (
          items-rotate_last_right c (turn_left wl w wr) b x p
          ∙ ap (λ i. before p i) (flat-turn_left wl w wr _))
    ])
    | inr e ↦ rw e refl
  ]

  items-close : (p : Parents A) (o : Round A) → items (close p o) ≡ round_items p o
  items-close p (finished t) = refl
  items-close p (again x) =
      items-plug (blacken x) p ∙ ap (λ k. before p k) (flat-blacken x (after p))

  items-resume :
      (p : Parents A) (f : Tree A → Tree A)
      → ((y : Tree A) → items (f y) ≡ before p (flat y (after p)))
      → (o : Round A) → items (resume f o) ≡ round_items p o
  items-resume p f h (finished t) = refl
  items-resume p f h (again y) = h y

  items-erase_fixup :
      (x : Tree A) (p : Parents A) → items (erase_fixup x p) ≡ before p (flat x (after p))
  unfolding erase_fixup
  items-erase_fixup x top = flat-blacken x []
  items-erase_fixup x (left_of c b leaf p) =
      items-if (is_red x) _ _ (items-close (left_of c b leaf p) (again x)) (
        items-resume p (λ y. erase_fixup y p) (λ y. items-erase_fixup y p) (round_left c x b leaf p)
        ∙ items-round_left c x b leaf p)
  items-erase_fixup x (left_of c b (node red wl w wr) p) =
      items-if (is_red x) _ _ (items-close (left_of c b (node red wl w wr) p) (again x)) (
        items-close (left_of black w wr p) (round_left red x b wl (left_of black w wr p))
        ∙ items-round_left red x b wl (left_of black w wr p))
  items-erase_fixup x (left_of c b (node black wl w wr) p) =
      items-if (is_red x) _ _ (items-close (left_of c b (node black wl w wr) p) (again x)) (
        items-resume p (λ y. erase_fixup y p) (λ y. items-erase_fixup y p)
          (round_left c x b (node black wl w wr) p)
        ∙ items-round_left c x b (node black wl w wr) p)
  items-erase_fixup x (right_of c leaf b p) =
      items-if (is_red x) _ _ (items-close (right_of c leaf b p) (again x)) (
        items-resume p (λ y. erase_fixup y p) (λ y. items-erase_fixup y p)
          (round_right c leaf b x p)
        ∙ items-round_right c leaf b x p)
  items-erase_fixup x (right_of c (node red wl w wr) b p) =
      items-if (is_red x) _ _ (items-close (right_of c (node red wl w wr) b p) (again x)) (
        items-close (right_of black wl w p) (round_right red wr b x (right_of black wl w p))
        ∙ items-round_right red wr b x (right_of black wl w p))
  items-erase_fixup x (right_of c (node black wl w wr) b p) =
      items-if (is_red x) _ _ (items-close (right_of c (node black wl w wr) b p) (again x)) (
        items-resume p (λ y. erase_fixup y p) (λ y. items-erase_fixup y p)
          (round_right c (node black wl w wr) b x p)
        ∙ items-round_right c (node black wl w wr) b x p)

  items-fix_after :
      (c : Color) (x : Tree A) (p : Parents A)
      → items (fix_after c x p) ≡ before p (flat x (after p))
  items-fix_after red x p = items-plug x p
  items-fix_after black x p = items-erase_fixup x p

  -- The node that `rb_min` ends at, and what is after and before it.
  pub after-rb_min :
      (c : Color) (l : Tree A) (a : A) (r : Tree A) (p : Parents A)
      → (let y = rb_min c l a r p in y.item ∷ flat y.right (after y.above))
        ≡ flat l (a ∷ flat r (after p))
  unfolding rb_min
  after-rb_min c leaf a r p = refl
  after-rb_min c (node d ll b lr) a r p = after-rb_min d ll b lr (left_of c a r p)

  before-rb_min :
      (c : Color) (l : Tree A) (a : A) (r : Tree A) (p : Parents A) (k : List A)
      → before (rb_min c l a r p).above k ≡ before p k
  unfolding rb_min
  before-rb_min c leaf a r p k = refl
  before-rb_min c (node d ll b lr) a r p k = before-rb_min d ll b lr (left_of c a r p) k

  -- It is the same wherever the subtree hangs.
  item-rb_min :
      (c : Color) (l : Tree A) (a : A) (r : Tree A) (p q : Parents A)
      → (rb_min c l a r p).item ≡ (rb_min c l a r q).item
  unfolding rb_min
  item-rb_min c leaf a r p q = refl
  item-rb_min c (node d ll b lr) a r p q = item-rb_min d ll b lr _ _

  -- A removal leaves out one item.
  pub items-rb_erase :
      (z : Cursor A)
      → items (rb_erase z) ≡ before z.above (flat z.left (flat z.right (after z.above)))
  unfolding rb_erase
  items-rb_erase z = go z.left z.right
    where
      go :
          (l r : Tree A)
          → items (rb_erase (record z { left = l; right = r }))
            ≡ before z.above (flat l (flat r (after z.above)))
      go leaf r = items-fix_after z.color r z.above
      go (node lc ll la lr) leaf = items-fix_after z.color (node lc ll la lr) z.above
      go (node lc ll la lr) (node rc rl ra rr) =
          let least = (rb_min rc rl ra rr top).item in
          let up = right_of z.color (node lc ll la lr) least z.above in
          let y = rb_min rc rl ra rr up in
          items-fix_after y.color y.right y.above
          ∙ (before-rb_min rc rl ra rr up (flat y.right (after y.above))
              ∙ ap (λ k. before z.above (flat (node lc ll la lr) k))
                  (ap (λ a. a ∷ flat y.right (after y.above)) (item-rb_min rc rl ra rr top up)
                    ∙ after-rb_min rc rl ra rr up))
