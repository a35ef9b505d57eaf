-- ===== src/Rbtree/Balance/Erase.antt =====
-- kernel/lib/rbtree.c: the red-black conditions under `rb_erase`.
use jnu.Base.{ℕ, zero, suc, ◌≡◌, refl, sym, subst, Bool, true, false, if◌then◌else◌}
use jnu.Rbtree.{
  Color, red, black, Tree, leaf, node, Parents, top, left_of, right_of, Cursor, is_red, blacken,
  plug, rb_min,
}
use jnu.Rbtree.Erase.{
  Round, finished, again, round_left, round_right, close, resume, erase_fixup, fix_after, rb_erase,
}
use jnu.Rbtree.Balance.{
  IsRb, Balanced, under_red, IsHole, Fitting, unplug, and_false, is_red-blacken, plug-Balanced,
}
use jnu.Rbtree.Balance.Rounds.{Short, RoundOk, Apart, round_left-Ok, round_right-Ok, up}

module _ {ℓ} {A : Type ℓ} where
  Short-red : (x : Tree A) (h : ℕ) → is_red x ≡ true → Short x h → IsRb (blacken x) (suc h)
  Short-red leaf h e v = absurd (cc)
  Short-red (node red l a r) h e v = v
  Short-red (node black l a r) h e v = absurd (cc)

  Short-black : (x : Tree A) (h : ℕ) → is_red x ≡ false → Short x h → IsRb x h
  Short-black leaf h e v = v
  Short-black (node red l a r) h e v = absurd (cc)
  Short-black (node black l a r) h e v = v

  IsRb-Short : (x : Tree A) (h : ℕ) → IsRb x h → Short x h
  IsRb-Short leaf h v = v
  IsRb-Short (node red l a r) h v = (v.2, v.3)
  IsRb-Short (node black l a r) h v = v

  shut :
      (x : Tree A) (p : Parents A) (h : ℕ)
      → is_red x ≡ true
      → Short x h
      → IsHole p (suc h)
      → Balanced (plug (blacken x) p)
  shut x p h e v o =
      plug-Balanced (blacken x) p (suc h) (Short-red x h e v) o
        (rw (is_red-blacken x) (and_false (under_red p)))

  close-Balanced :
      (p : Parents A) (h : ℕ) (o : Round A)
      → IsHole p (suc h)
      → RoundOk red h o
      → Balanced (close p o)
  close-Balanced p h (finished t) w v = v
  close-Balanced p h (again y) w v = shut y p h v.1 v.0 w

  resume-Balanced :
      (c : Color) (h : ℕ) (f : Tree A → Tree A) (o : Round A)
      → ((y : Tree A) → Short y (up c h) → Balanced (f y))
      → RoundOk c h o
      → Balanced (resume f o)
  resume-Balanced c h f (finished t) g v = v
  resume-Balanced c h f (again y) g v = g y v.0

  IsHole-left :
      (c : Color) (b : A) (s : Tree A) (p : Parents A) (h : ℕ)
      → IsHole (left_of c b s p) (suc h)
      → IsRb s (suc h) × Apart c p × IsHole p (up c (suc h)) × IsHole p (suc (up c h))
  IsHole-left red b s p h o = (o.2, o.1, o.3, o.3)
  IsHole-left black b s p h o = (o.0, tt, o.1, o.1)

  IsHole-right :
      (c : Color) (s : Tree A) (b : A) (p : Parents A) (h : ℕ)
      → IsHole (right_of c s b p) (suc h)
      → IsRb s (suc h) × Apart c p × IsHole p (up c (suc h)) × IsHole p (suc (up c h))
  IsHole-right red s b p h o = (o.2, o.1, o.3, o.3)
  IsHole-right black s b p h o = (o.0, tt, o.1, o.1)

  Short-Balanced : (x : Tree A) (h : ℕ) → Short x h → Balanced (blacken x)
  Short-Balanced leaf h v = (h, v)
  Short-Balanced (node red l a r) h v = (suc h, v)
  Short-Balanced (node black l a r) h v = (h, v)

  Balanced-if :
      (b : Bool) (s t : Tree A)
      → (b ≡ true → Balanced s)
      → (b ≡ false → Balanced t)
      → Balanced (if b then s else t)
  Balanced-if true s t f g = f refl
  Balanced-if false s t f g = g refl

  -- A round with a black sibling, where `f` goes on from the parent.
  with_black_left :
      (f : Tree A → Tree A) (c : Color) (x : Tree A) (b : A) (s : Tree A) (p : Parents A) (h : ℕ)
      → is_red s ≡ false
      → ((y : Tree A) → Short y (up c h) → IsHole p (suc (up c h)) → Balanced (f y))
      → Short x h
      → IsHole (left_of c b s p) (suc h)
      → Balanced
          (if is_red x then plug (blacken x) (left_of c b s p) else resume f (round_left c x b s p))
  with_black_left f c x b s p h e g v o =
      let (u, q, w, w') = IsHole-left c b s p h o in
      Balanced-if (is_red x) _ _ (λ k. shut x (left_of c b s p) h k v o)
        (λ k.
          resume-Balanced c h f (round_left c x b s p) (λ y i. g y i w')
            (round_left-Ok c x b s p h (Short-black x h k v) e u q w))

  with_black_right :
      (f : Tree A → Tree A) (c : Color) (x : Tree A) (b : A) (s : Tree A) (p : Parents A) (h : ℕ)
      → is_red s ≡ false
      → ((y : Tree A) → Short y (up c h) → IsHole p (suc (up c h)) → Balanced (f y))
      → Short x h
      → IsHole (right_of c s b p) (suc h)
      → Balanced (
          if is_red x
          then plug (blacken x) (right_of c s b p)
          else resume f (round_right c s b x p))
  with_black_right f c x b s p h e g v o =
      let (u, q, w, w') = IsHole-right c s b p h o in
      Balanced-if (is_red x) _ _ (λ k. shut x (right_of c s b p) h k v o)
        (λ k.
          resume-Balanced c h f (round_right c s b x p) (λ y i. g y i w')
            (round_right-Ok c x b s p h (Short-black x h k v) e u q w))

  erase_fixup-Balanced :
      (x : Tree A) (p : Parents A) (h : ℕ)
      → Short x h
      → IsHole p (suc h)
      → Balanced (erase_fixup x p)
  unfolding erase_fixup
  erase_fixup-Balanced x top h v o = Short-Balanced x h v
  erase_fixup-Balanced x (left_of c b leaf p) h v o =
      with_black_left (λ y. erase_fixup y p) c x b leaf p h refl
        (λ y i w. erase_fixup-Balanced y p (up c h) i w) v o
  erase_fixup-Balanced x (left_of c b (node black wl w wr) p) h v o =
      with_black_left (λ y. erase_fixup y p) c x b (node black wl w wr) p h refl
        (λ y i w. erase_fixup-Balanced y p (up c h) i w) v o
  erase_fixup-Balanced x (left_of red b (node red wl w wr) p) h v o = absurd (cc)
  erase_fixup-Balanced x (left_of black b (node red wl w wr) p) h v ((e, f, u, z), o) =
      let above = left_of black w wr p in
      Balanced-if (is_red x) _ _
        (λ k. shut x (left_of black b (node red wl w wr) p) h k v ((e, f, u, z), o))
        (λ k.
          close-Balanced above h (round_left red x b wl above) (z, o)
            (round_left-Ok red x b wl above h (Short-black x h k v) e u refl (z, o)))
  erase_fixup-Balanced x (right_of c leaf b p) h v o =
      with_black_right (λ y. erase_fixup y p) c x b leaf p h refl
        (λ y i w. erase_fixup-Balanced y p (up c h) i w) v o
  erase_fixup-Balanced x (right_of c (node black wl w wr) b p) h v o =
      with_black_right (λ y. erase_fixup y p) c x b (node black wl w wr) p h refl
        (λ y i w. erase_fixup-Balanced y p (up c h) i w) v o
  erase_fixup-Balanced x (right_of red (node red wl w wr) b p) h v o = absurd (cc)
  erase_fixup-Balanced x (right_of black (node red wl w wr) b p) h v ((e, f, u, z), o) =
      let above = right_of black wl w p in
      Balanced-if (is_red x) _ _
        (λ k. shut x (right_of black (node red wl w wr) b p) h k v ((e, f, u, z), o))
        (λ k.
          close-Balanced above h (round_right red wr b x above) (u, o)
            (round_right-Ok red x b wr above h (Short-black x h k v) f z refl (u, o)))

  -- The child takes the place of a node that has no other.
  fix_left :
      (c : Color) (a : A) (r : Tree A) (p : Parents A)
      → Balanced (plug (node c leaf a r) p)
      → Balanced (fix_after c r p)
  fix_left c a r p v = go c (unplug (node c leaf a r) p v)
    where
      go : (c : Color) → Fitting (node c leaf a r) p → Balanced (fix_after c r p)
      go red (h, u, w, e) = plug-Balanced r p h u.3 w (rw u.1 (and_false (under_red p)))
      go black (zero, u, w, e) = absurd u
      go black (suc h, u, w, e) = erase_fixup-Balanced r p h (IsRb-Short r h u.1) w

  fix_right :
      (c : Color) (l : Tree A) (a : A) (p : Parents A)
      → Balanced (plug (node c l a leaf) p)
      → Balanced (fix_after c l p)
  fix_right c l a p v = go c (unplug (node c l a leaf) p v)
    where
      go : (c : Color) → Fitting (node c l a leaf) p → Balanced (fix_after c l p)
      go red (h, u, w, e) = plug-Balanced l p h u.2 w (rw u.0 (and_false (under_red p)))
      go black (zero, u, w, e) = absurd u
      go black (suc h, u, w, e) = erase_fixup-Balanced l p h (IsRb-Short l h u.0) w

  -- The conditions do not speak of the items.
  Balanced-item :
      (c : Color) (l : Tree A) (a b : A) (r : Tree A) (p : Parents A)
      → Balanced (plug (node c l a r) p)
      → Balanced (plug (node c l b r) p)
  Balanced-item c l a b r p v = go c (unplug (node c l a r) p v)
    where
      go : (c : Color) → Fitting (node c l a r) p → Balanced (plug (node c l b r) p)
      go red (h, u, w, e) = plug-Balanced (node red l b r) p h u w e
      go black (zero, u, w, e) = absurd u
      go black (suc h, u, w, e) = plug-Balanced (node black l b r) p (suc h) u w e

  plug-rb_min :
      (c : Color) (l : Tree A) (a : A) (r : Tree A) (p : Parents A)
      → (let y = rb_min c l a r p in plug (node y.color leaf y.item y.right) y.above)
        ≡ plug (node c l a r) p
  unfolding rb_min
  plug-rb_min c leaf a r p = refl
  plug-rb_min c (node d ll b lr) a r p = plug-rb_min d ll b lr (left_of c a r p)

  -- A removal from a red-black tree leaves one.
  pub rb_erase-Balanced :
      (z : Cursor A)
      → Balanced (plug (node z.color z.left z.item z.right) z.above)
      → Balanced (rb_erase z)
  unfolding rb_erase
  rb_erase-Balanced z v = go z.left z.right v
    where
      go :
          (l r : Tree A)
          → Balanced (plug (node z.color l z.item r) z.above)
          → Balanced (rb_erase (record z { left = l; right = r }))
      go leaf r v = fix_left z.color z.item r z.above v
      go (node lc ll la lr) leaf v = fix_right z.color (node lc ll la lr) z.item z.above v
      go (node lc ll la lr) (node rc rl ra rr) v =
          let l = node lc ll la lr in
          let r = node rc rl ra rr in
          let least = (rb_min rc rl ra rr top).item in
          let hung = right_of z.color l least z.above in
          let y = rb_min rc rl ra rr hung in
          let whole : Balanced (plug r hung) = Balanced-item z.color l z.item least r z.above v in
          fix_left y.color y.item y.right y.above
            (subst (λ t. Balanced t) (sym (plug-rb_min rc rl ra rr hung)) whole)
