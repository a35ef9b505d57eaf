-- ===== src/Rbtree/Balance/Rounds.antt =====
-- kernel/lib/rbtree.c: one round of `erase_fixup` and the red-black conditions.
use jnu.Base.{ℕ, suc, ◌≡◌, refl, inl, inr, true, false, Bool-cases}
use jnu.Rbtree.{Color, red, black, Tree, leaf, node, Parents, is_red, blacken, plug}
use jnu.Rbtree.Erase.{
  Round, finished, again, turn_right, turn_left, rotate_last_left, rotate_last_right, round_left,
  round_right,
}
use jnu.Rbtree.Balance.{
  IsRb, Balanced, under_red, IsHole, and_false, is_red-blacken, blacken-IsRb, blacken-plug-Balanced,
}

-- The height of a node of a colour whose children have height `h`.
abbrev pub up : Color → ℕ → ℕ
up red h = h
up black h = suc h

module _ {ℓ} {A : Type ℓ} where
  -- One black node short of `suc h`, or red at the top and right once that is black.
  abbrev pub Short : Tree A → ℕ → Type 0
  Short leaf h = h ≡ 0
  Short (node red l a r) h = IsRb l h × IsRb r h
  Short (node black l a r) h = IsRb (node black l a r) h

  abbrev Colored : Color → Tree A → Type 0
  Colored red y = is_red y ≡ true
  Colored black y = Unit {0}

  abbrev pub RoundOk : Color → ℕ → Round A → Type 0
  RoundOk c h (finished t) = Balanced t
  RoundOk c h (again y) = Short y (up c h) × Colored c y

  -- A red node stands under a black one.
  abbrev pub Apart : Color → Parents A → Type 0
  Apart red p = under_red p ≡ false
  Apart black p = Unit {0}

  node-IsRb :
      (c : Color) (l : Tree A) (a : A) (r : Tree A) (h : ℕ)
      → is_red l ≡ false
      → is_red r ≡ false
      → IsRb l h
      → IsRb r h
      → IsRb (node c l a r) (up c h)
  node-IsRb red l a r h e f v w = (e, f, v, w)
  node-IsRb black l a r h e f v w = (v, w)

  node_plug-Balanced :
      (c : Color) (l : Tree A) (a : A) (r : Tree A) (p : Parents A) (h : ℕ)
      → is_red l ≡ false
      → is_red r ≡ false
      → IsRb l h
      → IsRb r h
      → Apart c p
      → IsHole p (up c h)
      → Balanced (blacken (plug (node c l a r) p))
  node_plug-Balanced red l a r p h e f v w q o =
      blacken-plug-Balanced (node red l a r) p h (e, f, v, w) o (rw q refl)
  node_plug-Balanced black l a r p h e f v w q o =
      blacken-plug-Balanced (node black l a r) p (suc h) (v, w) o (and_false (under_red p))

  again-Short :
      (c : Color) (x : Tree A) (b : A) (wl : Tree A) (w : A) (wr : Tree A) (h : ℕ)
      → IsRb x h
      → is_red wl ≡ false
      → is_red wr ≡ false
      → IsRb wl h
      → IsRb wr h
      → RoundOk c h (again (node c x b (node red wl w wr)))
        × RoundOk c h (again (node c (node red wl w wr) b x))
  again-Short red x b wl w wr h u e f v o = (((u, (e, f, v, o)), refl), (((e, f, v, o), u), refl))
  again-Short black x b wl w wr h u e f v o = (((u, (e, f, v, o)), tt), (((e, f, v, o), u), tt))

  rotate_last_left-Balanced :
      (c : Color) (x : Tree A) (b : A) (d : Color) (wl : Tree A) (w : A) (wr : Tree A)
      (p : Parents A)
      → (h : ℕ) → IsRb x h
      → IsRb wl h
      → is_red wr ≡ true
      → IsRb wr h
      → Apart c p
      → IsHole p (up c (suc h))
      → Balanced (rotate_last_left c x b (node d wl w wr) p)
  unfolding rotate_last_left
  rotate_last_left-Balanced c x b d wl w wr p h v u e o =
      node_plug-Balanced c (node black x b wl) w (blacken wr) p (suc h) refl (is_red-blacken wr)
        (v, u) (blacken-IsRb wr h e o)

  turned_left-Balanced :
      (c : Color) (x : Tree A) (b : A) (wl : Tree A) (w : A) (wr : Tree A) (p : Parents A) (h : ℕ)
      → IsRb x h
      → is_red wl ≡ true
      → IsRb wl h
      → is_red wr ≡ false
      → IsRb wr h
      → Apart c p
      → IsHole p (up c (suc h))
      → Balanced (rotate_last_left c x b (turn_right wl w wr) p)
  unfolding turn_right rotate_last_left
  turned_left-Balanced c x b leaf w wr p h v e u f o = absurd (cc)
  turned_left-Balanced c x b (node black ll lb lr) w wr p h v e u f o = absurd (cc)
  turned_left-Balanced c x b (node red ll lb lr) w wr p h v e u f o =
      node_plug-Balanced c (node black x b ll) lb (node black lr w wr) p (suc h) refl refl (v, u.2)
        (u.3, o)

  pub round_left-Ok :
      (c : Color) (x : Tree A) (b : A) (w : Tree A) (p : Parents A) (h : ℕ)
      → IsRb x h
      → is_red w ≡ false
      → IsRb w (suc h)
      → Apart c p
      → IsHole p (up c (suc h))
      → RoundOk c h (round_left c x b w p)
  unfolding round_left
  round_left-Ok c x b leaf p h v e u q o = absurd (cc)
  round_left-Ok c x b (node red wl w wr) p h v e u q o = absurd (cc)
  round_left-Ok c x b (node black wl w wr) p h v e (u, z) q o = elim (Bool-cases (is_red wl)) [
    | inl k ↦ elim (Bool-cases (is_red wr)) [
      | inl j ↦ rw (k, j) (rotate_last_left-Balanced c x b black wl w wr p h v u j z q o)
      | inr j ↦ rw (k, j) (turned_left-Balanced c x b wl w wr p h v k u j z q o)
    ]
    | inr k ↦ elim (Bool-cases (is_red wr)) [
      | inl j ↦ rw (k, j) (rotate_last_left-Balanced c x b black wl w wr p h v u j z q o)
      | inr j ↦ rw (k, j) (again-Short c x b wl w wr h v k j u z).0
    ]
  ]

  rotate_last_right-Balanced :
      (c : Color) (x : Tree A) (b : A) (d : Color) (wl : Tree A) (w : A) (wr : Tree A)
      (p : Parents A)
      → (h : ℕ) → IsRb x h
      → IsRb wr h
      → is_red wl ≡ true
      → IsRb wl h
      → Apart c p
      → IsHole p (up c (suc h))
      → Balanced (rotate_last_right c (node d wl w wr) b x p)
  unfolding rotate_last_right
  rotate_last_right-Balanced c x b d wl w wr p h v u e o =
      node_plug-Balanced c (blacken wl) w (node black wr b x) p (suc h) (is_red-blacken wl) refl
        (blacken-IsRb wl h e o) (u, v)

  turned_right-Balanced :
      (c : Color) (x : Tree A) (b : A) (wl : Tree A) (w : A) (wr : Tree A) (p : Parents A) (h : ℕ)
      → IsRb x h
      → is_red wr ≡ true
      → IsRb wr h
      → is_red wl ≡ false
      → IsRb wl h
      → Apart c p
      → IsHole p (up c (suc h))
      → Balanced (rotate_last_right c (turn_left wl w wr) b x p)
  unfolding turn_left rotate_last_right
  turned_right-Balanced c x b wl w leaf p h v e u f o = absurd (cc)
  turned_right-Balanced c x b wl w (node black ll lb lr) p h v e u f o = absurd (cc)
  turned_right-Balanced c x b wl w (node red rl rb rr) p h v e u f o =
      node_plug-Balanced c (node black wl w rl) rb (node black rr b x) p (suc h) refl refl (o, u.2)
        (u.3, v)

  pub round_right-Ok :
      (c : Color) (x : Tree A) (b : A) (w : Tree A) (p : Parents A) (h : ℕ)
      → IsRb x h
      → is_red w ≡ false
      → IsRb w (suc h)
      → Apart c p
      → IsHole p (up c (suc h))
      → RoundOk c h (round_right c w b x p)
  unfolding round_right
  round_right-Ok c x b leaf p h v e u q o = absurd (cc)
  round_right-Ok c x b (node red wl w wr) p h v e u q o = absurd (cc)
  round_right-Ok c x b (node black wl w wr) p h v e (u, z) q o = elim (Bool-cases (is_red wl)) [
    | inl k ↦ rw k (rotate_last_right-Balanced c x b black wl w wr p h v z k u q o)
    | inr k ↦ elim (Bool-cases (is_red wr)) [
      | inl j ↦ rw (k, j) (turned_right-Balanced c x b wl w wr p h v j z k u q o)
      | inr j ↦ rw (k, j) (again-Short c x b wl w wr h v k j u z).1
    ]
  ]
