-- ===== src/Rbtree/Balance.antt =====
-- kernel/lib/rbtree.c: the red-black conditions, of a tree and of a tree with a hole.
pub mod Insert
pub mod Rounds
pub mod Erase
pub mod Height
use jnu.Base.{ℕ, zero, suc, ◌≡◌, refl, Bool, true, false, ◌&&◌, arith}
use jnu.Rbtree.{
  Color, red, black, Tree, leaf, node, Parents, top, left_of, right_of, is_red, blacken, plug,
}

and_false : (b : Bool) → (b && false) ≡ false
and_false true = refl
and_false false = refl

and_true : (b : Bool) → (b && true) ≡ false → b ≡ false
and_true true h = h
and_true false h = refl

module _ {ℓ} {A : Type ℓ} where
  -- No red node has a red child, and every way down passes `h` black nodes.
  abbrev pub IsRb : Tree A → ℕ → Type 0
  IsRb leaf h = h ≡ 0
  IsRb (node red l a r) h = (is_red l ≡ false) × (is_red r ≡ false) × IsRb l h × IsRb r h
  IsRb (node black l a r) zero = ⊥
  IsRb (node black l a r) (suc h) = IsRb l h × IsRb r h

  abbrev pub Balanced : Tree A → Type 0
  Balanced t = (h : ℕ) × IsRb t h

  abbrev pub under_red : Parents A → Bool
  under_red top = false
  under_red (left_of red a r p) = true
  under_red (left_of black a r p) = false
  under_red (right_of red l a p) = true
  under_red (right_of black l a p) = false

  -- What a path leaves to be filled: a tree of black height `h`.
  abbrev pub IsHole : Parents A → ℕ → Type 0
  IsHole top h = Unit {0}
  IsHole (left_of red a r p) h = (is_red r ≡ false) × (under_red p ≡ false) × IsRb r h × IsHole p h
  IsHole (left_of black a r p) h = IsRb r h × IsHole p (suc h)
  IsHole (right_of red l a p) h = (is_red l ≡ false) × (under_red p ≡ false) × IsRb l h × IsHole p h
  IsHole (right_of black l a p) h = IsRb l h × IsHole p (suc h)

  pub plug-Balanced :
      (t : Tree A) (p : Parents A) (h : ℕ)
      → IsRb t h
      → IsHole p h
      → (under_red p && is_red t) ≡ false
      → Balanced (plug t p)
  plug-Balanced t top h v w e = (h, v)
  plug-Balanced t (left_of red a r p) h v w e =
      plug-Balanced (node red t a r) p h (e, w.0, v, w.2) w.3 (rw w.1 refl)
  plug-Balanced t (left_of black a r p) h v w e =
      plug-Balanced (node black t a r) p (suc h) (v, w.0) w.1 (and_false (under_red p))
  plug-Balanced t (right_of red l a p) h v w e =
      plug-Balanced (node red l a t) p h (w.0, e, w.2, v) w.3 (rw w.1 refl)
  plug-Balanced t (right_of black l a p) h v w e =
      plug-Balanced (node black l a t) p (suc h) (w.0, v) w.1 (and_false (under_red p))

  -- A subtree that meets the conditions, in a hole that does.
  abbrev pub Fitting : Tree A → Parents A → Type 0
  Fitting t p = (h : ℕ) × IsRb t h × IsHole p h × ((under_red p && is_red t) ≡ false)

  unplug_left :
      (t : Tree A) (a : A) (r : Tree A) (p : Parents A)
      → Fitting (node black t a r) p
      → Fitting t (left_of black a r p)
  unplug_left t a r p (zero, v, w, e) = absurd v
  unplug_left t a r p (suc h, v, w, e) = (h, v.0, (v.1, w), refl)

  unplug_right :
      (t : Tree A) (l : Tree A) (a : A) (p : Parents A)
      → Fitting (node black l a t) p
      → Fitting t (right_of black l a p)
  unplug_right t l a p (zero, v, w, e) = absurd v
  unplug_right t l a p (suc h, v, w, e) = (h, v.1, (v.0, w), refl)

  -- The conditions of the whole tree are those of a subtree and of the hole around it.
  pub unplug : (t : Tree A) (p : Parents A) → Balanced (plug t p) → Fitting t p
  unplug t top (h, v) = (h, v, tt, refl)
  unplug t (left_of red a r p) v =
      let (h, u, w, e) = unplug (node red t a r) p v in
      (h, u.2, (u.1, and_true (under_red p) e, u.3, w), u.0)
  unplug t (left_of black a r p) v = unplug_left t a r p (unplug (node black t a r) p v)
  unplug t (right_of red l a p) v =
      let (h, u, w, e) = unplug (node red l a t) p v in
      (h, u.3, (u.0, and_true (under_red p) e, u.2, w), u.1)
  unplug t (right_of black l a p) v = unplug_right t l a p (unplug (node black l a t) p v)

  pub is_red-blacken : (t : Tree A) → is_red (blacken t) ≡ false
  is_red-blacken leaf = refl
  is_red-blacken (node c l a r) = refl

  pub blacken-IsRb : (t : Tree A) (h : ℕ) → is_red t ≡ true → IsRb t h → IsRb (blacken t) (suc h)
  blacken-IsRb leaf h e v = cc
  blacken-IsRb (node red l a r) h e v = (v.2, v.3)
  blacken-IsRb (node black l a r) h e v = cc

  pub blacken-Balanced : (t : Tree A) → Balanced t → Balanced (blacken t)
  blacken-Balanced leaf v = v
  blacken-Balanced (node red l a r) (h, v) = (suc h, (v.2, v.3))
  blacken-Balanced (node black l a r) v = v

  pub blacken-plug-Balanced :
      (t : Tree A) (p : Parents A) (h : ℕ)
      → IsRb t h
      → IsHole p h
      → (under_red p && is_red t) ≡ false
      → Balanced (blacken (plug t p))
  blacken-plug-Balanced t p h v w e = blacken-Balanced (plug t p) (plug-Balanced t p h v w e)
