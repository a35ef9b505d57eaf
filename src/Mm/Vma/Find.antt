-- ===== src/Mm/Vma/Find.antt =====
-- kernel/mm/vma.c: the tree search against a search through the list of areas.
use jnu.Base.{
  ℕ, ◌≤◌, ◌<◌, ◌≡◌, refl, sym, ◌∙◌, subst, inl, inr, true, false, Option, none, some, List, [], ◌∷◌,
  leb, ltb, if◌then◌else◌, arith, Bool-cases, Option-cases,
}
use jnu.Rbtree.{Tree, leaf, node}
use jnu.Rbtree.Order.{flat, items}
use jnu.Mm.Vma.{Vma, vma_find}
use jnu.Mm.Vma.Order.{Areas, Within, Valid, holds, Within-le, Areas-flat, Within-flat, find_above}

abbrev pub find_in : List Vma → ℕ → Option Vma
find_in [] a = none
find_in (v ∷ vs) a = if holds v a then some v else find_in vs a

-- A new area in its place.
abbrev pub put : Vma → List Vma → List Vma
put v [] = v ∷ []
put v (w ∷ ws) = if leb v.end w.start then v ∷ w ∷ ws else w ∷ put v ws

abbrev or_else : Option Vma → Option Vma → Option Vma
or_else none y = y
or_else (some x) y = some x

pub find_in_below : (lo : ℕ) (vs : List Vma) (a : ℕ) → Areas lo vs → a < lo → find_in vs a ≡ none
find_in_below lo [] a v h = refl
find_in_below lo (w ∷ vs) a v h =
    let out : holds w a ≡ false = ground (arith, v.0) in
    rw out (find_in_below w.end vs a v.2 (omega (arith, v.0, v.1)))

find_in-flat :
    (lo : ℕ) (t : Tree Vma) (hi : ℕ) (k : List Vma) (a : ℕ)
    → Within lo t hi
    → Areas hi k
    → find_in (flat t k) a ≡ or_else (vma_find t a) (find_in k a)
unfolding vma_find
find_in-flat lo leaf hi k a v w = refl
find_in-flat lo (node c l b r) hi k a v w =
    let right : Areas b.end (flat r k) = Areas-flat b.end r hi k v.2 w in
    let inner = find_in-flat lo l b.start (b ∷ flat r k) a v.0 (omega arith, v.1, right) in
    let outer = find_in-flat b.end r hi k a v.2 w in
    elim (Bool-cases (ltb a b.start)) [
      | inl e ↦
          let out : holds b a ≡ false = ground (arith, e) in
          let beyond : find_in (flat r k) a ≡ none =
            find_in_below b.end (flat r k) a right (ground (arith, e, v.1)) in
          let beyond' : find_in k a ≡ none =
            find_in_below hi k a w (ground (arith, e, v.1, Within-le b.end r hi v.2)) in
          rw (e, beyond') (inner ∙ rw (out, beyond) refl)
      | inr e ↦
          let left : vma_find l a ≡ none = find_above lo l b.start a v.0 (ground (arith, e)) in
          elim (Bool-cases (leb b.end a)) [
            | inl p ↦
                let out : holds b a ≡ false = ground (arith, p) in
                rw (e, p) (inner ∙ rw (left, out) outer)
            | inr p ↦
                let here : holds b a ≡ true = ground (arith, e, p) in
                rw (e, p) (inner ∙ rw (left, here) refl)
          ]
    ]

pub vma_find-items : {t : Tree Vma} (a : ℕ) → Valid t → vma_find t a ≡ find_in (items t) a
vma_find-items {t} a v =
    let (hi, w, _) = Within-flat 0 t [] v.ordered in
    elim (Option-cases (vma_find t a)) [
      | inl e ↦ e ∙ sym (find_in-flat 0 t hi [] a w tt ∙ rw e refl)
      | inr (x, e) ↦ e ∙ sym (find_in-flat 0 t hi [] a w tt ∙ rw e refl)
    ]

-- What an area found says of the list, and of the other addresses that the area holds.
pub find_in-some :
    (lo : ℕ) (vs : List Vma) (a : ℕ) (v : Vma)
    → Areas lo vs
    → find_in vs a ≡ some v
    → (lo ≤ v.start) × (holds v a ≡ true) × ((b : ℕ) → holds v b ≡ true → find_in vs b ≡ some v)
find_in-some lo [] a v h e = cc
find_in-some lo (w ∷ vs) a v h e = elim (Bool-cases (holds w a)) [
  | inl k ↦
      let same : w ≡ v = ground (arith, e, k) in
      subst
        (λ (u : Vma).
          (lo ≤ u.start)
          × (holds u a ≡ true)
          × ((b : ℕ) → holds u b ≡ true → find_in (w ∷ vs) b ≡ some u))
        same (h.0, k, λ b i. rw i refl)
  | inr k ↦
      let (x, y, z) = find_in-some w.end vs a v h.2 (ground (arith, e, k)) in
      (
        omega (arith, x, h.0, h.1),
        y,
        λ b i. let out : holds w b ≡ false = ground (arith, i, x) in rw out (z b i),
      )
]

-- What is found behind an area is found with it in front.
pub find_in-behind :
    (lo : ℕ) (v : Vma) (vs : List Vma) (a : ℕ) (w : Vma)
    → Areas lo (v ∷ vs)
    → find_in vs a ≡ some w
    → find_in (v ∷ vs) a ≡ some w
find_in-behind lo v vs a w h e =
    let (low, i, _) = find_in-some v.end vs a w h.2 e in
    let out : holds v a ≡ false = ground (arith, low, i) in rw out e
