-- ===== src/Mm/Vma/Put.antt =====
-- kernel/mm/vma.c: an area put into its place in the list, and one that leaves the list.
use jnu.Base.{
  ℕ, ◌≤◌, ◌<◌, ◌≡◌, refl, sym, ap, ◌∙◌, subst, inl, inr, true, false, none, some, List, [], ◌∷◌,
  ◌++◌, leb, ltb, if◌then◌else◌, arith, Bool-cases,
}
use jnu.Rbtree.{Tree, leaf, node, Parents, left_of, right_of, plug}
use jnu.Rbtree.Order.{flat, before, after}
use jnu.Mm.Vma.{Vma, vma_find, seat}
use jnu.Mm.Vma.Order.{Areas, Within, holds, Areas-lower, Within-le, Areas-flat}
use jnu.Mm.Vma.Find.{find_in, find_in_below, put}

put_front : (v : Vma) (hi : ℕ) (k : List Vma) → v.end ≤ hi → Areas hi k → put v k ≡ v ∷ k
put_front v hi [] h w = refl
put_front v hi (x ∷ k) h w =
    let first : leb v.end x.start ≡ true = ground (arith, h, w.0) in rw first refl

put-past :
    (v : Vma) (lo : ℕ) (t : Tree Vma) (hi : ℕ) (k : List Vma)
    → Within lo t hi
    → hi ≤ v.start
    → v.start < v.end
    → put v (flat t k) ≡ flat t (put v k)
put-past v lo leaf hi k w h i = refl
put-past v lo (node c l b r) hi k w h i =
    let inside = Within-le b.end r hi w.2 in
    let behind : leb v.end b.start ≡ false = ground (arith, inside, h, i, w.1) in
    put-past v lo l b.start (b ∷ flat r k) w.0 (omega (arith, inside, w.1)) i
    ∙ rw behind (ap (λ x. flat l (b ∷ x)) (put-past v b.end r hi k w.2 h i))

pub seat-put :
    (v : Vma) (lo : ℕ) (t : Tree Vma) (hi : ℕ) (p q : Parents Vma)
    → Within lo t hi
    → Areas hi (after p)
    → lo ≤ v.start
    → v.start < v.end
    → v.end ≤ hi
    → seat v t p ≡ some q
    → (before q (v ∷ after q) ≡ before p (put v (flat t (after p))))
      × Areas lo (put v (flat t (after p)))
      × (plug leaf q ≡ plug t p)
unfolding seat
seat-put v lo leaf hi p q w o h i j e =
    let same : p ≡ q = ground (arith, e) in
    let front = put_front v hi (after p) j o in
    subst
      (λ x.
        (before x (v ∷ after x) ≡ before p (put v (after p)))
        × Areas lo (put v (after p))
        × (plug leaf x ≡ plug leaf p))
      same
      (
        ap (λ x. before p x) (sym front),
        subst (λ x. Areas lo x) (sym front) (h, i, Areas-lower hi v.end (after p) j o),
        refl,
      )
seat-put v lo (node c l b r) hi p q w o h i j e = elim (Bool-cases (leb v.end b.start)) [
  | inl k ↦
      seat-put v lo l b.start (left_of c b r p) q w.0
        (omega arith, w.1, Areas-flat b.end r hi (after p) w.2 o) h i (ground (arith, k))
        (ground (arith, e, k))
  | inr k ↦ elim (Bool-cases (leb b.end v.start)) [
    | inl n ↦
        let (go, sorted, whole) =
          seat-put v b.end r hi (right_of c l b p) q w.2 o (ground (arith, n)) i j
            (ground (arith, e, k, n)) in
        let past : put v (flat l (b ∷ flat r (after p))) ≡ flat l (b ∷ put v (flat r (after p))) =
          put-past v lo l b.start (b ∷ flat r (after p)) w.0 (ground (arith, n, w.1)) i
          ∙ rw k refl in
        (
          go ∙ ap (λ x. before p x) (sym past),
          subst (λ x. Areas lo x) (sym past)
              (Areas-flat lo l b.start (b ∷ put v (flat r (after p))) w.0
                (omega arith, w.1, sorted)),
          whole,
        )
    | inr n ↦ absurd (ground (arith, e, k, n))
  ]
]

-- Where there is no place, an area has an address of the new one.
pub seat-none :
    (v : Vma) (lo : ℕ) (t : Tree Vma) (hi : ℕ) (p : Parents Vma)
    → Within lo t hi
    → v.start < v.end
    → seat v t p ≡ none
    → (a : ℕ) × (w : Vma) × (holds v a ≡ true) × (vma_find t a ≡ some w)
unfolding seat vma_find
seat-none v lo leaf hi p w i e = cc
seat-none v lo (node c l b r) hi p w i e = elim (Bool-cases (leb v.end b.start)) [
  | inl k ↦
      let (a, x, h, f) = seat-none v lo l b.start (left_of c b r p) w.0 i (ground (arith, e, k)) in
      let low : ltb a b.start ≡ true = ground (arith, h, k) in (a, x, h, rw low f)
  | inr k ↦ elim (Bool-cases (leb b.end v.start)) [
    | inl n ↦
        let (a, x, h, f) =
          seat-none v b.end r hi (right_of c l b p) w.2 i (ground (arith, e, k, n)) in
        let high : ltb a b.start ≡ false = ground (arith, h, n, w.1) in
        let past : leb b.end a ≡ true = ground (arith, h, n) in (a, x, h, rw (high, past) f)
    | inr n ↦ elim (Bool-cases (leb v.start b.start)) [
      | inl m ↦
          let low : ltb b.start b.start ≡ false = ground arith in
          let high : leb b.end b.start ≡ false = ground (arith, w.1) in
          (b.start, b, ground (arith, m, k), rw (low, high) refl)
      | inr m ↦
          let low : ltb v.start b.start ≡ false = ground (arith, m) in
          (v.start, b, ground (arith, i), rw (low, n) refl)
    ]
  ]
]

lo-put : (lo : ℕ) (v : Vma) (ws : List Vma) → Areas lo (put v ws) → lo ≤ v.start
lo-put lo v [] h = h.0
lo-put lo v (w ∷ ws) h = elim (Bool-cases (leb v.end w.start)) [
  | inl e ↦ (subst (λ b. Areas lo (if b then v ∷ w ∷ ws else w ∷ put v ws)) e h).0
  | inr e ↦
      let rest = subst (λ b. Areas lo (if b then v ∷ w ∷ ws else w ∷ put v ws)) e h in
      omega (arith, rest.0, rest.1, lo-put w.end v ws rest.2)
]

pub find_in-put :
    (lo : ℕ) (v : Vma) (ws : List Vma) (a : ℕ)
    → Areas lo (put v ws)
    → find_in (put v ws) a ≡ (if holds v a then some v else find_in ws a)
find_in-put lo v [] a h = refl
find_in-put lo v (w ∷ ws) a h = elim (Bool-cases (leb v.end w.start)) [
  | inl e ↦ rw e refl
  | inr e ↦
      let rest = subst (λ b. Areas lo (if b then v ∷ w ∷ ws else w ∷ put v ws)) e h in
      let behind = lo-put w.end v ws rest.2 in
      rw e (elim (Bool-cases (holds w a)) [
        | inl k ↦ let out : holds v a ≡ false = ground (arith, k, behind) in rw (k, out) refl
        | inr k ↦ rw k (find_in-put w.end v ws a rest.2)
      ])
]

pub find_in_clear :
    (lo : ℕ) (v : Vma) (ws : List Vma) (a : ℕ)
    → Areas lo (put v ws)
    → holds v a ≡ true
    → find_in ws a ≡ none
find_in_clear lo v [] a h i = refl
find_in_clear lo v (w ∷ ws) a h i = elim (Bool-cases (leb v.end w.start)) [
  | inl e ↦
      let rest = subst (λ b. Areas lo (if b then v ∷ w ∷ ws else w ∷ put v ws)) e h in
      find_in_below v.end (w ∷ ws) a rest.2 (ground (arith, i))
  | inr e ↦
      let rest = subst (λ b. Areas lo (if b then v ∷ w ∷ ws else w ∷ put v ws)) e h in
      let behind = lo-put w.end v ws rest.2 in
      let out : holds w a ≡ false = ground (arith, i, behind) in
      rw out (find_in_clear w.end v ws a rest.2 i)
]

lo_mid : (lo : ℕ) (zs : List Vma) (v : Vma) (ws : List Vma) → Areas lo (zs ++ v ∷ ws) → lo ≤ v.start
lo_mid lo [] v ws h = h.0
lo_mid lo (z ∷ zs) v ws h = omega (arith, h.0, h.1, lo_mid z.end zs v ws h.2)

-- An area that leaves the list.
pub Areas-drop :
    (lo : ℕ) (zs : List Vma) (v : Vma) (ws : List Vma)
    → Areas lo (zs ++ v ∷ ws)
    → Areas lo (zs ++ ws)
Areas-drop lo [] v ws h = Areas-lower v.end lo ws (omega (arith, h.0, h.1)) h.2
Areas-drop lo (z ∷ zs) v ws h = (h.0, h.1, Areas-drop z.end zs v ws h.2)

pub find_in-drop :
    (lo : ℕ) (zs : List Vma) (v : Vma) (ws : List Vma) (a : ℕ)
    → Areas lo (zs ++ v ∷ ws)
    → find_in (zs ++ ws) a ≡ (if holds v a then none else find_in (zs ++ v ∷ ws) a)
find_in-drop lo [] v ws a h = elim (Bool-cases (holds v a)) [
  | inl e ↦ rw e (find_in_below v.end ws a h.2 (ground (arith, e)))
  | inr e ↦ rw e refl
]
find_in-drop lo (z ∷ zs) v ws a h = elim (Bool-cases (holds z a)) [
  | inl e ↦
      let behind = lo_mid z.end zs v ws h.2 in
      let out : holds v a ≡ false = ground (arith, e, behind) in rw (e, out) refl
  | inr e ↦ rw e (find_in-drop z.end zs v ws a h.2)
]
