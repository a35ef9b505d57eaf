-- ===== src/Mm/Space/Protect/Flags.antt =====
-- kernel/mm/mmap.c: an area that gets new flags, in a valid tree.
use jnu.Base.{
  ℕ, zero, suc, ◌<◌, ◌≡◌, refl, sym, ap, ◌∙◌, subst, inl, inr, true, false, Option, none, some,
  List, [], ◌∷◌, leb, ltb, ◌==◌, ==_refl, eq_false_of, if◌then◌else◌, arith, Bool-cases,
  Option-cases,
}
use jnu.Rbtree.{red, black, Tree, leaf, node, is_red}
use jnu.Rbtree.Order.{flat, items}
use jnu.Rbtree.Balance.{IsRb}
use jnu.Mm.Vma.{Vma, VmaFlags, vma_find}
use jnu.Mm.Vma.Order.{Areas, Valid, holds}
use jnu.Mm.Vma.Split.{find-holds, holds-find}
use jnu.Mm.Space.Protect.{set_flags}

abbrev reset : ℕ → VmaFlags → Vma → Vma
reset s f v = if v.start == s then (record v { flags = f }) else v

abbrev reset_found : ℕ → VmaFlags → Option Vma → Option Vma
reset_found s f none = none
reset_found s f (some v) = some (reset s f v)

reset_place :
    (s : ℕ) (f : VmaFlags) (v : Vma) → ((reset s f v).start ≡ v.start) × ((reset s f v).end ≡ v.end)
reset_place s f v = elim (Bool-cases (v.start == s)) [
  | inl k ↦ rw k (refl, refl)
  | inr k ↦ rw k (refl, refl)
]

set_flags-find :
    (s : ℕ) (f : VmaFlags) (t : Tree Vma) (a : ℕ)
    → vma_find (set_flags s f t) a ≡ reset_found s f (vma_find t a)
unfolding set_flags vma_find
set_flags-find s f leaf a = refl
set_flags-find s f (node c l v r) a =
    let (from, to) = reset_place s f v in
    let left = set_flags-find s f l a in
    let right = set_flags-find s f r a in
    rw (from, to, left, right)
      (elim (Bool-cases (ltb a v.start)) [
        | inl k ↦ rw k refl
        | inr k ↦ elim (Bool-cases (leb v.end a)) [
          | inl n ↦ rw (k, n) refl
          | inr n ↦ rw (k, n) refl
        ]
      ])

abbrev resets : ℕ → VmaFlags → List Vma → List Vma
resets s f [] = []
resets s f (v ∷ vs) = reset s f v ∷ resets s f vs

flat-set_flags :
    (s : ℕ) (f : VmaFlags) (t : Tree Vma) (k : List Vma)
    → flat (set_flags s f t) (resets s f k) ≡ resets s f (flat t k)
unfolding set_flags
flat-set_flags s f leaf k = refl
flat-set_flags s f (node c l v r) k =
    ap (λ x. flat (set_flags s f l) (reset s f v ∷ x)) (flat-set_flags s f r k)
    ∙ flat-set_flags s f l (v ∷ flat r k)

resets-Areas :
    (s : ℕ) (f : VmaFlags) (lo : ℕ) (vs : List Vma) → Areas lo vs → Areas lo (resets s f vs)
resets-Areas s f lo [] h = tt
resets-Areas s f lo (v ∷ vs) (i, j, h) =
    let (from, to) = reset_place s f v in
    (
      omega (arith, i, from),
      omega (arith, j, from, to),
      subst (λ x. Areas x (resets s f vs)) (sym to) (resets-Areas s f v.end vs h),
    )

set_flags-IsRb : (s : ℕ) (f : VmaFlags) (t : Tree Vma) (h : ℕ) → IsRb t h → IsRb (set_flags s f t) h
unfolding set_flags
set_flags-IsRb s f leaf h e = e
set_flags-IsRb s f (node red l v r) h (a, b, x, y) =
    (colour l ∙ a, colour r ∙ b, set_flags-IsRb s f l h x, set_flags-IsRb s f r h y)
  where
    colour : (t : Tree Vma) → is_red (set_flags s f t) ≡ is_red t
    colour leaf = refl
    colour (node red l v r) = refl
    colour (node black l v r) = refl
set_flags-IsRb s f (node black l v r) zero e = e
set_flags-IsRb s f (node black l v r) (suc h) (x, y) =
    (set_flags-IsRb s f l h x, set_flags-IsRb s f r h y)

pub set_flags-Valid : (s : ℕ) (f : VmaFlags) {t : Tree Vma} → Valid t → Valid (set_flags s f t)
set_flags-Valid s f {t} good = record {
  ordered =
      subst (λ vs. Areas 0 vs) (sym (flat-set_flags s f t []))
        (resets-Areas s f 0 (items t) good.ordered);
  balanced = (good.balanced.0, set_flags-IsRb s f t good.balanced.0 good.balanced.1);
}

-- The addresses of the area find it with the new flags; the others find what they did.
pub set_flags-here :
    {t : Tree Vma} (v : Vma) (f : VmaFlags)
    → Valid t
    → v.start < v.end
    → vma_find t v.start ≡ some v
    → (a : ℕ)
    → vma_find (set_flags v.start f t) a
      ≡ (if holds v a then some (record v { flags = f }) else vma_find t a)
set_flags-here {t} v f good long found a =
    set_flags-find v.start f t a ∙ elim (Bool-cases (holds v a)) [
      | inl h ↦
          let here : vma_find t a ≡ some v = find-holds v.start a v good found h in
          rw (h, here, ==_refl v.start) refl
      | inr h ↦ elim (Option-cases (vma_find t a)) [
        | inl e ↦ rw (h, e) refl
        | inr (x, e) ↦
            let other : (x.start == v.start) ≡ false =
              eq_false_of (x.start == v.start) (λ same. apart x e h (ground (arith, same))) in
            rw (h, e, other) refl
      ]
    ]
  where
    area_or : Option Vma → Vma
    area_or none = v
    area_or (some x) = x

    clash : true ≡ false → ⊥
    clash c = cc

    apart : (x : Vma) → vma_find t a ≡ some x → holds v a ≡ false → x.start ≡ v.start → ⊥
    apart x e h same =
        let inside = holds-find a x good e in
        let begins : holds x x.start ≡ true = ground (arith, inside) in
        let one : x ≡ v =
          ap area_or
            (sym (find-holds a x.start x good e begins) ∙ (ap (λ b. vma_find t b) same ∙ found)) in
        clash (sym inside ∙ (ap (λ y. holds y a) one ∙ h))
