-- ===== src/Mm/Space/Clone/Areas.antt =====
-- kernel/mm/clone_space.c: the areas of a copy, one after the other.
use jnu.Base.{
  ℕ, ◌+◌, ◌-◌, ◌*◌, ◌/◌, ◌≤◌, ◌<◌, ◌≡◌, refl, sym, ap, ◌∙◌, inl, inr, Bool, false, ◌||◌, Option,
  none, some, List, [], ◌∷◌, ◌++◌, if◌then◌else◌, Result, ok, err, Errno, enomem, arith, Bool-cases,
  either_assoc, either_false,
}
use mathlib.Core.List.{append-nil, append_assoc}
use jnu.Rbtree.{Tree}
use jnu.Mm.Vma.{Vma, vma_find, vma_insert}
use jnu.Mm.Vma.Order.{Areas, Valid, holds}
use jnu.Mm.Vma.Find.{find_in, find_in_below}
use jnu.Mm.Vma.Change.{added, overlaps, vma_insert-Insertion}
use jnu.Mm.Vma.Split.{Whole}
use jnu.Arch.Paging.{Pml4}
use jnu.Arch.Paging.Range.{in_pages}
use jnu.Mm.Space.Clone.{Cloning, clone_pages, clone_one_vma, clone_areas}
use jnu.Mm.Space.Clone.Shared.{Copied, Stripped, Copied-Stripped, went, stopped}
use jnu.Mm.Space.Clone.Pages.{Copied-same, gets_in, clone_pages-Step}

abbrev pub EachWhole : List Vma → Type 0
EachWhole [] = Unit {0}
EachWhole (v ∷ vs) = Whole v × EachWhole vs

abbrev pub covers : List Vma → ℕ → Bool
covers [] w = false
covers (v ∷ vs) w = holds v w || covers vs w

abbrev pub or_else : Option Vma → Option Vma → Option Vma
or_else none y = y
or_else (some x) y = some x

-- The references that the pages of areas take, in order.
abbrev pub gets_over : ℕ → Pml4 → List Vma → List ℕ
gets_over z m [] = []
gets_over z m (v ∷ vs) = gets_in z m v.start ((v.end - v.start + 4095) / 4096) ++ gets_over z m vs

abbrev with_areas : (ℕ → Bool) → List Vma → ℕ → Bool
with_areas done vs w = done w || covers vs w

-- The areas `vs` are added to those there were, or there was an error.
pub data Adding (m : Pml4) (done : ℕ → Bool) (vs : List Vma) (s : Tree Vma × Cloning)
    (gets : List ℕ) (r : (Tree Vma × Cloning) × Result (Unit {0})) : Type 0 where
  all_added :
      r.1 ≡ ok tt
      → Valid r.0.0
      → ((a : ℕ) → vma_find r.0.0 a ≡ or_else (find_in vs a) (vma_find s.0 a))
      → Copied m (with_areas done vs) r.0.1
      → r.0.1.gets ≡ s.1.gets ++ gets
      → Adding m done vs s gets r
  cut_short : (x : Errno) → r.1 ≡ err x → Stripped m r.0.1.source → Adding m done vs s gets r

-- The pages of an area of whole pages are its addresses.
pub area_pages :
    (v : Vma) (w : ℕ)
    → Whole v
    → v.start < v.end
    → in_pages v.start ((v.end - v.start + 4095) / 4096) w ≡ holds v w
area_pages v w (p, q, r) h =
    let last : v.start + 4096 * ((v.end - v.start + 4095) / 4096) ≡ v.end =
      omega (arith, p, q, h) in
    rw last refl

one_more :
    (v : Vma) (vs : List Vma) (a : ℕ) (o : Option Vma)
    → Areas v.end vs
    → or_else (find_in vs a) (if holds v a then some v else o) ≡ or_else (find_in (v ∷ vs) a) o
one_more v vs a o sorted = elim (Bool-cases (holds v a)) [
  | inl i ↦
      let beyond : find_in vs a ≡ none = find_in_below v.end vs a sorted (ground (arith, i)) in
      rw (i, beyond) refl
  | inr i ↦ rw i refl
]

pub none-some : {v : Vma} → none ≡ some v → ⊥
none-some e = cc

pub past :
    (v : Vma) (a : ℕ) {o : Option Vma}
    → v.end ≤ a
    → o ≡ none
    → (if holds v a then some v else o) ≡ none
past v a n e = let out : holds v a ≡ false = ground (arith, n) in rw out e

pub clone_areas-Adding :
    (z : ℕ) (memory : Vma → Bool) {m : Pml4} (lo : ℕ) (vs : List Vma) {done : ℕ → Bool}
    (t : Tree Vma) (st : Cloning)
    → Areas lo vs
    → EachWhole vs
    → Valid t
    → ((a : ℕ) → lo ≤ a → vma_find t a ≡ none)
    → Copied m done st
    → Adding m done vs (t, st) (gets_over z m vs) (clone_areas z memory (t, st) vs)
unfolding clone_areas clone_one_vma
clone_areas-Adding z memory {m} lo [] {done} t st sorted each good above c =
    all_added refl good (λ a. refl) (Copied-same (λ w. either_false (done w)) c)
      (sym (append-nil st.gets))
clone_areas-Adding z memory {m} lo (v ∷ vs) {done} t st (i, j, sorted) (whole, each) good above c =
    elim (Bool-cases (memory v)) [
      | inr known ↦
          rw (known, clone_areas, clone_one_vma) (cut_short enomem refl (Copied-Stripped c))
      | inl known ↦ elim (vma_insert-Insertion v good j) [
        | overlaps a x e h f ↦ absurd (none-some (sym (above a (ground (arith, i, h))) ∙ f))
        | added e good1 finds _ ↦
            elim (clone_pages-Step z v.start ((v.end - v.start + 4095) / 4096) whole.0
              (omega (arith, whole, j)) c) [
                | stopped x f s ↦ rw (known, e, f, clone_areas, clone_one_vma) (cut_short x refl s)
                | went f c1 g ↦
                    let k = (v.end - v.start + 4095) / 4096 in
                    let t1 = (vma_insert t v).0 in
                    let st1 = (clone_pages z st v.start k).0 in
                    let above1 : (a : ℕ) → v.end ≤ a → vma_find t1 a ≡ none =
                      λ a n. finds a ∙ past v a n (above a (omega (arith, i, j, n))) in
                    elim (clone_areas-Adding z memory v.end vs t1 st1 sorted each good1 above1 c1) [
                      | cut_short x f' s ↦
                          rw (known, e, f, clone_areas, clone_one_vma) (cut_short x f' s)
                      | all_added f' good2 finds2 c2 g2 ↦
                          rw (known, e, f, clone_areas, clone_one_vma)
                            (all_added f' good2
                              (λ a.
                                finds2 a
                                ∙ (ap (λ o. or_else (find_in vs a) o) (finds a)
                                    ∙ one_more v vs a (vma_find t a) sorted))
                              (Copied-same
                                (λ w.
                                  ap (λ b. done w || (b || covers vs w))
                                    (sym (area_pages v w whole j))
                                  ∙ either_assoc (done w) (in_pages v.start k w) (covers vs w))
                                c2)
                              (g2
                                ∙ (ap (λ xs. xs ++ gets_over z m vs) g
                                    ∙ append_assoc st.gets (gets_in z m v.start k)
                                        (gets_over z m vs))))
                    ]
              ]
      ]
    ]
