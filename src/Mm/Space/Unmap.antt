-- ===== src/Mm/Space/Unmap.antt =====
-- kernel/mm/mmap.c and kernel/mm/vma.c: the page tables once a range is taken out.
use jnu.Base.{
  ℕ, ◌+◌, ◌-◌, ◌*◌, ◌/◌, ◌^◌, ◌≤◌, ◌<◌, ◌≡◌, ◌≢◌, refl, sym, ap, ◌∙◌, ◌⊎◌, inl, inr, Bool, true,
  false, ◌&&◌, Option, none, some, List, [], ◌∷◌, leb, ltb, if◌then◌else◌, Result, ok, err, Errno,
  einval, arith, Bool-cases, Option-cases, Result-cases,
}
use jnu.Rbtree.{Tree}
use jnu.Mm.Vma.{Vma, VmaFlags, vma_find, vma_remove_range, split_ends, walk_from}
use jnu.Mm.Vma.Order.{Areas, Valid, holds}
use jnu.Mm.Vma.Find.{find_in, find_in-behind, find_in_below}
use jnu.Mm.Vma.Split.{flags_at, flags_of, Cut, Whole, AllWhole}
use jnu.Mm.Vma.Walks.{walk_from-Walk}
use jnu.Mm.Vma.Range.{in_range}
use jnu.Mm.Vma.Edges.{split_ends-Ends}
use jnu.Arch.Paging.{Pte, Pml4, paging_unmap}
use jnu.Arch.Paging.Entry.{entry_at}
use jnu.Arch.Paging.Range.{in_pages, paging_unmap-entry}
use jnu.Mm.Space.{Space, Memory, unmap_within, remove_range}

-- Areas of whole pages that lie within the range or beside it.
abbrev pub Beside : ℕ → ℕ → Vma → Type 0
Beside s e v = Whole v × ((v.end ≤ s) ⊎ (s ≤ v.start)) × ((v.end ≤ e) ⊎ (e ≤ v.start))

abbrev pub AllBeside : ℕ → ℕ → List Vma → Type 0
AllBeside s e [] = Unit {0}
AllBeside s e (v ∷ vs) = Beside s e v × AllBeside s e vs

-- The areas of a walk are areas of the tree.
pub all_beside :
    (t : Tree Vma) (s e lo : ℕ) (vs : List Vma)
    → Cut t s
    → Cut t e
    → AllWhole t
    → Areas lo vs
    → ((a : ℕ) (v : Vma) → find_in vs a ≡ some v → vma_find t a ≡ some v)
    → AllBeside s e vs
all_beside t s e lo [] cs ce all h each = tt
all_beside t s e lo (v ∷ vs) cs ce all h each =
    let self : holds v v.start ≡ true = ground (arith, h.1) in
    let found = each v.start v (rw self refl) in
    (
      (all v.start v found, side s (cs v.start v found), side e (ce v.start v found)),
      all_beside t s e v.end vs cs ce all h.2 λ a w f. each a w (find_in-behind lo v vs a w h f),
    )
  where
    side : (b : ℕ) → (v.start < b → b < v.end → ⊥) → (v.end ≤ b) ⊎ (b ≤ v.start)
    side b apart = elim (Bool-cases (leb v.end b)) [
      | inl i ↦ inl (ground (arith, i))
      | inr i ↦ elim (Bool-cases (leb b v.start)) [
        | inl j ↦ inr (ground (arith, j))
        | inr j ↦ absurd (apart (ground (arith, j)) (ground (arith, i)))
      ]
    ]

area_pages :
    (v : Vma) (w : ℕ)
    → Whole v
    → v.start < v.end
    → in_pages v.start ((v.end - v.start) / 4096) w ≡ holds v w
area_pages v w (x, y, z) h =
    let all : v.start + 4096 * ((v.end - v.start) / 4096) ≡ v.end = omega (arith, x, y, h) in
    rw all refl

abbrev pub is_found : Option Vma → Bool
is_found none = false
is_found (some v) = true

unmap_within-entry :
    (z : ℕ) (m : Pml4) (s e lo : ℕ) (vs : List Vma) (w : ℕ)
    → AllBeside s e vs
    → Areas lo vs
    → w < 2 ^ 48
    → entry_at (unmap_within z m s e vs).0 w
      ≡ (if in_range s e w && is_found (find_in vs w) then none else entry_at m w)
unfolding unmap_within
unmap_within-entry z m s e lo [] w b h j = elim (Bool-cases (in_range s e w)) [
  | inl i ↦ rw i refl
  | inr i ↦ rw i refl
]
unmap_within-entry z m s e lo (v ∷ vs) w b h j = elim (Bool-cases (ltb v.start e)) [
  | inr k ↦
      rw (k, unmap_within)
        (elim (Bool-cases (in_range s e w)) [
          | inr i ↦ rw i refl
          | inl i ↦
              let gone : find_in (v ∷ vs) w ≡ none =
                find_in_below v.start (v ∷ vs) w (omega arith, h.1, h.2) (ground (arith, i, k)) in
              rw (i, gone) refl
        ])
  | inl k ↦ elim (Bool-cases (leb s v.start && leb v.end e)) [
    | inl i ↦
        let (pages, rest) = b in
        let (x, y, z') = pages.0 in
        let n = (v.end - v.start) / 4096 in
        let m1 = (paging_unmap z m v.start n).0 in
        let one =
          paging_unmap-entry z m v.start n w x (omega (arith, x, y, z', h.1)) j
          ∙ ap (λ g. if g then none else entry_at m w) (area_pages v w pages.0 h.1) in
        rw (k, i, unmap_within)
          (unmap_within-entry z m1 s e v.end vs w rest h.2 j
            ∙ (ap (λ o. if in_range s e w && is_found (find_in vs w) then none else o) one
                ∙ elim (Bool-cases (holds v w)) [
                  | inr g ↦ rw g refl
                  | inl g ↦
                      let inside : in_range s e w ≡ true = ground (arith, i, g) in
                      rw (g, inside) (both_none (is_found (find_in vs w)) none refl)
                ]))
    | inr i ↦
        rw (k, i, unmap_within)
          (unmap_within-entry z m s e v.end vs w b.1 h.2 j ∙ elim (Bool-cases (holds v w)) [
            | inr g ↦ rw g refl
            | inl g ↦ let away : in_range s e w ≡ false = away_from g k i b.0 in rw away refl
          ])
  ]
]
  where
    both_none : (c : Bool) (o : Option Pte) → o ≡ none → (if c then none else o) ≡ none
    both_none true o x = refl
    both_none false o x = x

    away_from :
        holds v w ≡ true
        → ltb v.start e ≡ true
        → (leb s v.start && leb v.end e) ≡ false
        → Beside s e v
        → in_range s e w ≡ false
    away_from g k i (_, inl x, y) = ground (arith, g, x)
    away_from g k i (_, inr x, inl y) = absurd (ground (arith, i, x, y))
    away_from g k i (_, inr x, inr y) = absurd (ground (arith, k, y))

-- Every entry of a user address belongs to an area.
abbrev pub Backed : Space → Type 0
Backed s = (w : ℕ) (e : Pte) → w < 2 ^ 47 → entry_at s.pml4 w ≡ some e → vma_find s.vmas w ≢ none

flagged :
    (t u : Tree Vma) (w : ℕ)
    → flags_at u w ≡ flags_at t w
    → vma_find t w ≢ none
    → (v : Vma) × (vma_find u w ≡ some v)
flagged t u w same has = elim (Option-cases (vma_find u w)) [
  | inr x ↦ x
  | inl f ↦ elim (Option-cases (vma_find t w)) [
    | inl g ↦ absurd (has g)
    | inr (v, g) ↦ absurd (clash (sym (ap flags_of f) ∙ (same ∙ ap flags_of g)))
  ]
]
  where
    clash : {f : VmaFlags} → none ≡ some f → ⊥
    clash e = cc

-- What the removal of a range does to the entries of the page tables: those of the range go, and no
-- other changes.
pub remove_range-entry :
    (z : ℕ) (s : Space) (start end : ℕ) (memory : Memory) (w : ℕ)
    → Valid s.vmas
    → AllWhole s.vmas
    → Backed s
    → (remove_range z s start end memory).1 ≡ ok tt
    → w < 2 ^ 47
    → entry_at (remove_range z s start end memory).0.pml4 w
      ≡ (if in_range start end w then none else entry_at s.pml4 w)
unfolding remove_range vma_remove_range
remove_range-entry z s start end memory w good all backed done h =
    elim (Bool-cases (leb end start)) [
      | inl k ↦
          let bad : (remove_range z s start end memory).1 ≡ err einval =
            rw (k, vma_remove_range, remove_range) refl in
          absurd (failed done bad)
      | inr k ↦ elim (Result-cases (split_ends s.vmas start end memory.left memory.right).1) [
        | inl (x, f) ↦
            let bad : (remove_range z s start end memory).1 ≡ err x =
              rw (k, f, vma_remove_range, remove_range) refl in
            absurd (failed done bad)
        | inr (_, f) ↦
            rw (k, f, vma_remove_range, remove_range)
              (let t1 = (split_ends s.vmas start end memory.left memory.right).0 in
                let ends =
                  split_ends-Ends start end memory.left memory.right (ground (arith, k)) good in
                let (cs, ce) = ends.cuts f in
                let walk = walk_from-Walk start ends.valid in
                let vs = walk_from t1 start in
                let beside =
                  all_beside t1 start end 0 vs cs ce (ends.whole all) walk.in_order walk.each in
                unmap_within-entry z s.pml4 start end 0 vs w beside walk.in_order (omega (arith, h))
                ∙ elim (Bool-cases (in_range start end w)) [
                  | inr i ↦ rw i refl
                  | inl i ↦ rw i (elim (Option-cases (find_in vs w)) [
                    | inr (v, g) ↦ rw g refl
                    | inl g ↦ rw g (elim (Option-cases (entry_at s.pml4 w)) [
                      | inl e ↦ e
                      | inr (e, p) ↦
                          let (v, q) = flagged s.vmas t1 w (ends.same_flags w) (backed w e h p) in
                          let none_there : vma_find t1 w ≡ none =
                            walk.cover w (ground (arith, i)) ∙ g in
                          absurd (nothing q none_there)
                    ])
                  ])
                ])
      ]
    ]
  where
    failed : {r : Result (Unit {0})} {x : Errno} → r ≡ ok tt → r ≡ err x → ⊥
    failed a b = cc

    nothing : {o : Option Vma} {v : Vma} → o ≡ some v → o ≡ none → ⊥
    nothing a b = cc
