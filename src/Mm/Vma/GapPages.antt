-- ===== src/Mm/Vma/GapPages.antt =====
-- kernel/mm/vma.c: a gap starts at a page.
use jnu.Base.{
  ℕ, ◌+◌, ◌-◌, ◌≤◌, ◌<◌, ◌%◌, ◌^◌, ◌≡◌, refl, inl, inr, true, not, ◌&&◌, ◌||◌, List, [], ◌∷◌, leb,
  ltb, ◌==◌, if◌then◌else◌, arith, Bool-cases, add64, sub64,
}
use jnu.Rbtree.{Tree}
use jnu.Rbtree.Order.{items}
use jnu.Mm.Vma.{Vma, candidate, best_gap, vma_find_gap_top_down}

-- Every area starts at a page.
abbrev pub StartsPaged : List Vma → Type 0
StartsPaged [] = Unit {0}
StartsPaged (v ∷ vs) = (v.start % 4096 ≡ 0) × StartsPaged vs

candidate_paged :
    (floor size p e best : ℕ)
    → size % 4096 ≡ 0
    → e % 4096 ≡ 0
    → best % 4096 ≡ 0
    → candidate floor size p e best % 4096 ≡ 0
candidate_paged floor size p e best h i j = elim (Bool-cases (ltb p e && leb size (e - p))) [
  | inr k ↦ rw k j
  | inl k ↦
      rw k
        (elim (Bool-cases
          (leb p (e - size) && leb floor (e - size) && (best == 0 || ltb best (e - size)))) [
            | inl n ↦ rw n (omega (arith, h, i, room k))
            | inr n ↦ rw n j
          ])
]
  where
    room : (ltb p e && leb size (e - p)) ≡ true → size ≤ e
    room k = ground (arith, k)

best_gap_paged :
    (size ceiling : ℕ) (vs : List Vma) (p best : ℕ)
    → size % 4096 ≡ 0
    → ceiling % 4096 ≡ 0
    → StartsPaged vs
    → best % 4096 ≡ 0
    → best_gap size ceiling p best vs % 4096 ≡ 0
unfolding best_gap
best_gap_paged size ceiling [] p best h i vp j = candidate_paged 0 size p ceiling best h i j
best_gap_paged size ceiling (v ∷ vs) p best h i vp j = elim (Bool-cases (leb ceiling v.start)) [
  | inl k ↦ rw (k, best_gap) (candidate_paged 0 size p ceiling best h i j)
  | inr k ↦
      rw (k, best_gap)
        (best_gap_paged size ceiling vs v.end _ h i vp.1
          (candidate_paged 4096 size p v.start best h vp.0 j))
]

-- A gap starts at a page.
pub gap_paged :
    (t : Tree Vma) (size ceiling : ℕ)
    → StartsPaged (items t)
    → ceiling % 4096 ≡ 0
    → ceiling < 2 ^ 64
    → 4096 + size < 2 ^ 64
    → vma_find_gap_top_down t size ceiling % 4096 ≡ 0
unfolding vma_find_gap_top_down
gap_paged t size ceiling paged h i j = elim (Bool-cases (size == 0 || not (size % 4096 == 0))) [
  | inl k ↦ rw k refl
  | inr k ↦ rw k (go (items t) paged (ground (arith, k)))
]
  where
    go :
        (vs : List Vma)
        → StartsPaged vs
        → size % 4096 ≡ 0
        → (elim vs [
          | [] ↦ if leb (add64 4096 size) ceiling then sub64 ceiling size else 0
          | v ∷ vs ↦ best_gap size ceiling 4096 0 (v ∷ vs)
        ])
            % 4096
          ≡ 0
    go [] vp k = elim (Bool-cases (leb (add64 4096 size) ceiling)) [
      | inl n ↦ let room : size ≤ ceiling = below n in rw n (omega (arith, h, k, room, i))
      | inr n ↦ rw n refl
    ]
      where
        below : leb (add64 4096 size) ceiling ≡ true → size ≤ ceiling
        below n =
            let sum : add64 4096 size ≡ 4096 + size = omega (arith, j) in ground (arith, n, sum)
    go (v ∷ vs) vp k = best_gap_paged size ceiling (v ∷ vs) 4096 0 k h vp refl
