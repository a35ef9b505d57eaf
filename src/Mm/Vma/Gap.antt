-- ===== src/Mm/Vma/Gap.antt =====
-- kernel/mm/vma.c: `vma_find_gap_top_down` finds the highest free range, if there is one.
use jnu.Base.{
  ℕ, ◌+◌, ◌-◌, ◌≤◌, ◌<◌, ◌%◌, ◌^◌, ◌≡◌, refl, sym, ◌∙◌, subst, ◌⊎◌, inl, inr, true, false, not,
  ◌&&◌, ◌||◌, Option, none, some, List, [], ◌∷◌, leb, ltb, ◌==◌, if◌then◌else◌, arith, Bool-cases,
  add64, sub64,
}
use jnu.Rbtree.{Tree}
use jnu.Rbtree.Order.{items}
use jnu.Mm.Vma.{Vma, vma_find, candidate, best_gap, vma_find_gap_top_down}
use jnu.Mm.Vma.Order.{Areas, Valid, holds}
use jnu.Mm.Vma.Find.{find_in, vma_find-items, find_in_below}

-- No address of a range is in an area.
abbrev pub Free : (ℕ → Option Vma) → ℕ → ℕ → Type 0
Free occ b size = (a : ℕ) → b ≤ a → a < b + size → occ a ≡ none

-- No area ends within the first page.
abbrev pub PastFirstPage : List Vma → Type 0
PastFirstPage [] = Unit {0}
PastFirstPage (v ∷ vs) = (4096 ≤ v.end) × PastFirstPage vs

-- The highest free range, or 0 if there is none.
pub record Highest (occ : ℕ → Option Vma) (size ceiling r : ℕ) : Type 0 where
  pub fits : (r ≡ 0) ⊎ ((4096 ≤ r) × (r + size ≤ ceiling) × Free occ r size)
  pub highest : (b : ℕ) → 4096 ≤ b → r < b → b + size ≤ ceiling → Free occ b size → ⊥

-- What the loop knows of the addresses below `p`, and of the areas that are left.
record Search (occ : ℕ → Option Vma) (size ceiling p best lo : ℕ) (vs : List Vma) : Type 0 where
  sorted : Areas lo vs
  past : PastFirstPage vs
  page : 4096 ≤ p
  long : 0 < size
  fits :
      (best ≡ 0)
      ⊎ ((4096 ≤ best) × (best + size ≤ p) × (best + size ≤ ceiling) × Free occ best size)
  highest : (b : ℕ) → 4096 ≤ b → best < b → b < p → Free occ b size → ⊥
  near : (p ≤ lo) ⊎ (p ≡ 4096)
  rest : (a : ℕ) → p ≤ a → occ a ≡ find_in vs a

candidate_lem :
    (floor size p e best : ℕ)
    → floor ≤ p
    → (best ≡ 0) ⊎ (best + size ≤ p)
    → 0 < size
    → candidate floor size p e best ≡ (if ltb p e && leb size (e - p) then e - size else best)
candidate_lem floor size p e best h fits long = elim (Bool-cases (ltb p e && leb size (e - p))) [
  | inr k ↦ rw k refl
  | inl k ↦
      let one : leb p (e - size) ≡ true = ground (arith, k) in
      let two : leb floor (e - size) ≡ true = ground (arith, k, h) in
      let three : (best == 0 || ltb best (e - size)) ≡ true = elim fits [
        | inl z ↦ ground (arith, z)
        | inr z ↦ ground (arith, z, k, long)
      ] in
      rw (k, one, two, three) refl
]

weaker :
    {occ : ℕ → Option Vma} {size ceiling p best lo : ℕ} {vs : List Vma}
    → Search occ size ceiling p best lo vs
    → (best ≡ 0) ⊎ (best + size ≤ p)
weaker s = elim s.fits [ inl z ↦ inl z | inr (_, z, _, _) ↦ inr z ]

-- The gap at the top: no area is left below `ceiling`.
last_gap :
    {occ : ℕ → Option Vma} {size ceiling p best lo : ℕ} {vs : List Vma}
    → Search occ size ceiling p best lo vs
    → ((a : ℕ) → a < ceiling → find_in vs a ≡ none)
    → Highest occ size ceiling (candidate 0 size p ceiling best)
last_gap {occ} {size} {ceiling} {p} {best} {lo} {vs} s clear =
    subst (λ r. Highest occ size ceiling r)
      (sym (candidate_lem 0 size p ceiling best (omega arith) (weaker s) s.long))
      (elim (Bool-cases (ltb p ceiling && leb size (ceiling - p))) [
        | inl k ↦ rw k (record {
          fits = inr (
            ground (arith, k, s.page),
            ground (arith, k),
            λ a low high. s.rest a (ground (arith, k, low)) ∙ clear a (ground (arith, k, high)),
          );
          highest = λ b _ low high _. ground (arith, k, low, high);
        })
        | inr k ↦ rw k (record {
          fits = elim s.fits [ inl z ↦ inl z | inr (x, _, y, z) ↦ inr (x, y, z) ];
          highest = λ b page low high free. elim (Bool-cases (ltb b p)) [
            | inl n ↦ s.highest b page low (ground (arith, n)) free
            | inr n ↦ ground (arith, k, n, high, s.long)
          ];
        })
      ])

-- A range with an address of an area is not free.
blocked :
    {occ : ℕ → Option Vma} {size ceiling p best lo : ℕ} {v : Vma} {vs : List Vma}
    → Search occ size ceiling p best lo (v ∷ vs)
    → (b x : ℕ) → p ≤ x
    → holds v x ≡ true
    → b ≤ x
    → x < b + size
    → Free occ b size
    → ⊥
blocked {v = v} {vs = vs} s b x far i low high free =
    let taken : none ≡ some v = sym (free x low high) ∙ (s.rest x far ∙ rw i refl) in cc

-- The gap below an area, and the area.
next_gap :
    {occ : ℕ → Option Vma} {size ceiling p best lo : ℕ} {v : Vma} {vs : List Vma}
    → Search occ size ceiling p best lo (v ∷ vs)
    → v.start < ceiling
    → Search occ size ceiling v.end (candidate 4096 size p v.start best) v.end vs
next_gap {occ} {size} {ceiling} {p} {best} {lo} {v} {vs} s under =
    subst (λ x. Search occ size ceiling v.end x v.end vs)
      (sym (candidate_lem 4096 size p v.start best s.page (weaker s) s.long))
      (record {
        sorted = s.sorted.2;
        past = s.past.1;
        page = s.past.0;
        long = s.long;
        near = inl (omega arith);
        fits = elim (Bool-cases (ltb p v.start && leb size (v.start - p))) [
          | inl k ↦ rw k (
              inr (
                ground (arith, k, s.page),
                ground (arith, k, s.sorted.1),
                ground (arith, k, under),
                λ a low high.
                    s.rest a (ground (arith, k, low))
                    ∙ find_in_below v.start (v ∷ vs) a (omega arith, s.sorted.1, s.sorted.2)
                        (ground (arith, k, high)),
              ))
          | inr k ↦ rw k (elim s.fits [
            | inl z ↦ inl z
            | inr (x, y, z, free) ↦ inr (x, omega (arith, y, reach), z, free)
          ])
        ];
        highest = λ b page low high free. elim (Bool-cases (ltb b p)) [
          | inl n ↦ elim (Bool-cases (ltb p v.start && leb size (v.start - p))) [
            | inl k ↦
                ground (arith, k, n, subst (λ g. (if g then v.start - size else best) < b) k low)
            | inr k ↦
                s.highest b page (subst (λ g. (if g then v.start - size else best) < b) k low)
                  (ground (arith, n)) free
          ]
          | inr n ↦ elim (Bool-cases (ltb b v.start)) [
            | inr m ↦
                blocked s b b (ground (arith, n)) (ground (arith, m, high)) (omega arith)
                  (omega (arith, s.long)) free
            | inl m ↦
                blocked s b v.start (ground (arith, m, n)) (ground (arith, s.sorted.1))
                  (ground (arith, m))
                  (elim (Bool-cases (ltb p v.start && leb size (v.start - p))) [
                    | inl k ↦
                        ground
                          (arith, k, subst (λ g. (if g then v.start - size else best) < b) k low)
                    | inr k ↦ ground (arith, k, n, m, s.long)
                  ])
                  free
          ]
        ];
        rest = λ a far.
            let out : holds v a ≡ false = ground (arith, far) in
            s.rest a (omega (arith, far, reach)) ∙ rw out refl;
      })
  where
    reach : p ≤ v.end
    reach = elim s.near [
      | inl n ↦ omega (arith, n, s.sorted.0, s.sorted.1)
      | inr n ↦ omega (arith, n, s.past.0)
    ]

best_gap-Highest :
    (occ : ℕ → Option Vma) (size ceiling : ℕ) (vs : List Vma) (p best lo : ℕ)
    → Search occ size ceiling p best lo vs
    → Highest occ size ceiling (best_gap size ceiling p best vs)
unfolding best_gap
best_gap-Highest occ size ceiling [] p best lo s = last_gap s (λ a _. refl)
best_gap-Highest occ size ceiling (v ∷ vs) p best lo s = elim (Bool-cases (leb ceiling v.start)) [
  | inl k ↦
      rw (k, best_gap)
        (last_gap s λ a low.
          find_in_below v.start (v ∷ vs) a (omega arith, s.sorted.1, s.sorted.2)
            (ground (arith, k, low)))
  | inr k ↦
      rw (k, best_gap)
        (best_gap-Highest occ size ceiling vs v.end _ v.end (next_gap s (ground (arith, k))))
]

-- In a valid tree of areas none of which ends within the first page, for a size of whole pages
-- above 0 with 4096 + size below 2 ^ 64 and a ceiling below 2 ^ 64: the result is 0, or from
-- 4096 up, with the whole range below the ceiling and in no area; and no range that starts
-- higher, ends at the ceiling at most and starts from 4096 up is free.
pub vma_find_gap_top_down-Highest :
    {t : Tree Vma} (size ceiling : ℕ)
    → Valid t
    → PastFirstPage (items t)
    → 0 < size
    → size % 4096 ≡ 0
    → 4096 + size < 2 ^ 64
    → ceiling < 2 ^ 64
    → Highest (vma_find t) size ceiling (vma_find_gap_top_down t size ceiling)
unfolding vma_find_gap_top_down
vma_find_gap_top_down-Highest {t} size ceiling good past long paged short low =
    go (items t) past good.ordered (λ a. vma_find-items a good)
  where
    go :
        (vs : List Vma)
        → PastFirstPage vs
        → Areas 0 vs
        → ((a : ℕ) → vma_find t a ≡ find_in vs a)
        → Highest (vma_find t) size ceiling (
            if size == 0 || not (size % 4096 == 0) then 0 else elim vs [
              | [] ↦ if leb (add64 4096 size) ceiling then sub64 ceiling size else 0
              | v ∷ vs ↦ best_gap size ceiling 4096 0 (v ∷ vs)
            ])
    go [] ends sorted same =
        let ok_size : (size == 0 || not (size % 4096 == 0)) ≡ false = ground (arith, long, paged) in
        let sum : add64 4096 size ≡ 4096 + size = omega (arith, short) in
        rw (ok_size, sum)
          (elim (Bool-cases (leb (4096 + size) ceiling)) [
            | inl k ↦
                let room : 4096 + size ≤ ceiling = ground (arith, k) in
                let top : sub64 ceiling size ≡ ceiling - size = omega (arith, low, room) in
                rw (k, top)
                  (record {
                    fits = inr (omega (arith, room), omega (arith, room), λ a _ _. same a);
                    highest = λ b _ above high _. omega (arith, above, high);
                  })
            | inr k ↦ rw k (record {
              fits = inl refl;
              highest = λ b page _ high _. ground (arith, k, page, high);
            })
          ])
    go (v ∷ vs) ends sorted same =
        let ok_size : (size == 0 || not (size % 4096 == 0)) ≡ false = ground (arith, long, paged) in
        rw ok_size (
          best_gap-Highest (vma_find t) size ceiling (v ∷ vs) 4096 0 0 (record {
            sorted = sorted;
            past = ends;
            page = omega arith;
            long = long;
            fits = inl refl;
            near = inr refl;
            highest = λ b page _ below _. omega (arith, page, below);
            rest = λ a _. same a;
          }))
