-- ===== src/Mm/Vma/Range.antt =====
-- kernel/mm/vma.c: `vma_remove_range` takes a range of addresses out of every area.
use jnu.Base.{
  ℕ, ◌≤◌, ◌<◌, ◌%◌, ◌≡◌, refl, ap, ◌∙◌, inl, inr, Bool, true, false, not, ◌&&◌, ◌||◌, none, some,
  List, [], ◌∷◌, leb, ltb, ◌==◌, if◌then◌else◌, arith, Bool-cases, Result, ok, err, Errno, einval,
  then_ok, Result-cases,
}
use jnu.Rbtree.{Tree}
use jnu.Mm.Vma.{Vma, vma_find, vma_remove, split_ends, walk_from, remove_within, vma_remove_range}
use jnu.Mm.Vma.Order.{Valid, holds}
use jnu.Mm.Vma.Find.{find_in_below}
use jnu.Mm.Vma.Change.{vma_remove-clears}
use jnu.Mm.Vma.Split.{flags_at, flags_of, Cut, AllWhole}
use jnu.Mm.Vma.Edges.{Ends, split_ends-Ends}
use jnu.Mm.Vma.Walks.{Walk, Walk-passed, Walk-removed, walk_from-Walk}

abbrev pub in_range : ℕ → ℕ → ℕ → Bool
in_range s e a = leb s a && ltb a e

Cut-removed :
    (t u : Tree Vma) (v : Vma) (k : ℕ)
    → ((a : ℕ) → vma_find u a ≡ (if holds v a then none else vma_find t a))
    → Cut t k
    → Cut u k
Cut-removed t u v k less cut a w f low high = elim (Bool-cases (holds v a)) [
  | inl i ↦ absurd (ground (arith, less a, i, f))
  | inr i ↦ cut a w (ground (arith, less a, i, f)) low high
]

remove_within-clears :
    (t : Tree Vma) (s e lo : ℕ) (vs : List Vma)
    → Valid t
    → Cut t s
    → Cut t e
    → Walk t s lo vs
    → Valid (remove_within t s e vs)
      × ((a : ℕ)
          → vma_find (remove_within t s e vs) a ≡ (if in_range s e a then none else vma_find t a))
unfolding remove_within
remove_within-clears t s e lo [] good cs ce w = (
  good,
  λ a. elim (Bool-cases (in_range s e a)) [
    | inl i ↦ rw i (w.cover a (ground (arith, i)))
    | inr i ↦ rw i refl
  ],
)
remove_within-clears t s e lo (v ∷ vs) good cs ce w = elim (Bool-cases (ltb v.start e)) [
  | inr k ↦
      rw (k, remove_within)
        (
          good,
          λ a. elim (Bool-cases (in_range s e a)) [
            | inl i ↦ rw i (
                w.cover a (ground (arith, i))
                ∙ find_in_below v.start (v ∷ vs) a (omega arith, w.in_order.1, w.in_order.2)
                    (ground (arith, i, k)))
            | inr i ↦ rw i refl
          ],
        )
  | inl k ↦
      let self : vma_find t v.start ≡ some v =
        w.each v.start v
          (let at : holds v v.start ≡ true = ground (arith, w.in_order.1) in rw at refl) in
      elim (Bool-cases (leb s v.start && leb v.end e)) [
        | inl i ↦
            let (good1, less) = vma_remove-clears v v.start good self in
            let u = vma_remove t v in
            let (good2, out) =
              remove_within-clears u s e v.end vs good1 (Cut-removed t u v s less cs)
                (Cut-removed t u v e less ce) (Walk-removed s lo v vs w u less) in
            rw (k, i, remove_within)
              (
                good2,
                λ a. out a ∙ elim (Bool-cases (in_range s e a)) [
                  | inl j ↦ rw j refl
                  | inr j ↦
                      let outside : holds v a ≡ false = ground (arith, i, j) in
                      rw j (less a ∙ rw outside refl)
                ],
              )
        | inr i ↦
            let behind : v.end ≤ s = elim (Bool-cases (leb v.end s)) [
              | inl j ↦ ground (arith, j)
              | inr j ↦ elim (Bool-cases (ltb v.start s)) [
                | inl n ↦ absurd (cs v.start v self (ground (arith, n)) (ground (arith, j)))
                | inr n ↦ absurd (ce v.start v self (ground (arith, k)) (ground (arith, i, n)))
              ]
            ] in
            rw (k, i, remove_within)
              (remove_within-clears t s e v.end vs good cs ce (Walk-passed s lo v vs w behind))
      ]
]

-- The outcome for a range: taken out, or an error before anything was.
pub record RangeRemoved (t : Tree Vma) (s e : ℕ) (m1 m2 : Bool) (r : Tree Vma × Result (Unit {0}))
    : Type 0 where
  pub valid : Valid r.0
  pub cleared : r.1 ≡ ok tt → (a : ℕ) → in_range s e a ≡ true → vma_find r.0 a ≡ none
  pub outside : (a : ℕ) → in_range s e a ≡ false → flags_at r.0 a ≡ flags_at t a
  pub whole : AllWhole t → AllWhole r.0
  -- With memory, and a range of whole pages, there is no error.
  pub works : s < e → s % 4096 ≡ 0 → e % 4096 ≡ 0 → m1 ≡ true → m2 ≡ true → r.1 ≡ ok tt
  pub failed : (x : Errno) → r.1 ≡ err x → (a : ℕ) → flags_at r.0 a ≡ flags_at t a

-- An outcome that changes no flags.
unchanged :
    {t u : Tree Vma} (s e : ℕ) (m1 m2 : Bool) (x : Errno)
    → (s < e → s % 4096 ≡ 0 → e % 4096 ≡ 0 → m1 ≡ true → m2 ≡ true → ⊥)
    → Valid u
    → ((a : ℕ) → flags_at u a ≡ flags_at t a)
    → (AllWhole t → AllWhole u)
    → RangeRemoved t s e m1 m2 (u, err x)
unchanged s e m1 m2 x w good same all = record {
  whole = all;
  works = λ a b c d f. absurd (w a b c d f);
  valid = good;
  cleared = λ bad. cc;
  outside = λ a _. same a;
  failed = λ _ _ a. same a;
}

pub vma_remove_range-Removed :
    {t : Tree Vma} (s e : ℕ) (m1 m2 : Bool)
    → Valid t
    → RangeRemoved t s e m1 m2 (vma_remove_range t s e m1 m2)
unfolding vma_remove_range
vma_remove_range-Removed {t} s e m1 m2 good = elim (Bool-cases (leb e s)) [
  | inl k ↦
      rw (k, vma_remove_range)
        (unchanged s e m1 m2 einval (λ i _ _ _ _. ground (arith, k, i)) good (λ a. refl) (λ x. x))
  | inr k ↦
      rw (k, vma_remove_range)
        (go (split_ends t s e m1 m2) (split_ends-Ends s e m1 m2 (ground (arith, k)) good))
]
  where
    go :
        (r : Tree Vma × Result (Unit {0}))
        → Ends t s e m1 m2 r
        → RangeRemoved t s e m1 m2 (then_ok r (λ u _. (remove_within u s e (walk_from u s), ok tt)))
    go (u, err x) p =
        unchanged s e m1 m2 x (λ _ a b i j. let bad = p.works a b i j in cc) p.valid p.same_flags
          p.whole
    go (u, ok _) p =
        let (cs, ce) = p.cuts refl in
        let (good1, finds) =
          remove_within-clears u s e 0 (walk_from u s) p.valid cs ce (walk_from-Walk s p.valid) in
        record {
          valid = good1;
          cleared = λ _ a i. finds a ∙ rw i refl;
          outside = λ a i. ap flags_of (finds a ∙ rw i refl) ∙ p.same_flags a;
          works = λ _ _ _ _ _. refl;
          failed = λ x bad. cc;
          whole = λ all a v f. elim (Bool-cases (in_range s e a)) [
            | inl i ↦ absurd (ground (arith, finds a, f, i))
            | inr i ↦ p.whole all a v (ground (arith, finds a, f, i))
          ];
        }

-- What may stop `vma_remove_range`.
abbrev pub range_may_fail : ℕ → ℕ → Bool → Bool → Bool
range_may_fail s e m1 m2 =
    leb e s || (not (s % 4096 == 0) || (not (e % 4096 == 0) || (not m1 || not m2)))

pub data RangeOutcome (t : Tree Vma) (s e : ℕ) (may_fail : Bool) (r : Tree Vma × Result (Unit {0}))
    : Type 0 where
  range_failed :
      (x : Errno)
      → r.1 ≡ err x
      → may_fail ≡ true
      → Valid r.0
      → ((a : ℕ) → flags_at r.0 a ≡ flags_at t a)
      → RangeOutcome t s e may_fail r
  range_removed :
      r.1 ≡ ok tt
      → Valid r.0
      → ((a : ℕ) → flags_at r.0 a ≡ (if in_range s e a then none else flags_at t a))
      → RangeOutcome t s e may_fail r

-- In a valid tree, `vma_remove_range` either fails, for one of the reasons that
-- `range_may_fail` lists, and every address has the flags it had; or it succeeds, the addresses
-- of the range are in no area, and every other address has the flags it had. The tree is valid
-- either way.
pub vma_remove_range-Outcome :
    {t : Tree Vma} (s e : ℕ) (m1 m2 : Bool)
    → Valid t
    → RangeOutcome t s e (range_may_fail s e m1 m2) (vma_remove_range t s e m1 m2)
vma_remove_range-Outcome {t} s e m1 m2 good =
    let p = vma_remove_range-Removed s e m1 m2 good in
    elim (Result-cases (vma_remove_range t s e m1 m2).1) [
      | inr (_, f) ↦ range_removed f p.valid λ a. elim (Bool-cases (in_range s e a)) [
        | inl i ↦ rw i (ap flags_of (p.cleared f a i))
        | inr i ↦ rw i (p.outside a i)
      ]
      | inl (x, f) ↦ elim (Bool-cases (range_may_fail s e m1 m2)) [
        | inl m ↦ range_failed x f m p.valid (p.failed x f)
        | inr m ↦
            let done =
              p.works (ground (arith, m)) (ground (arith, m)) (ground (arith, m))
                (ground (arith, m)) (ground (arith, m)) in
            absurd (clash f done)
      ]
    ]
  where
    clash : {r : Result (Unit {0})} {x : Errno} → r ≡ err x → r ≡ ok tt → ⊥
    clash a b = cc
