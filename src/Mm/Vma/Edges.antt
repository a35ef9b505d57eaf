-- ===== src/Mm/Vma/Edges.antt =====
-- kernel/mm/vma.c: the splits at both ends of a range.
use jnu.Base.{
  ℕ, ◌-◌, ◌<◌, ◌%◌, ◌≡◌, refl, ap, ◌∙◌, inl, inr, Bool, true, some, ltb, arith, Bool-cases,
  Option-cases, Result, ok, err, then_ok,
}
use jnu.Rbtree.{Tree}
use jnu.Mm.Vma.{Vma, vma_find, vma_split_at, split_left, split_right, split_ends}
use jnu.Mm.Vma.Order.{Valid}
use jnu.Mm.Vma.Split.{
  flags_at, find-holds, holds-find, parted, refused, Cut, AllWhole, Splitting-kept,
  vma_split_at-Splitting,
}

-- What a split at an end of the range leaves.
pub record Split (t : Tree Vma) (b : ℕ) (m : Bool) (r : Tree Vma × Result (Unit {0})) : Type 0 where
  pub valid : Valid r.0
  pub same_flags : (a : ℕ) → flags_at r.0 a ≡ flags_at t a
  pub cuts : (k : ℕ) → Cut t k → Cut r.0 k
  pub whole : AllWhole t → AllWhole r.0
  pub cut : r.1 ≡ ok tt → Cut r.0 b
  pub works : b % 4096 ≡ 0 → m ≡ true → r.1 ≡ ok tt

split_at :
    {t : Tree Vma} (v : Vma) (c b : ℕ) (memory : Bool)
    → Valid t
    → vma_find t c ≡ some v
    → v.start < b
    → b < v.end
    → Split t b memory (vma_split_at t v b memory)
split_at v c b memory good found low high =
    let (x, y, z, w, all) =
      Splitting-kept c good found (vma_split_at-Splitting v c b memory good found) in
    record {
      valid = x;
      same_flags = y;
      cuts = z;
      cut = w;
      whole = all;
      works = λ paged m. elim (vma_split_at-Splitting v c b memory good found) [
        | parted _ _ _ done _ _ ↦ done
        | refused e bad _ ↦ absurd (ground (arith, bad, low, high, paged, m))
      ];
    }

-- Nothing to split: the area that has `c`, the address next to `b`, does not go past `b`.
no_split : {t : Tree Vma} (b : ℕ) (m : Bool) → Valid t → Cut t b → Split t b m (t, ok tt)
no_split b m good cut = record {
  valid = good;
  same_flags = λ a. refl;
  cuts = λ k x. x;
  whole = λ x. x;
  cut = λ _. cut;
  works = λ _ _. refl;
}

pub split_left-Split :
    {t : Tree Vma} (start : ℕ) (m : Bool) → Valid t → Split t start m (split_left t start m)
unfolding split_left
split_left-Split {t} start m good = elim (Option-cases (vma_find t start)) [
  | inl e ↦
      rw (e, split_left)
        (no_split start m good λ a v f low high.
          let here = find-holds a start v good f (ground (arith, low, high)) in cc)
  | inr (w, e) ↦ elim (Bool-cases (ltb w.start start)) [
    | inl k ↦
        rw (e, k, split_left)
          (split_at w start start m good e (ground (arith, k))
            (ground (arith, holds-find start w good e)))
    | inr k ↦
        rw (e, k, split_left)
          (no_split start m good λ a v f low high.
            let here = find-holds a start v good f (ground (arith, low, high)) in
            let same : w ≡ v = ground (arith, here, e) in
            ground (arith, k, low, ap (λ (x : Vma). x.start) same))
  ]
]

pub split_right-Split :
    {t : Tree Vma} (end : ℕ) (m : Bool) → 0 < end → Valid t → Split t end m (split_right t end m)
unfolding split_right
split_right-Split {t} end m pos good = elim (Option-cases (vma_find t (end - 1))) [
  | inl e ↦
      rw (e, split_right)
        (no_split end m good λ a v f low high.
          let here = find-holds a (end - 1) v good f (ground (arith, low, high)) in cc)
  | inr (w, e) ↦ elim (Bool-cases (ltb end w.end)) [
    | inl k ↦
        rw (e, k, split_right)
          (split_at w (end - 1) end m good e (ground (arith, pos, holds-find (end - 1) w good e))
            (ground (arith, k)))
    | inr k ↦
        rw (e, k, split_right)
          (no_split end m good λ a v f low high.
            let here = find-holds a (end - 1) v good f (ground (arith, low, high)) in
            let same : w ≡ v = ground (arith, here, e) in
            ground (arith, k, high, ap (λ (x : Vma). x.end) same))
  ]
]

-- What both splits leave.
pub record Ends (t : Tree Vma) (s e : ℕ) (m1 m2 : Bool) (r : Tree Vma × Result (Unit {0}))
    : Type 0 where
  pub valid : Valid r.0
  pub same_flags : (a : ℕ) → flags_at r.0 a ≡ flags_at t a
  pub cuts : r.1 ≡ ok tt → Cut r.0 s × Cut r.0 e
  pub whole : AllWhole t → AllWhole r.0
  pub works : s % 4096 ≡ 0 → e % 4096 ≡ 0 → m1 ≡ true → m2 ≡ true → r.1 ≡ ok tt

pub split_ends-Ends :
    {t : Tree Vma} (s e : ℕ) (m1 m2 : Bool)
    → 0 < e
    → Valid t
    → Ends t s e m1 m2 (split_ends t s e m1 m2)
split_ends-Ends {t} s e m1 m2 pos good = go (split_left t s m1) (split_left-Split s m1 good)
  where
    go :
        (r : Tree Vma × Result (Unit {0}))
        → Split t s m1 r
        → Ends t s e m1 m2 (then_ok r (λ u _. split_right u e m2))
    go (u, err x) p = record {
      valid = p.valid;
      same_flags = p.same_flags;
      whole = p.whole;
      cuts = λ bad. cc;
      works = λ x y i j. p.works x i;
    }
    go (u, ok _) p =
        let q = split_right-Split e m2 pos p.valid in
        record {
          valid = q.valid;
          same_flags = λ a. q.same_flags a ∙ p.same_flags a;
          cuts = λ f. (q.cuts s (p.cut refl), q.cut f);
          whole = λ all. q.whole (p.whole all);
          works = λ x y i j. q.works y j;
        }
