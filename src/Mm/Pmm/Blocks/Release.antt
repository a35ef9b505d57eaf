-- ===== src/Mm/Pmm/Blocks/Release.antt =====
-- kernel/mm/pmm.c: the loop of `pmm_free_pages_locked` that merges buddies.
use jnu.Base.{
  ℕ, zero, suc, ◌+◌, ◌^◌, ◌≤◌, ◌<◌, ◌≡◌, refl, subst, ◌∙◌, ◌⊎◌, inl, inr, true, some, arith,
  Bool-cases, pow_double, min,
}
use jnu.Mm.Pmm.{Pmm, Zone, dma, normal}
use jnu.Mm.Pmm.Free.{buddy_pfn, can_merge, absorb, put_block, coalesce}
use jnu.Mm.Pmm.Lists.{mark, zone_at, detach}
use jnu.Mm.Pmm.Blocks.{InBlock, Covered, Fits, WellFormed, Adds, Adds-between}
use jnu.Mm.Pmm.Blocks.Moves.{
  Same, Same-WellFormed, Same-Adds, Same-refl, Same-with_stats, count-list_remove,
  detach-WellFormed, detach-Adds, list_push-WellFormed, list_push-Adds,
}
use jnu.Mm.Pmm.Blocks.Halves.{Halves, buddy-Halves}

-- The block at `p` that is about to become free.
pub record Ready (s : Pmm) (z : Zone) (p o : ℕ) : Type 0 where
  pub good : WellFormed s
  pub fit : Fits s.pfn_count p o
  pub zone : zone_at p ≡ z
  pub fresh : (q : ℕ) → InBlock p o q → ¬ Covered s q

-- What freeing it gives.
pub record Freed (s t : Pmm) (p o : ℕ) : Type 0 where
  pub good : WellFormed t
  pub more : Adds (InBlock p o) s t

put_block-Freed : (s : Pmm) (z : Zone) (p o : ℕ) → Ready s z p o → Freed s (put_block s z o p) p o
unfolding put_block
put_block-Freed s z p o r = record {
  good =
      Same-WellFormed (Same-with_stats _ _)
        (list_push-WellFormed r.good z p o r.fit r.zone r.fresh);
  more =
      Same-Adds (Same-refl s) (Same-with_stats _ _)
        (list_push-Adds r.good z p o r.fit r.zone r.fresh);
}

-- What the tests of the loop have found out.
can_merge-eq :
    (s : Pmm) (z : Zone) (b o : ℕ)
    → can_merge s z b o ≡ true
    → (mark s b ≡ some o) × (zone_at b ≡ z)
unfolding can_merge
can_merge-eq s dma b o h = ground arith
can_merge-eq s normal b o h = ground arith

Same-absorb : (s : Pmm) (z : Zone) (b o : ℕ) → Same (detach s b) (absorb s z b o)
unfolding absorb
Same-absorb s z b o = record {
  marks = λ q. refl;
  nexts = λ q. refl;
  prevs = λ q. refl;
  heads = λ z o. refl;
  count = refl;
}

module _ (s : Pmm) (z : Zone) (p o m b : ℕ) (r : Ready s z p o) (h : Halves m p b o)
    (marked : mark s b ≡ some o) (zone : zone_at b ≡ z) (small : suc o < 11) where
  in_halves : (q : ℕ) → InBlock m (suc o) q → InBlock p o q ⊎ InBlock b o q
  in_halves q i = elim h.sides [
    | inl (e, e') ↦ ground (arith, pow_double o)
    | inr (e, e') ↦ ground (arith, pow_double o)
  ]

  left : (q : ℕ) → InBlock p o q → InBlock m (suc o) q
  left q i = elim h.sides [
    | inl (e, e') ↦ (omega arith, omega (arith, pow_double o))
    | inr (e, e') ↦ (omega arith, omega (arith, pow_double o))
  ]

  right : (q : ℕ) → InBlock b o q → InBlock m (suc o) q
  right q i = elim h.sides [
    | inl (e, e') ↦ (omega arith, omega (arith, pow_double o))
    | inr (e, e') ↦ (omega arith, omega (arith, pow_double o))
  ]

  apart : (q : ℕ) → InBlock p o q → ¬ InBlock b o q
  apart q i j = elim h.sides [ inl (e, e') ↦ omega arith | inr (e, e') ↦ omega arith ]

  removed : Adds (InBlock b o) (absorb s z b o) s
  removed = Same-Adds (Same-absorb s z b o) (Same-refl s) (detach-Adds r.good b o marked)

  count : (absorb s z b o).pfn_count ≡ s.pfn_count
  count = (Same-absorb s z b o).count ∙ count-list_remove s b

  merged_within : m + 2 ^ suc o ≤ s.pfn_count
  merged_within = elim h.sides [
    | inl (e, e') ↦ omega (arith, pow_double o, r.fit.within, (r.good.fits b o marked).within)
    | inr (e, e') ↦ omega (arith, pow_double o, r.fit.within, (r.good.fits b o marked).within)
  ]

  merged-Ready : Ready (absorb s z b o) z m (suc o)
  merged-Ready = record {
    good = Same-WellFormed (Same-absorb s z b o) (detach-WellFormed r.good b o marked);
    fit = record {
      index = h.index;
      aligned = h.aligned;
      within = rw count merged_within;
      legal = small;
    };
    zone = elim h.sides [
      | inl (e, e') ↦ subst (λ x. zone_at x ≡ z) e r.zone
      | inr (e, e') ↦ subst (λ x. zone_at x ≡ z) e zone
    ];
    fresh = λ q i. elim (in_halves q i) [
      | inl j ↦ λ k. r.fresh q j (removed.keeps q k)
      | inr j ↦ removed.fresh q j
    ];
  }

  -- If the merged block is freed, so is the one at `p`.
  merged-Freed : (t : Pmm) → Freed (absorb s z b o) t m (suc o) → Freed s t p o
  merged-Freed t f = record {
    good = f.good;
    more =
        Adds-between {A = InBlock p o} {B = InBlock b o} {C = InBlock m (suc o)} in_halves left
          right apart f.more removed;
  }

-- The whole loop of `pmm_free_pages_locked`, with the push behind it.
pub coalesce-Freed :
    (n : ℕ) (s : Pmm) (z : Zone) (o p : ℕ)
    → o + n < 11
    → Ready s z p o
    → Freed s (coalesce n s z o p) p o
unfolding coalesce
coalesce-Freed zero s z o p h r = put_block-Freed s z p o r
coalesce-Freed (suc n) s z o p h r = elim (Bool-cases (can_merge s z (buddy_pfn p o) o)) [
  | inl e ↦
      let (marked, zone) = can_merge-eq s z (buddy_pfn p o) o e in
      let b = buddy_pfn p o in
      let hs = buddy-Halves r.fit in
      rw e (
        merged-Freed s z p o (min b p) b r hs marked zone (omega arith) _ (
          coalesce-Freed n (absorb s z b o) z (suc o) (min b p) (omega arith)
            (merged-Ready s z p o (min b p) b r hs marked zone (omega arith))))
  | inr e ↦ rw e (put_block-Freed s z p o r)
]
