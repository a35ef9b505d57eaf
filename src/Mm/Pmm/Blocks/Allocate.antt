-- ===== src/Mm/Pmm/Blocks/Allocate.antt =====
-- kernel/mm/pmm.c: what an allocation takes from the free blocks.
use jnu.Base.{
  ℕ, zero, suc, ◌+◌, ◌-◌, ◌*◌, ◌^◌, ◌≤◌, ◌<◌, ◌≡◌, refl, sym, ap, subst, ◌∙◌, ◌⊎◌, inl, inr, false,
  Option, none, some, ltb, arith, add64, Bool-cases, Option-cases, pow_double, one-le-pow, ==_refl,
}
use native.Mathlib.Nat.{add-zero, add-suc}
use jnu.Mm.Pmm.{
  Pmm, Zone, Stats, max_order, list_push, stats_add, stats_sub, with_stats, set_free, set_order,
  pfn_to_pa,
}
use jnu.Mm.Pmm.Alloc.{split, seek, take_block, cut_block, alloc_from}
use jnu.Mm.Pmm.Counters.{seek_bounds, seek_found, take_block-eq}
use jnu.Mm.Pmm.Links.{head-mem}
use jnu.Mm.Pmm.Lists.{mark, zone_at, detach}
use jnu.Mm.Pmm.Blocks.{InBlock, Covered, Fits, WellFormed, Adds, Adds-between, zone_of_block}
use jnu.Mm.Pmm.Blocks.Moves.{
  Same, Same-WellFormed, Same-Adds, Same-refl, count-list_remove, count-list_push, Same-with_stats,
  detach-WellFormed, detach-Adds, list_push-WellFormed, list_push-Adds,
}

-- The two halves of a block.
pub lower_Fits : {count p n : ℕ} → Fits count p (suc n) → Fits count p n
lower_Fits {count} {p} {n} f = record {
  index = 2 * f.index;
  aligned = omega (arith, f.aligned, ap (λ (t : ℕ). f.index * t) (pow_double n));
  within = omega (arith, f.within, pow_double n);
  legal = omega (arith, f.legal);
}

pub upper_Fits : {count p n : ℕ} → Fits count p (suc n) → Fits count (p + 2 ^ n) n
upper_Fits {count} {p} {n} f = record {
  index = 2 * f.index + 1;
  aligned = omega (arith, f.aligned, ap (λ (t : ℕ). f.index * t) (pow_double n));
  within = omega (arith, f.within, pow_double n);
  legal = omega (arith, f.legal);
}

halves : (p n q : ℕ) → InBlock p (suc n) q → InBlock p n q ⊎ InBlock (p + 2 ^ n) n q
halves p n q i = ground (arith, pow_double n)

-- `t` is well formed, and has the frames of the block free that `s` lacks.
pub record Lacks (p o : ℕ) (z : Zone) (s t : Pmm) : Type 0 where
  pub good : WellFormed s
  pub fit : Fits s.pfn_count p o
  pub zone : zone_at p ≡ z
  pub gap : Adds (InBlock p o) s t

module _ (p n : ℕ) (z : Zone) (s t : Pmm) (l : Lacks p (suc n) z s t) where
  zone_upper : zone_at (p + 2 ^ n) ≡ z
  zone_upper =
      zone_of_block (p + 2 ^ n) l.fit l.good.small
        (omega arith, omega (arith, pow_double n, one-le-pow n))
      ∙ l.zone

  fresh_upper : (q : ℕ) → InBlock (p + 2 ^ n) n q → ¬ Covered s q
  fresh_upper q i = l.gap.fresh q (omega arith, omega (arith, pow_double n))

  give_upper :
      Lacks p n z
        (with_stats
          (list_push s z n (p + 2 ^ n))
          (stats_add (list_push s z n (p + 2 ^ n)).stats z n))
        t
  give_upper = record {
    good =
        Same-WellFormed (Same-with_stats _ _)
          (list_push-WellFormed l.good z (p + 2 ^ n) n (upper_Fits l.fit) zone_upper fresh_upper);
    fit = rw (count-list_push s z n (p + 2 ^ n)) (lower_Fits l.fit);
    zone = l.zone;
    gap = Same-Adds (Same-with_stats _ _) (Same-refl t) (
        Adds-between {A = InBlock p n} {B = InBlock (p + 2 ^ n) n} {C = InBlock p (suc n)} {s = s}
          {t = t} (λ q i. halves p n q i) (λ q i. (i.0, omega (arith, pow_double n)))
          (λ q i. (omega arith, omega (arith, pow_double n))) (λ q i j. omega arith) l.gap
          (list_push-Adds l.good z (p + 2 ^ n) n (upper_Fits l.fit) zone_upper fresh_upper));
  }

-- The word addition in the code does not wrap.
buddy_word : (p n : ℕ) (z : Zone) (s t : Pmm) → Lacks p (suc n) z s t → add64 p (2 ^ n) ≡ p + 2 ^ n
buddy_word p n z s t l = omega (arith, l.fit.within, l.good.small, pow_double n)

-- The whole loop that splits a block leaves a gap of the order asked for.
split-Lacks :
    (z : Zone) (p order k : ℕ) (s t : Pmm)
    → Lacks p (order + k) z s t
    → Lacks p order z (split s z p order k) t
unfolding split
split-Lacks z p order zero s t l = subst (λ n. Lacks p n z s t) (add-zero order) l
split-Lacks z p order (suc k) s t l =
    let l' = subst (λ n. Lacks p n z s t) (add-suc order k) l in
    split-Lacks z p order k _ t
      (rw (buddy_word p (order + k) z s t l') (give_upper p (order + k) z s t l'))

-- The first block on the list of a zone and an order.
head_marked :
    {s : Pmm} (v : WellFormed s) (z : Zone) (o : ℕ) {p : ℕ}
    → s.free_list_head z o ≡ some p
    → (mark s p ≡ some o) × (zone_at p ≡ z)
head_marked {s} v z o {p} e = v.holds.listed z o p (
    head-mem s.pfn_table none (s.free_list_head z o) (v.lists z o) p (v.holds.chain z o)
      (rw e (==_refl p)))

abbrev reserve : Pmm → ℕ → ℕ → Pmm
reserve s p order = set_order (set_free s p false) p order

-- The last two writes of an allocation change no mark: the frame is no longer that of a free block.
Same-reserve : (s : Pmm) (p order : ℕ) → mark s p ≡ none → Same s (reserve s p order)
Same-reserve s p order e = record {
  marks = λ q. ground (arith, e);
  nexts = λ q. ground arith;
  prevs = λ q. ground arith;
  heads = λ z o. refl;
  count = refl;
}

pub unmarked : (s : Pmm) (p o : ℕ) → ((q : ℕ) → InBlock p o q → ¬ Covered s q) → mark s p ≡ none
unmarked s p o fresh = elim (Option-cases (mark s p)) [
  | inl e ↦ e
  | inr (k, e) ↦
      absurd
        (fresh p (omega (arith, one-le-pow o)) (p, k, e, omega arith, omega (arith, one-le-pow k)))
]

reserve-Lacks : (p o : ℕ) (z : Zone) (s t : Pmm) → Lacks p o z s t → Lacks p o z (reserve s p o) t
reserve-Lacks p o z s t l =
    let same = Same-reserve s p o (unmarked s p o l.gap.fresh) in
    record {
      good = Same-WellFormed same l.good;
      fit = l.fit;
      zone = l.zone;
      gap = Same-Adds same (Same-refl t) l.gap;
    }

-- Popping a block leaves a gap of its order.
pop-Lacks :
    {s : Pmm} (v : WellFormed s) (z : Zone) (o p : ℕ) (st : Stats)
    → s.free_list_head z o ≡ some p
    → Lacks p o z (with_stats (detach s p) st) s
pop-Lacks {s} v z o p st e =
    let (m, zone) = head_marked v z o e in
    record {
      good = Same-WellFormed (Same-with_stats _ st) (detach-WellFormed v p o m);
      fit = rw (count-list_remove s p) (v.fits p o m);
      zone = zone;
      gap = Same-Adds (Same-with_stats _ st) (Same-refl s) (detach-Adds v p o m);
    }

take_block-Lacks :
    {s : Pmm} (v : WellFormed s) (z : Zone) (order o p : ℕ)
    → order ≤ o
    → s.free_list_head z o ≡ some p
    → Lacks p order z (take_block s z order o).0 s × ((take_block s z order o).1 ≡ some p)
unfolding cut_block
take_block-Lacks {s} v z order o p h e = rw (take_block-eq s z order o p e) (
  reserve-Lacks p order z (split u z p order (o - order)) s (
      split-Lacks z p order (o - order) u s (
        subst (λ n. Lacks p n z u s) gap (pop-Lacks v z o p (stats_sub (detach s p).stats z o) e))),
  refl,
)
  where
    gap : o ≡ order + (o - order)
    gap = omega arith

    u : Pmm
    u = with_stats (detach s p) (stats_sub (detach s p).stats z o)

-- A search in one zone, at the order that `seek` finds.
pub alloc_from-Lacks :
    {s : Pmm} (v : WellFormed s) (z : Zone) (order : ℕ) {t : Pmm} {r : Option ℕ}
    → order < 11
    → alloc_from s z order ≡ some (t, r)
    → (p : ℕ) × (r ≡ some p) × Lacks p order z t s
unfolding alloc_from
alloc_from-Lacks {s} v z order {t} {r} h e = elim (Bool-cases (ltb o max_order)) [
  | inl e1 ↦
      let (p, found) = seek_found head (max_order - order) order (ground arith) in
      let (lacks, at) =
        take_block-Lacks v z order o p (seek_bounds head (max_order - order) order).0 found in
      let same : take_block s z order o ≡ (t, r) = ground arith in
      (p, ap (λ x. x.1) (sym same) ∙ at, subst (λ x. Lacks p order z x.0 s) same lacks)
  | inr e1 ↦ ground arith
]
  where
    head : ℕ → Option ℕ
    head = s.free_list_head z

    o : ℕ
    o = seek head (max_order - order) order

-- The address of a block in the table is its frame number times the page size.
pub pa_of_block : {count p o : ℕ} → Fits count p o → count ≤ 2 ^ 52 → pfn_to_pa p ≡ p * 2 ^ 12
unfolding pfn_to_pa
pa_of_block {o = o} f h = omega (arith, f.within, one-le-pow o)
