-- ===== src/Mm/Pmm/Zeroed.antt =====
-- kernel/mm/pmm.c: what the pages on the free lists contain.
use jnu.Base.{
  ℕ, zero, suc, ◌+◌, ◌-◌, ◌*◌, ◌/◌, ◌^◌, ◌≤◌, ◌<◌, ◌≡◌, refl, sym, ap, subst, ◌∙◌, ◌⊎◌, inl, inr,
  Bool, Option, none, some, ltb, leb, ◌&&◌, if◌then◌else◌, arith, Bool-cases, Option-cases, done,
  pow_add,
}
use jnu.Mm.Pmm.{
  Pmm, Zone, dma, normal, max_order, list_remove, list_push, list_pop, pa_to_pfn, zone_of,
}
use jnu.Mm.Pmm.Alloc.{
  split, seek, cut_block, take_block, alloc_from, alloc_pages_locked, alloc_pages, to_pa,
}
use jnu.Mm.Pmm.Free.{
  absorb, put_block, coalesce, can_merge, buddy_pfn, clear, free_pages_locked, free_pages,
  free_validate_locked,
}
use jnu.Mm.Pmm.Blocks.{InBlock, Covered, Fits, WellFormed, Adds}
use jnu.Mm.Pmm.Blocks.Results.{gave, refused, alloc_pages-Outcome}
use jnu.Mm.Pmm.Blocks.FreePages.{free_pages-Freed}

-- Every byte of every free frame is 0.
abbrev pub Zeroed : Pmm → Type 0
Zeroed s = (a : ℕ) → Covered s (a / 2 ^ 12) → s.memory a ≡ 0

memory-list_push : (s : Pmm) (z : Zone) (o p : ℕ) → (list_push s z o p).memory ≡ s.memory
unfolding list_push
memory-list_push s z o p = ground arith

memory-list_remove : (s : Pmm) (p : ℕ) → (list_remove s p).memory ≡ s.memory
unfolding list_remove
memory-list_remove s p = ground arith

memory-split : (z : Zone) (p order k : ℕ) (s : Pmm) → (split s z p order k).memory ≡ s.memory
unfolding split
memory-split z p order zero s = refl
memory-split z p order (suc k) s = memory-split z p order k _ ∙ memory-list_push s z (order + k) _

memory-list_pop : (s : Pmm) (z : Zone) (o : ℕ) → (list_pop s z o).0.memory ≡ s.memory
unfolding list_pop
memory-list_pop s z o = elim (Option-cases (s.free_list_head z o)) [
  | inl e ↦ rw (e, list_pop)
  | inr (p, e) ↦ rw (e, list_pop) (memory-list_remove s p)
]

memory-cut_block :
    (z : Zone) (order o : ℕ) (r : Pmm × Option ℕ) → (cut_block z order o r).0.memory ≡ r.0.memory
unfolding cut_block
memory-cut_block z order o (t, none) = refl
memory-cut_block z order o (t, some p) = memory-split z p order (o - order) _

memory-alloc_from :
    (s : Pmm) (z : Zone) (order : ℕ) {r : Pmm × Option ℕ}
    → alloc_from s z order ≡ some r
    → r.0.memory ≡ s.memory
unfolding alloc_from take_block
memory-alloc_from s z order {r} e = elim (Bool-cases (ltb o max_order)) [
  | inl l ↦
      let same : cut_block z order o (list_pop s z o) ≡ r = ground arith in
      ap {B = ℕ → ℕ} (λ (x : Pmm × Option ℕ). x.0.memory) (sym same)
      ∙ memory-cut_block z order o (list_pop s z o)
      ∙ memory-list_pop s z o
  | inr l ↦ ground arith
]
  where
    o : ℕ
    o = seek (s.free_list_head z) (max_order - order) order

memory-to_pa : (r : Pmm × Option ℕ) → (to_pa r).0.memory ≡ r.0.memory
memory-to_pa (t, none) = refl
memory-to_pa (t, some p) = refl

memory-alloc_pages : (s : Pmm) (order : ℕ) → (alloc_pages s order).0.memory ≡ s.memory
unfolding alloc_pages alloc_pages_locked
memory-alloc_pages s order = elim (Bool-cases (leb max_order order)) [
  | inl big ↦ rw big
  | inr small ↦ rw small (elim (Option-cases (alloc_from s normal order)) [
    | inl e ↦
        rw (e, alloc_pages_locked)
          (elim (Option-cases (alloc_from s dma order)) [
            | inl e' ↦ rw (e', alloc_pages_locked)
            | inr (r, e') ↦
                rw (e', alloc_pages_locked) (memory-to_pa r ∙ memory-alloc_from s dma order e')
          ])
    | inr (r, e) ↦ rw (e, alloc_pages_locked) (memory-to_pa r ∙ memory-alloc_from s normal order e)
  ])
]

memory-coalesce : (n : ℕ) (s : Pmm) (z : Zone) (o p : ℕ) → (coalesce n s z o p).memory ≡ s.memory
unfolding coalesce put_block absorb
memory-coalesce zero s z o p = memory-list_push s z o p
memory-coalesce (suc n) s z o p = elim (Bool-cases (can_merge s z (buddy_pfn p o) o)) [
  | inl e ↦ rw e (memory-coalesce n _ z (suc o) _ ∙ memory-list_remove s (buddy_pfn p o))
  | inr e ↦ rw e (memory-list_push s z o p)
]

memory-free_pages :
    (s : Pmm) (pa order : ℕ) {t : Pmm}
    → free_pages s pa order ≡ done t
    → t.memory ≡ (clear s pa (2 ^ (12 + order))).memory
unfolding free_pages free_pages_locked
memory-free_pages s pa order {t} e = elim (Bool-cases (free_validate_locked s pa order)) [
  | inl v ↦
      let same : free_pages_locked (clear s pa (2 ^ (12 + order))) pa order ≡ t = ground arith in
      ap {B = ℕ → ℕ} (λ (x : Pmm). x.memory) (sym same)
      ∙ memory-coalesce (max_order - suc order) _ (zone_of pa) order (pa_to_pfn pa)
  | inr v ↦ ground arith
]

-- If the allocator is well formed and every byte of a free frame is 0, then so it is after
-- `pmm_alloc_pages`, which either returns 0 and changes nothing or returns pages of which every
-- byte is 0.
pub alloc_pages-Zeroed :
    {s : Pmm} (order : ℕ)
    → WellFormed s
    → Zeroed s
    → Zeroed (alloc_pages s order).0
      × ((alloc_pages s order ≡ (s, 0))
          ⊎ ((a : ℕ)
              → (alloc_pages s order).1 ≤ a
              → a < (alloc_pages s order).1 + 2 ^ (12 + order)
              → (alloc_pages s order).0.memory a ≡ 0))
alloc_pages-Zeroed {s} order v zeroed = elim (alloc_pages-Outcome order v) [
  | gave p z _ at lacks ↦ (
    λ a c. same a ∙ zeroed a (lacks.gap.keeps _ c),
    inr λ a lo hi. same a ∙ zeroed a (lacks.gap.gains (a / 2 ^ 12) (in_block p at a lo hi)),
  )
  | refused e _ ↦ (λ a c. same a ∙ zeroed a (subst (λ r. Covered r.0 (a / 2 ^ 12)) e c), inl e)
]
  where
    same : (a : ℕ) → (alloc_pages s order).0.memory a ≡ s.memory a
    same a = ap (λ (f : ℕ → ℕ). f a) (memory-alloc_pages s order)

    in_block :
        (p : ℕ)
        → (alloc_pages s order).1 ≡ p * 2 ^ 12
        → (a : ℕ) → (alloc_pages s order).1 ≤ a
        → a < (alloc_pages s order).1 + 2 ^ (12 + order)
        → InBlock p order (a / 2 ^ 12)
    in_block p at a lo hi = omega (arith, pow_add 12 order)

-- If the allocator is well formed, every byte of a free frame is 0, and `pmm_free_pages` of a
-- block that fits and of which no frame is free returns, then every byte of a free frame is 0
-- afterwards.
pub free_pages-Zeroed :
    {s : Pmm} (p order : ℕ) {t : Pmm}
    → WellFormed s
    → Fits s.pfn_count p order
    → ((q : ℕ) → InBlock p order q → ¬ Covered s q)
    → free_pages s (p * 2 ^ 12) order ≡ done t
    → Zeroed s
    → Zeroed t
unfolding clear
free_pages-Zeroed {s} p order {t} v fit fresh e zeroed a c = elim (Bool-cases (in_range a)) [
  | inl i ↦ memory a ∙ rw i
  | inr o ↦ elim ((adds t (cc (e, freed.1))).only (a / 2 ^ 12) c) [
    | inl k ↦ memory a ∙ rw o (zeroed a k)
    | inr k ↦ absurd (ground (arith, o, k, pow_add 12 order))
  ]
]
  where
    freed :
        (u : Pmm) × (free_pages s (p * 2 ^ 12) order ≡ done u)
        × WellFormed u
        × Adds (InBlock p order) s u
    freed = free_pages-Freed p order v fit fresh

    adds : (u : Pmm) → u ≡ freed.0 → Adds (InBlock p order) s u
    adds u same = subst (λ x. Adds (InBlock p order) s x) (sym same) freed.3

    in_range : ℕ → Bool
    in_range a = leb (p * 2 ^ 12) a && ltb a (p * 2 ^ 12 + 2 ^ (12 + order))

    memory : (a : ℕ) → t.memory a ≡ (if in_range a then 0 else s.memory a)
    memory a = ap (λ (f : ℕ → ℕ). f a) (memory-free_pages s (p * 2 ^ 12) order e)
