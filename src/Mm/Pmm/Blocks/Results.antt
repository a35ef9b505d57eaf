-- ===== src/Mm/Pmm/Blocks/Results.antt =====
-- kernel/mm/pmm.c: what `pmm_alloc_pages` and `pmm_alloc_dma` return.
use jnu.Base.{
  ℕ, zero, suc, ◌+◌, ◌-◌, ◌*◌, ◌^◌, ◌≤◌, ◌<◌, ◌≡◌, refl, sym, ap, subst, ◌∙◌, inl, inr, true,
  Option, none, some, List, [], ◌∷◌, ltb, leb, ◌==◌, arith, mem, Bool-cases, Option-cases,
}
use jnu.Mm.Pmm.{Pmm, Zone, dma, normal, max_order, pfn_to_pa}
use jnu.Mm.Pmm.Alloc.{seek, alloc_from, alloc_pages_locked, alloc_pages, alloc_dma, to_pa, is_none}
use jnu.Mm.Pmm.Links.{Chain}
use jnu.Mm.Pmm.Lists.{mark, zone_at}
use jnu.Mm.Pmm.Blocks.{WellFormed}
use jnu.Mm.Pmm.Blocks.Allocate.{Lacks, alloc_from-Lacks, pa_of_block}

-- A search that runs out has passed over empty lists only.
seek_all :
    (head : ℕ → Option ℕ) (n o k : ℕ) → o + n ≤ seek head n o → o ≤ k → k < o + n → head k ≡ none
unfolding seek
seek_all head zero o k h i j = absurd (omega arith)
seek_all head (suc n) o k h i j = elim (Bool-cases (is_none (head o))) [
  | inl e ↦ elim (Bool-cases (o == k)) [
    | inl same ↦ subst (λ a. head a ≡ none) (ground arith) (none_of (head o) e)
    | inr ne ↦ seek_all head n (suc o) k (ground arith) (ground arith) (omega arith)
  ]
  | inr e ↦ ground arith
]
  where
    none_of : (x : Option ℕ) → is_none x ≡ true → x ≡ none
    none_of none h = refl
    none_of (some a) h = cc

-- No block of a legal order from `order` on is free in zone `z`.
abbrev pub NoBlock : Pmm → Zone → ℕ → Type 0
NoBlock s z order = (p o : ℕ) → mark s p ≡ some o → zone_at p ≡ z → o < order

alloc_from-none :
    {s : Pmm} (v : WellFormed s) (z : Zone) (order : ℕ)
    → order < 11
    → alloc_from s z order ≡ none
    → NoBlock s z order
unfolding alloc_from
alloc_from-none {s} v z order h e p o m zone = elim (Bool-cases (ltb o order)) [
  | inl small ↦ ground arith
  | inr large ↦
      let empty =
        seek_all (s.free_list_head z) (max_order - order) order o (ground arith) (ground arith)
          (omega (arith, (v.fits p o m).legal)) in
      absurd (
        no_member (v.lists z o)
          (subst (λ y. mem p (v.lists y o) ≡ true) zone (v.holds.complete p o m))
          (subst (λ b. Chain s.pfn_table none b (v.lists z o)) empty (v.holds.chain z o)))
]
  where
    no_member : (xs : List ℕ) → mem p xs ≡ true → Chain s.pfn_table none none xs → ⊥
    no_member [] n c = cc
    no_member (x ∷ xs) n c = cc

-- What an allocator may do: hand out a block that was free, whole and aligned, and nothing else; or
-- fail, which it does only if no zone it may use has a free block that is large enough.
pub data Outcome (s : Pmm) (order : ℕ) (May : Zone → Type 0) (r : Pmm × ℕ) : Type 0 where
  gave :
      (p : ℕ) (z : Zone) → May z → r.1 ≡ p * 2 ^ 12 → Lacks p order z r.0 s → Outcome s order May r
  refused :
      r ≡ (s, 0) → ((z : Zone) → May z → order < 11 → NoBlock s z order) → Outcome s order May r

abbrev pub AnyZone : Zone → Type 0
AnyZone z = Unit {0}

abbrev pub OnlyDma : Zone → Type 0
OnlyDma z = z ≡ dma

gave_from :
    {s : Pmm} (v : WellFormed s) (May : Zone → Type 0) (z : Zone) (order : ℕ) (t : Pmm)
    (r : Option ℕ)
    → order < 11
    → May z
    → alloc_from s z order ≡ some (t, r)
    → Outcome s order May (to_pa (t, r))
gave_from v May z order t none h may e = let (p, e', lacks) = alloc_from-Lacks v z order h e in cc
gave_from v May z order t (some q) h may e =
    let (p, e', lacks) = alloc_from-Lacks v z order h e in
    let same : q ≡ p = ground (arith, e') in
    gave p z may (ap pfn_to_pa same ∙ pa_of_block lacks.fit lacks.good.small) lacks

-- In a well-formed allocator, `pmm_alloc_pages` either returns the address of a block of either
-- zone that fits and was free, with the allocator well formed afterwards and exactly the frames
-- of that block no longer free; or returns 0 and changes nothing, and then, if the order is
-- legal, neither zone has a free block of that order or a larger one.
pub alloc_pages-Outcome :
    {s : Pmm} (order : ℕ) → WellFormed s → Outcome s order AnyZone (alloc_pages s order)
unfolding alloc_pages alloc_pages_locked
alloc_pages-Outcome {s} order v = elim (Bool-cases (leb max_order order)) [
  | inl big ↦ rw big (refused refl (λ z _ h. ground arith))
  | inr small ↦ rw small (elim (Option-cases (alloc_from s normal order)) [
    | inl e ↦
        rw (e, alloc_pages_locked)
          (elim (Option-cases (alloc_from s dma order)) [
            | inl e' ↦ rw (e', alloc_pages_locked) (refused refl (λ z _ h. neither e e' h z))
            | inr ((t, r), e') ↦
                rw (e', alloc_pages_locked) (gave_from v AnyZone dma order t r (ground arith) tt e')
          ])
    | inr ((t, r), e) ↦
        rw (e, alloc_pages_locked) (gave_from v AnyZone normal order t r (ground arith) tt e)
  ])
]
  where
    neither :
        alloc_from s normal order ≡ none
        → alloc_from s dma order ≡ none
        → order < 11
        → (z : Zone) → NoBlock s z order
    neither e e' h dma = alloc_from-none v dma order h e'
    neither e e' h normal = alloc_from-none v normal order h e

-- In a well-formed allocator and for a legal order, `pmm_alloc_dma` either returns the address
-- of a block of the DMA zone that fits and was free, with the allocator well formed afterwards
-- and exactly the frames of that block no longer free; or returns 0 and changes nothing, and
-- then that zone has no free block of that order or a larger one.
pub alloc_dma-Outcome :
    {s : Pmm} (order : ℕ) → order < 11 → WellFormed s → Outcome s order OnlyDma (alloc_dma s order)
unfolding alloc_dma
alloc_dma-Outcome {s} order h v = elim (Option-cases (alloc_from s dma order)) [
  | inl e ↦
      rw (e, alloc_dma)
        (refused refl (λ z is_dma k.
          subst (λ y. NoBlock s y order) (sym is_dma) (alloc_from-none v dma order k e)))
  | inr ((t, r), e) ↦ rw (e, alloc_dma) (gave_from v OnlyDma dma order t r h refl e)
]
