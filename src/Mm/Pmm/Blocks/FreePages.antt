-- ===== src/Mm/Pmm/Blocks/FreePages.antt =====
-- kernel/mm/pmm.c: what a call of `pmm_free_pages` does.
use jnu.Base.{
  ℕ, suc, ◌+◌, ◌-◌, ◌*◌, ◌%◌, ◌^◌, ◌≡◌, refl, ap, ◌∙◌, true, false, arith, one-le-pow, pow_add,
  done,
}
use jnu.Mm.Pmm.{Pmm, max_order, zone_of, pfn_to_pa, pa_to_pfn}
use jnu.Mm.Pmm.Free.{free_pages_locked, free_pages, free_validate_locked, clear}
use jnu.Mm.Pmm.Blocks.{InBlock, Covered, Fits, WellFormed, Adds}
use native.Mathlib.Nat.{mul-mod_left}
use jnu.Mm.Pmm.Blocks.Allocate.{unmarked, pa_of_block}
use jnu.Mm.Pmm.Blocks.Moves.{Same, Same-WellFormed, Same-Adds, Same-Covered, Same-refl, Same-sym}
use jnu.Mm.Pmm.Blocks.Release.{Ready, coalesce-Freed}

-- Clearing memory changes no block.
Same-clear : (s : Pmm) (pa size : ℕ) → Same s (clear s pa size)
unfolding clear
Same-clear s pa size = record {
  marks = λ q. refl;
  nexts = λ q. refl;
  prevs = λ q. refl;
  heads = λ z o. refl;
  count = refl;
}

module _ {s : Pmm} (p order : ℕ) (v : WellFormed s) (fit : Fits s.pfn_count p order)
    (fresh : (q : ℕ) → InBlock p order q → ¬ Covered s q) where
  address : pfn_to_pa p ≡ p * 2 ^ 12
  address = pa_of_block fit v.small

  frame : pa_to_pfn (p * 2 ^ 12) ≡ p
  unfolding pa_to_pfn
  frame = omega arith

  aligned_pa : p * 2 ^ 12 % 2 ^ (12 + order) ≡ 0
  aligned_pa =
      let product : p * 2 ^ 12 ≡ fit.index * 2 ^ (12 + order) = omega (
        arith,
        ap (λ (t : ℕ). t * 2 ^ 12) fit.aligned,
        ap (λ (t : ℕ). fit.index * t) (pow_add 12 order),
      ) in
      ap (λ (t : ℕ). t % 2 ^ (12 + order)) product ∙ mul-mod_left fit.index (2 ^ (12 + order))

  not_free : (s.pfn_table p).free ≡ false
  not_free = ground (arith, unmarked s p order fresh)

  accepted : free_validate_locked s (p * 2 ^ 12) order ≡ true
  unfolding free_validate_locked
  accepted =
      rw (frame, not_free, aligned_pa) (ground (arith, fit.legal, fit.within, one-le-pow order))

  -- In a well-formed allocator, `pmm_free_pages` of a block that fits (of a legal order, at a
  -- multiple of its size, within the table) and of which no frame is free does not panic; the
  -- allocator is well formed afterwards, and has the frames of the block free besides those
  -- that were, and no others, whatever buddies it merged with.
  pub free_pages-Freed :
      (t : Pmm) × (free_pages s (p * 2 ^ 12) order ≡ done t)
      × WellFormed t
      × Adds (InBlock p order) s t
  unfolding free_pages free_pages_locked clear
  free_pages-Freed =
      let same = Same-clear s (p * 2 ^ 12) (2 ^ (12 + order)) in
      let ready : Ready (clear s (p * 2 ^ 12) (2 ^ (12 + order))) (zone_of (p * 2 ^ 12)) p order =
        record {
          good = Same-WellFormed same v;
          fit = fit;
          zone = ap zone_of address;
          fresh = λ q i k. fresh q i ((Same-Covered same q).1 k);
        } in
      let freed =
        coalesce-Freed (max_order - suc order) _ (zone_of (p * 2 ^ 12)) order p
          (omega (arith, fit.legal)) ready in
      (_, rw (accepted, frame) refl, freed.good, Same-Adds (Same-sym same) (Same-refl _) freed.more)
