-- ===== src/Mm/Pmm/Alloc.antt =====
-- kernel/mm/pmm.c: allocation. Every entry point runs under `pmm_lock` with interrupts off, so it is
-- one step here. Addresses are 0 on failure.
use jnu.Base.{
  ℕ, zero, suc, ◌+◌, ◌-◌, ◌^◌, Bool, true, false, Option, none, some, ltb, leb, ◌==◌, if◌then◌else◌,
  add64,
}
use jnu.Mm.Pmm.{
  Pmm, Zone, dma, normal, max_order, pfn_to_pa, pa_to_pfn, set_free, set_order, set_refcount,
  list_push, list_pop, stats_add, stats_sub, with_stats,
}

abbrev pub is_none : Option ℕ → Bool
is_none none = true
is_none (some x) = false

-- `while (o < PMM_MAX_ORDER && free_list_head[z][o] == NO_LINK) o++` with `n` orders left.
unfoldable pub seek : (ℕ → Option ℕ) → ℕ → ℕ → ℕ
seek head zero o = o
seek head (suc n) o = let later = seek head n (suc o) in if is_none (head o) then later else o

-- `while (o > order)`, with `o = order + k`: the upper half of the block goes back to a free list.
unfoldable pub split : Pmm → Zone → ℕ → ℕ → ℕ → Pmm
split s z pfn order zero = s
split s z pfn order (suc k) =
    let o = order + k in
    let t = list_push s z o (add64 pfn (2 ^ o)) in
    split (with_stats t (stats_add t.stats z o)) z pfn order k

-- What is done with a popped block of order `o`.
unfoldable pub cut_block : Zone → ℕ → ℕ → Pmm × Option ℕ → Pmm × Option ℕ
cut_block z order o (t, none) = (with_stats t (stats_sub t.stats z o), none)
cut_block z order o (t, some pfn) =
    let u = with_stats t (stats_sub t.stats z o) in
    (set_order (set_free (split u z pfn order (o - order)) pfn false) pfn order, some pfn)

-- The body of the loop over the zones, once a block of order `o` is known to be there.
unfoldable pub take_block : Pmm → Zone → ℕ → ℕ → Pmm × Option ℕ
unfolding cut_block
take_block s z order o = cut_block z order o (list_pop s z o)

-- One zone: the smallest order that has a block, from `order` on.
unfoldable pub alloc_from : Pmm → Zone → ℕ → Option (Pmm × Option ℕ)
alloc_from s z order =
    let o = seek (s.free_list_head z) (max_order - order) order in
    if ltb o max_order then some (take_block s z order o) else none

abbrev pub to_pa : Pmm × Option ℕ → Pmm × ℕ
to_pa (s, none) = (s, 0)
to_pa (s, some pfn) = (s, pfn_to_pa pfn)

-- `ZONE_NORMAL` first, then `ZONE_DMA`.
unfoldable pub alloc_pages_locked : Pmm → ℕ → Pmm × ℕ
alloc_pages_locked s order =
    if leb max_order order then (s, 0) else elim (alloc_from s normal order) [
      | some r ↦ to_pa r
      | none ↦ elim (alloc_from s dma order) [ some r ↦ to_pa r | none ↦ (s, 0) ]
    ]

unfoldable pub alloc_pages : Pmm → ℕ → Pmm × ℕ
alloc_pages s order = alloc_pages_locked s order

unfoldable pub alloc_zeroed_pages : Pmm → ℕ → Pmm × ℕ
alloc_zeroed_pages s order = alloc_pages s order

-- A user page starts with one reference.
unfoldable pub alloc_user_page : Pmm → Pmm × ℕ
alloc_user_page s =
    let (t, pa) = alloc_pages_locked s 0 in
    if pa == 0 then (t, pa) else (set_refcount t (pa_to_pfn pa) 1, pa)

-- Never takes from `ZONE_NORMAL`.
unfoldable pub alloc_dma : Pmm → ℕ → Pmm × ℕ
alloc_dma s order = elim (alloc_from s dma order) [ some r ↦ to_pa r | none ↦ (s, 0) ]
