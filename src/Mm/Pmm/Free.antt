-- ===== src/Mm/Pmm/Free.antt =====
-- kernel/mm/pmm.c: freeing with coalescing of buddies.
use Prim.Native.Nat.{bit_xor}
use jnu.Base.{
  ℕ, zero, suc, ◌+◌, ◌-◌, ◌^◌, ◌%◌, Bool, false, not, ltb, leb, ◌==◌, ◌&&◌, if◌then◌else◌, Run,
  done, panic, min,
}
use jnu.Mm.Pmm.{
  Pmm, Zone, same_zone, max_order, pfn_to_pa, pa_to_pfn, zone_of, set_free, list_remove, list_push,
  stats_add, stats_sub, with_stats,
}

unfoldable pub buddy_pfn : ℕ → ℕ → ℕ
buddy_pfn pfn order = bit_xor pfn (2 ^ order)

-- The four conditions under which the loop goes on, in the order of the code.
unfoldable pub can_merge : Pmm → Zone → ℕ → ℕ → Bool
can_merge s z bpfn order =
    not (leb s.pfn_count bpfn)
    && (s.pfn_table bpfn).free
    && ((s.pfn_table bpfn).order == order)
    && same_zone (zone_of (pfn_to_pa bpfn)) z

-- Takes the buddy off its list.
unfoldable pub absorb : Pmm → Zone → ℕ → ℕ → Pmm
absorb s z bpfn order =
    let t = list_remove s bpfn in set_free (with_stats t (stats_sub t.stats z order)) bpfn false

unfoldable pub put_block : Pmm → Zone → ℕ → ℕ → Pmm
put_block s z order pfn =
    let t = list_push s z order pfn in with_stats t (stats_add t.stats z order)

-- `while (order + 1 < PMM_MAX_ORDER)` with `n` rounds left at most, and the push behind the loop.
unfoldable pub coalesce : ℕ → Pmm → Zone → ℕ → ℕ → Pmm
coalesce zero s z order pfn = put_block s z order pfn
coalesce (suc n) s z order pfn =
    let bpfn = buddy_pfn pfn order in
    let merged = coalesce n (absorb s z bpfn order) z (suc order) (min bpfn pfn) in
    if can_merge s z bpfn order then merged else put_block s z order pfn

unfoldable pub free_pages_locked : Pmm → ℕ → ℕ → Pmm
free_pages_locked s pa order = coalesce (max_order - suc order) s (zone_of pa) order (pa_to_pfn pa)

-- Panics on a bad order, a misaligned address, a frame out of range, and a double free.
unfoldable pub free_validate_locked : Pmm → ℕ → ℕ → Bool
free_validate_locked s pa order =
    ltb order max_order
    && (pa % 2 ^ (12 + order) == 0)
    && ltb (pa_to_pfn pa) s.pfn_count
    && not (s.pfn_table (pa_to_pfn pa)).free

-- `memset(phys_to_virt(pa), 0, size)`
unfoldable pub clear : Pmm → ℕ → ℕ → Pmm
clear s pa size = record s { memory = λ a. if leb pa a && ltb a (pa + size) then 0 else s.memory a }

unfoldable pub free_pages : Pmm → ℕ → ℕ → Run Pmm
free_pages s pa order =
    if free_validate_locked s pa order
    then done (free_pages_locked (clear s pa (2 ^ (12 + order))) pa order)
    else panic
