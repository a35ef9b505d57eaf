-- ===== src/Mm/Pmm/Register.antt =====
-- kernel/mm/pmm.c: how `pmm_init` puts usable memory on the free lists.
use jnu.Base.{ℕ, zero, suc, ◌+◌, ◌-◌, ◌^◌, ◌%◌, ◌&&◌, ltb, leb, ◌==◌, if◌then◌else◌, add64}
use jnu.Mm.Pmm.{Pmm, at_zone, max_order, pfn_to_pa, pa_to_pfn, zone_of, with_stats}
use jnu.Mm.Pmm.Free.{clear, put_block}

unfoldable pub register_block : Pmm → ℕ → ℕ → Pmm
register_block s pfn order =
    let z = zone_of (pfn_to_pa pfn) in
    let t = put_block (clear s (pfn_to_pa pfn) (2 ^ (12 + order))) z order pfn in
    with_stats t (record t.stats {
      zone_total = at_zone t.stats.zone_total z (add64 (t.stats.zone_total z) (2 ^ order));
    })

-- The largest order at which a block is aligned and ends in range, with `n` rounds left.
unfoldable pub grow : ℕ → ℕ → ℕ → ℕ → ℕ
grow zero start end order = order
grow (suc n) start end order =
    let more = grow n start end (suc order) in
    if (start % 2 ^ suc order == 0) && leb (add64 start (2 ^ suc order)) end then more else order

-- The loop over the blocks of a range of frames, with `n` rounds left.
unfoldable pub register_frames : ℕ → Pmm → ℕ → ℕ → Pmm
register_frames zero s start end = s
register_frames (suc n) s start end =
    let order = grow (max_order - 1) start end 0 in
    let rest = register_frames n (register_block s start order) (add64 start (2 ^ order)) end in
    if ltb start end then rest else s

-- The range of addresses is cut to whole frames; each round takes at least one of them.
unfoldable pub register_range : Pmm → ℕ → ℕ → Pmm
register_range s start_pa end_pa =
    let start = pa_to_pfn (add64 start_pa 4095) in
    let end = pa_to_pfn end_pa in register_frames (end - start) s start end
