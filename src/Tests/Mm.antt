-- ===== src/Tests/Mm.antt =====
-- kernel/mm/pmm.c at a machine of four page frames.
use jnu.Base.{ℕ, true, ◌+◌, ◌*◌, ◌^◌, ◌≤◌, ◌<◌, ◌≡◌, refl, ◌⊎◌, false, none, [], done, arith}
use jnu.Mm.Pmm.{Pmm, dma, Stats, list_push, zone_of, pfn_to_pa, pa_to_pfn}
use jnu.Mm.Pmm.Alloc.{alloc_pages}
use jnu.Mm.Pmm.Free.{free_pages}
use jnu.Mm.Pmm.Refs.{user_page_ok, put_user_page}
use jnu.Mm.Pmm.Blocks.Pages.{put_user_page-Freed}
use jnu.Mm.Pmm.Lists.{Holds, Lists, zone_at, detach, with_block, without}
use jnu.Mm.Pmm.Lists.Push.{list_push-Holds}
use jnu.Mm.Pmm.Lists.Remove.{detach-Holds}
use jnu.Mm.Pmm.Blocks.{InBlock, Covered, Fits, WellFormed, Adds}
use jnu.Mm.Pmm.Blocks.FreePages.{free_pages-Freed}
use jnu.Mm.Pmm.Blocks.Results.{Outcome, AnyZone, alloc_pages-Outcome}
use jnu.Mm.Pmm.Zeroed.{Zeroed, alloc_pages-Zeroed, free_pages-Zeroed}

abbrev no_pages : Stats
no_pages = record {
  total_pages = 4;
  free_pages = 0;
  free_by_order = λ o. 0;
  zone_total = λ z. 4;
  zone_free = λ z. 0;
}

-- All four frames are in use.
abbrev four : Pmm
four = record {
  pfn_table = λ p. record { free = false; order = 0; refcount = 1; next = none; prev = none };
  pfn_count = 4;
  free_list_head = λ z o. none;
  stats = no_pages;
  mm_zero_page = 0;
  memory = λ a. 7;
}

four-WellFormed : WellFormed four
four-WellFormed = record {
  lists = λ z o. [];
  holds = record {
    chain = λ z o. refl;
    distinct = λ z o. tt;
    listed = λ z o p h. absurd (ground arith);
    complete = λ p o h. absurd (ground arith);
  };
  small = omega arith;
  fits = λ p o h. absurd (ground arith);
  disjoint = λ p o p' o' q h. absurd (ground arith);
}

four-used : (q : ℕ) → InBlock 2 1 q → ¬ Covered four q
four-used q i c = absurd (ground (arith, c.2))

upper : Fits 4 2 1
upper = record { index = 1; aligned = refl; within = omega arith; legal = omega arith }

-- The two upper frames are freed.
free_pages-Freed_example :
    (t : Pmm) × (free_pages four (2 * 2 ^ 12) 1 ≡ done t) × WellFormed t × Adds (InBlock 2 1) four t
free_pages-Freed_example = free_pages-Freed 2 1 four-WellFormed upper four-used

-- The allocator after that free.
abbrev freed :
    (t : Pmm) × (free_pages four (2 * 2 ^ 12) 1 ≡ done t) × WellFormed t × Adds (InBlock 2 1) four t
freed = free_pages-Freed 2 1 four-WellFormed upper four-used

abbrev half : Pmm
half = freed.0

alloc_pages-Outcome_example : Outcome half 0 AnyZone (alloc_pages half 0)
alloc_pages-Outcome_example = alloc_pages-Outcome 0 freed.2

four-Zeroed : Zeroed four
four-Zeroed a c = absurd (ground (arith, c.2))

free_pages-Zeroed_example : Zeroed half
free_pages-Zeroed_example =
    free_pages-Zeroed 2 1 four-WellFormed upper four-used freed.1 four-Zeroed

half-Zeroed : Zeroed half
half-Zeroed = free_pages-Zeroed 2 1 four-WellFormed upper four-used freed.1 four-Zeroed

alloc_pages-Zeroed_example :
    Zeroed (alloc_pages half 0).0
    × ((alloc_pages half 0 ≡ (half, 0))
        ⊎ ((a : ℕ)
            → (alloc_pages half 0).1 ≤ a
            → a < (alloc_pages half 0).1 + 2 ^ (12 + 0)
            → (alloc_pages half 0).0.memory a ≡ 0))
alloc_pages-Zeroed_example = alloc_pages-Zeroed 0 freed.2 half-Zeroed

zone_three : zone_at 3 ≡ dma
unfolding zone_of pfn_to_pa
zone_three = refl

list_push-Holds_example : Holds (list_push four dma 0 3) (with_block (λ z o. []) dma 0 3)
unfolding four-WellFormed
list_push-Holds_example = list_push-Holds four-WellFormed.holds dma 0 3 refl zone_three

abbrev three : Lists
three = with_block (λ z o. []) dma 0 3

detach-Holds_example : Holds (detach (list_push four dma 0 3) 3) (without three dma 0 3)
unfolding four-WellFormed
detach-Holds_example =
    detach-Holds (list_push-Holds four-WellFormed.holds dma 0 3 refl zone_three) dma 0 3 refl

two-used : ¬ Covered four 2
two-used c = absurd (ground (arith, c.2))

put_user_page-Freed_example :
    (t : Pmm) × (put_user_page four (2 * 2 ^ 12) ≡ done t)
    × WellFormed t
    × Adds (InBlock 2 0) four t
put_user_page-Freed_example =
    put_user_page-Freed 2 four-WellFormed (omega arith) two-used (λ e. absurd (omega (arith, e)))
      refl

two_ok : user_page_ok four 0x2000 ≡ true
unfolding user_page_ok pa_to_pfn
two_ok = refl
