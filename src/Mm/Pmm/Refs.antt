-- ===== src/Mm/Pmm/Refs.antt =====
-- kernel/mm/pmm.c: references to user pages.
use jnu.Base.{ℕ, ◌+◌, ◌-◌, Bool, not, ltb, leb, ◌==◌, ◌&&◌, if◌then◌else◌, Run, done, panic}
use jnu.Mm.Pmm.{Pmm, pa_to_pfn, set_refcount}
use jnu.Mm.Pmm.Free.{free_pages}

-- What both operations check before they look at the count: not the zero page, in range, not free.
unfoldable pub user_page_ok : Pmm → ℕ → Bool
user_page_ok s pa =
    not (pa == s.mm_zero_page)
    && ltb (pa_to_pfn pa) s.pfn_count
    && not (s.pfn_table (pa_to_pfn pa)).free

-- Panics at a count of 0, and before the 16-bit count would wrap.
unfoldable pub get_user_page : Pmm → ℕ → Run Pmm
get_user_page s pa =
    let count = (s.pfn_table (pa_to_pfn pa)).refcount in
    if user_page_ok s pa && not (count == 0) && not (count == 0xFFFF)
    then done (set_refcount s (pa_to_pfn pa) (count + 1))
    else panic

-- The last reference frees the page.
unfoldable pub put_user_page : Pmm → ℕ → Run Pmm
put_user_page s pa =
    let count = (s.pfn_table (pa_to_pfn pa)).refcount in
    let s' = set_refcount s (pa_to_pfn pa) (count - 1) in
    if user_page_ok s pa && not (count == 0)
    then (if count == 1 then free_pages s' pa 0 else done s')
    else panic

unfoldable pub user_refcount_locked : Pmm → ℕ → ℕ
user_refcount_locked s pa =
    if leb s.pfn_count (pa_to_pfn pa) then 0 else (s.pfn_table (pa_to_pfn pa)).refcount

unfoldable pub user_refcount : Pmm → ℕ → ℕ
user_refcount s pa =
    if leb s.pfn_count (pa_to_pfn pa) then 0 else (s.pfn_table (pa_to_pfn pa)).refcount
