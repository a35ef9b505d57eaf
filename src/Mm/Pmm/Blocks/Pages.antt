-- ===== src/Mm/Pmm/Blocks/Pages.antt =====
-- kernel/mm/pmm.c: references to user pages, and the page that loses its last one.
use jnu.Base.{
  ℕ, ◌+◌, ◌-◌, ◌*◌, ◌^◌, ◌<◌, ◌≡◌, ◌≢◌, refl, subst, ap, ◌∙◌, true, false, ◌==◌, done, arith,
}
use jnu.Mm.Pmm.{Pmm, pa_to_pfn, set_refcount}
use jnu.Mm.Pmm.Free.{free_pages}
use jnu.Mm.Pmm.Refs.{user_page_ok, get_user_page, put_user_page}
use jnu.Mm.Pmm.Blocks.{InBlock, Covered, Fits, WellFormed, Adds}
use jnu.Mm.Pmm.Blocks.Allocate.{unmarked}
use jnu.Mm.Pmm.Blocks.Moves.{Same, Same-refl, Same-sym, Same-WellFormed, Same-Covered, Same-Adds}
use jnu.Mm.Pmm.Blocks.FreePages.{free_pages-Freed}

-- A count is no part of the free lists.
Same-set_refcount : (s : Pmm) (p n : ℕ) → Same s (set_refcount s p n)
Same-set_refcount s p n = record {
  marks = λ q. ground arith;
  nexts = λ q. ground arith;
  prevs = λ q. ground arith;
  heads = λ z o. refl;
  count = refl;
}

-- With more than one reference, the page stays.
put_held :
    (t : Pmm) (pa : ℕ)
    → user_page_ok t pa ≡ true
    → 1 < (t.pfn_table (pa_to_pfn pa)).refcount
    → put_user_page t pa
      ≡ done (set_refcount t (pa_to_pfn pa) ((t.pfn_table (pa_to_pfn pa)).refcount - 1))
unfolding put_user_page
put_held t pa fine held =
    let not_zero : ((t.pfn_table (pa_to_pfn pa)).refcount == 0) ≡ false = ground arith in
    let not_one : ((t.pfn_table (pa_to_pfn pa)).refcount == 1) ≡ false = ground arith in
    rw (fine, not_zero, not_one) refl

-- The last reference frees the page.
put_last :
    (t : Pmm) (pa : ℕ)
    → user_page_ok t pa ≡ true
    → (t.pfn_table (pa_to_pfn pa)).refcount ≡ 1
    → put_user_page t pa ≡ free_pages (set_refcount t (pa_to_pfn pa) 0) pa 0
unfolding put_user_page
put_last t pa fine one = rw (fine, one) refl

-- In a well-formed allocator, `pmm_put_user_page` of a frame within the table that is not free,
-- is not the zero page and has one reference does not panic; the allocator is well formed
-- afterwards, and has that frame free besides those that were, and no others.
pub put_user_page-Freed :
    {s : Pmm} (p : ℕ)
    → WellFormed s
    → p < s.pfn_count
    → ¬ Covered s p
    → p * 2 ^ 12 ≢ s.mm_zero_page
    → (s.pfn_table p).refcount ≡ 1
    → (t : Pmm) × (put_user_page s (p * 2 ^ 12) ≡ done t) × WellFormed t × Adds (InBlock p 0) s t
unfolding user_page_ok pa_to_pfn
put_user_page-Freed {s} p v within used not_zero one =
    let frame : pa_to_pfn (p * 2 ^ 12) ≡ p = omega arith in
    let only : (q : ℕ) → InBlock p 0 q → ¬ Covered s q =
      λ q i c. used (subst (λ r. Covered s r) (omega (arith, i)) c) in
    let not_free : (s.pfn_table p).free ≡ false = ground (arith, unmarked s p 0 only) in
    let fine : user_page_ok s (p * 2 ^ 12) ≡ true =
      rw (frame, not_free) (ground (arith, not_zero, within)) in
    let s' = set_refcount s p 0 in
    let same = Same-set_refcount s p 0 in
    let fit : Fits s.pfn_count p 0 = record {
      index = p;
      aligned = omega arith;
      within = omega arith;
      legal = omega arith;
    } in
    let fresh : (q : ℕ) → InBlock p 0 q → ¬ Covered s' q =
      λ q i c. only q i ((Same-Covered same q).1 c) in
    let freed = free_pages-Freed p 0 (Same-WellFormed same v) fit fresh in
    (
      freed.0,
      put_last s (p * 2 ^ 12) fine (ap (λ q. (s.pfn_table q).refcount) frame ∙ one)
          ∙ (ap (λ q. free_pages (set_refcount s q 0) (p * 2 ^ 12) 0) frame ∙ freed.1),
      freed.2,
      Same-Adds (Same-sym same) (Same-refl _) freed.3,
    )

-- For a page that is not the zero page, within the table and not free, with more than 0 and
-- fewer than 65535 references, `pmm_get_user_page` and then `pmm_put_user_page` do not panic,
-- and every entry of the page-frame table is as it was.
pub put_user_page-get_user_page :
    (s : Pmm) (pa : ℕ)
    → user_page_ok s pa ≡ true
    → 0 < (s.pfn_table (pa_to_pfn pa)).refcount
    → (s.pfn_table (pa_to_pfn pa)).refcount < 0xFFFF
    → (t : Pmm) × (u : Pmm) × (get_user_page s pa ≡ done t)
      × (put_user_page t pa ≡ done u)
      × ((q : ℕ) → u.pfn_table q ≡ s.pfn_table q)
unfolding get_user_page put_user_page user_page_ok
put_user_page-get_user_page s pa fine held room =
    let p = pa_to_pfn pa in
    let t = set_refcount s p ((s.pfn_table p).refcount + 1) in
    let n = (t.pfn_table p).refcount in
    let raised : n ≡ (s.pfn_table p).refcount + 1 = ground arith in
    let free_same : (t.pfn_table p).free ≡ (s.pfn_table p).free = ground arith in
    (
      t,
      set_refcount t p (n - 1),
      ground (arith, fine),
      put_held t pa (ground (arith, fine, free_same)) (omega (arith, raised, held)),
      λ q. ground arith,
    )
