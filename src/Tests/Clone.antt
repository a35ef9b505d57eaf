-- ===== src/Tests/Clone.antt =====
-- kernel/mm/clone_space.c at the address space of two areas, of which one page is mapped.
use jnu.Rbtree.Order.{items}
use jnu.Mm.Pmm.{Pmm, pa_to_pfn}
use jnu.Mm.Pmm.Refs.{user_page_ok}
use jnu.Mm.Space.Clone.Areas.{gets_over}
use jnu.Mm.Space.Clone.References.{Referable, count_of, times}
use jnu.Base.{
  ℕ, ◌+◌, List, subst, sym, done, ◌==◌, if◌then◌else◌, arith, true, false, [], ◌∷◌, ◌≡◌, refl,
  Option, none, some, Result, ok, err,
}
use jnu.Arch.Paging.{
  Pte, no_tables, paging_map, map_page, table_or_new, paging_get_flags, paging_protect,
  protect_entry, at_entry, table_if,
}
use jnu.Arch.Paging.Entry.{entry_at}
use jnu.Mm.Space.{
  Space, user_page_fault, vmm_handle_lazy_fault, lazy_entry, vmm_handle_cow_fault, copy_on_write,
}
use jnu.Mm.Vma.{vma_find, vma_insert, seat}
use jnu.Rbtree.Insert.{insert_color, link_node}
use jnu.Mm.Space.Clone.{
  CloneResult, vmm_clone_space_on, vmm_clone_space, vmm_create_space, clone_areas, clone_one_vma,
  clone_pages, clone_page, share_page, strip_write, clone_kernel_half,
}
use jnu.Mm.Space.Clone.Copy.{CloneOutcome, vmm_clone_space-Outcome}
use jnu.Mm.Space.Clone.Works.{vmm_clone_space_on-works}
use jnu.Arch.Paging.Room.{NoHuge, paging_map-Done}
use jnu.Tests.Vma.{touched, touched-Sound}

abbrev forked : CloneResult
forked = vmm_clone_space 0 no_tables true 0x20000 (λ v. true) touched

vmm_clone_space-Outcome_example : CloneOutcome 0 touched forked
vmm_clone_space-Outcome_example =
    vmm_clone_space-Outcome 0 no_tables true 0x20000 (λ v. true) touched touched-Sound

abbrev entry_of : Result Space → ℕ → Option Pte
entry_of (ok u) a = entry_at u.pml4 a
entry_of (err e) a = none

-- The copy has the page, read-only, and one reference is taken.
copied_page :
    (entry_of forked.made 0x1008
      ≡ some
          (record { address = 0x9000; flags = record { user = true; write = false; nx = true } }))
    × (forked.gets ≡ 0x9000 ∷ [])
unfolding vmm_clone_space vmm_create_space clone_areas clone_one_vma clone_pages clone_page
    share_page strip_write clone_kernel_half user_page_fault vmm_handle_lazy_fault lazy_entry
    vmm_handle_cow_fault copy_on_write vma_find vma_insert seat paging_map map_page table_or_new
    paging_get_flags paging_protect protect_entry at_entry table_if insert_color link_node entry_at
copied_page = (refl, refl)

pub touched-NoHuge : NoHuge touched.pml4
unfolding user_page_fault vmm_handle_lazy_fault lazy_entry vma_find paging_map map_page table_or_new
touched-NoHuge =
    (paging_map-Done no_tables 0x1000 0x9000 (record { user = true; write = true; nx = true }) 40
      (omega arith) (λ i h. tt) (omega arith)).1

-- One page of the space is page frame 9, with one reference.
abbrev held : Pmm
held = record {
  pfn_table = λ f. record {
    free = false;
    order = 0;
    refcount = if f == 9 then 1 else 0;
    next = none;
    prev = none;
  };
  pfn_count = 16;
  free_list_head = λ zone order. none;
  stats = record {
    total_pages = 16;
    free_pages = 0;
    free_by_order = λ o. 0;
    zone_total = λ zone. 16;
    zone_free = λ zone. 0;
  };
  mm_zero_page = 0;
  memory = λ a. 0;
}

abbrev taken : List ℕ
taken = gets_over 0 touched.pml4 (items touched.vmas)

taken_one : taken ≡ 0x9000 ∷ []
unfolding user_page_fault vmm_handle_lazy_fault lazy_entry vma_find paging_map map_page table_or_new
    entry_at
taken_one = refl

taken-Referable : Referable held taken
unfolding user_page_ok pa_to_pfn
taken-Referable =
    subst (λ l. Referable held l) (sym taken_one)
      (record { used = λ a h. ground (arith, h); fits = λ f h. ground (arith, h) })

vmm_clone_space_on-works_example :
    (c : CloneResult) × (u : Space) × (q : Pmm) × (vmm_clone_space_on held no_tables true 0x20000
        (λ v. true)
        touched
      ≡ done (c, q))
    × (c.made ≡ ok u)
    × ((f : ℕ) → count_of q f ≡ count_of held f + times f taken)
unfolding user_page_fault vmm_handle_lazy_fault lazy_entry vma_find paging_map map_page table_or_new
vmm_clone_space_on-works_example =
    vmm_clone_space_on-works held no_tables 0x20000 (λ v. true) touched touched-Sound touched-NoHuge
      (λ v. refl) (omega arith) taken-Referable
