-- ===== src/Mm/Space/Protect.antt =====
-- kernel/mm/mmap.c: `sys_mprotect`, which changes what the pages of a range allow.
pub mod Flags
pub mod Pages
pub mod Areas
pub mod Range
pub mod Call
use jnu.Base.{
  ℕ, zero, suc, ◌+◌, ◌-◌, ◌*◌, ◌/◌, ◌%◌, ◌^◌, Bool, true, false, not, ◌&&◌, ◌||◌, List, [], ◌∷◌,
  leb, ltb, ◌==◌, if◌then◌else◌, add64, then_ok, Result, ok, err, einval,
}
use jnu.Rbtree.{Tree, leaf, node}
use jnu.Mm.Vma.{Vma, VmaFlags, split_ends, walk_from}
use jnu.Arch.Paging.{Pte, PteFlags, Pml4, Found, small, big, paging_protect, paging_get_flags}
use jnu.Mm.Space.{Space, Memory, user_top, page_align_up, has, prot_to_vma}
use jnu.Mm.Space.Clone.{is_enoent}

-- `v->flags = f`: the area with this start.
unfoldable pub set_flags : ℕ → VmaFlags → Tree Vma → Tree Vma
set_flags s f leaf = leaf
set_flags s f (node c l v r) =
    node c (set_flags s f l) (if v.start == s then (record v { flags = f }) else v)
      (set_flags s f r)

-- `vma_flags_to_pte`, without `PTE_WRITE` on the zero page and on a page with `refs` above 1.
unfoldable pub new_flags : ℕ → (ℕ → ℕ) → VmaFlags → ℕ → PteFlags
new_flags zero_page refs f pa = record {
  user = true;
  write = f.write && not (pa == zero_page || ltb 1 (refs pa));
  nx = not f.exec;
}

abbrev address_of : Found → ℕ
address_of (small e) = e.address
address_of (big e) = e.address

-- One round of the loop over the pages of an area.
unfoldable pub protect_page : ℕ → (ℕ → ℕ) → VmaFlags → Pml4 → ℕ → Pml4 × Result (Unit {0})
protect_page zero_page refs f m va = elim (paging_get_flags m va) [
  | err x ↦ if is_enoent x then (m, ok tt) else (m, err x)
  | ok found ↦ paging_protect m va 1 (new_flags zero_page refs f (address_of found))
]

unfoldable pub protect_pages : ℕ → (ℕ → ℕ) → VmaFlags → Pml4 → ℕ → ℕ → Pml4 × Result (Unit {0})
protect_pages zero_page refs f m va zero = (m, ok tt)
protect_pages zero_page refs f m va (suc k) =
    then_ok (protect_page zero_page refs f m va)
      λ m' _. protect_pages zero_page refs f m' (va + 4096) k

-- An area within the range; after an error it has its flags again.
unfoldable pub protect_area :
    ℕ → (ℕ → ℕ) → VmaFlags → Tree Vma × Pml4 → Vma → (Tree Vma × Pml4) × Result (Unit {0})
protect_area zero_page refs f (t, m) v =
    let (m', r) = protect_pages zero_page refs f m v.start ((v.end - v.start + 4095) / 4096) in
    elim r [
      | err x ↦ ((set_flags v.start v.flags (set_flags v.start f t), m'), err x)
      | ok _ ↦ ((set_flags v.start f t, m'), ok tt)
    ]

-- The loop over the areas.
unfoldable pub protect_within :
    ℕ
    → (ℕ → ℕ)
    → VmaFlags
    → ℕ
    → ℕ
    → Tree Vma × Pml4
    → List Vma
    → (Tree Vma × Pml4) × Result (Unit {0})
protect_within zero_page refs f start end s [] = (s, ok tt)
protect_within zero_page refs f start end s (v ∷ vs) =
    let inside = leb start v.start && leb v.end end in
    let one = if inside then protect_area zero_page refs f s v else (s, ok tt) in
    let rest = then_ok one λ s' _. protect_within zero_page refs f start end s' vs in
    if ltb v.start end then rest else (s, ok tt)

-- The splits, and the loop from the area at `start` on.
unfoldable pub protect_range :
    ℕ → (ℕ → ℕ) → VmaFlags → Space → ℕ → ℕ → Memory → Space × Result (Unit {0})
protect_range zero_page refs f s start end memory =
    let (t, r) = split_ends s.vmas start end memory.left memory.right in
    let ((t', m), r') = protect_within zero_page refs f start end (t, s.pml4) (walk_from t start) in
    elim r [
      | err x ↦ (record s { vmas = t }, err x)
      | ok _ ↦ (record s { vmas = t'; pml4 = m }, r')
    ]

-- `refs` is `pmm_user_refcount`.
unfoldable pub sys_mprotect : ℕ → (ℕ → ℕ) → Space → ℕ → ℕ → ℕ → Memory → Space × Result (Unit {0})
sys_mprotect zero_page refs s addr length prot memory =
    let len = page_align_up length in
    let end = add64 addr len in
    if has prot 2 && has prot 4
    then (s, err einval)
    else if not (addr % 4096 == 0) || len == 0
    then (s, err einval)
    else if ltb end addr || ltb user_top end
    then (s, err einval)
    else protect_range zero_page refs (prot_to_vma prot) s addr end memory
