-- ===== src/Mm/Space.antt =====
-- kernel/mm/mmap.c, kernel/mm/vmm.c and the page fault handler of kernel/arch/x86_64/exceptions.c: the
-- areas and the page tables of an address space together. A task without a process has no address
-- space and none of these calls; the lock around the reference count and the single writer of an
-- address space are what makes each operation one step.
pub mod Unmap
pub mod Backing
pub mod Entries
pub mod Grants
pub mod Faults
pub mod Insert
pub mod Place
pub mod Calls
pub mod Munmap
pub mod Clone
pub mod Protect
use jnu.Base.{
  ℕ, zero, suc, ◌+◌, ◌-◌, ◌*◌, ◌/◌, ◌%◌, ◌^◌, Bool, true, false, not, ◌&&◌, ◌||◌, Option, none,
  some, List, [], ◌∷◌, ◌++◌, leb, ltb, ◌==◌, if◌then◌else◌, add64, then_ok, Result, ok, err, Errno,
  einval, enomem, eacces,
}
use Prim.Native.Nat.{bit_and}
use jnu.Rbtree.{Tree}
use jnu.Mm.Vma.{
  Vma, VmaFlags, vma_find, vma_insert, vma_remove_range, vma_find_gap_top_down, split_ends,
  walk_from,
}
use jnu.Arch.Paging.{
  Pte, PteFlags, Pml4, Found, small, big, paging_map, paging_unmap, paging_protect,
  paging_get_flags,
}

-- `struct addr_space`, with how many more pages there are for page tables, and the pages given to
-- `pmm_put_user_page` so far, in order.
pub record Space : Type 0 where
  pub vmas : Tree Vma
  pub pml4 : Pml4
  pub mmap_base : ℕ
  pub frames : ℕ
  pub puts : List ℕ
  -- the pages copied by `memcpy` so far, in order: to where, from where
  pub copied : List (ℕ × ℕ)

-- The memory that the calls of `kzalloc` find: for the two splits and for the new area.
pub record Memory : Type 0 where
  pub left : Bool
  pub right : Bool
  pub area : Bool

abbrev pub user_top : ℕ
user_top = 2 ^ 47

unfoldable pub page_align_up : ℕ → ℕ
page_align_up v = let s = add64 v 4095 in s - s % 4096

abbrev pub has : ℕ → ℕ → Bool
has bits bit = not (bit_and bits bit == 0)

unfoldable pub prot_to_vma : ℕ → VmaFlags
prot_to_vma prot = record { read = has prot 1; write = has prot 2; exec = has prot 4 }

-- The loop of `vma_remove_range` as it works on the page tables.
unfoldable pub unmap_within : ℕ → Pml4 → ℕ → ℕ → List Vma → Pml4 × List ℕ
unmap_within zero_page m start end [] = (m, [])
unmap_within zero_page m start end (v ∷ vs) =
    let (m1, puts) =
      if leb start v.start && leb v.end end
      then paging_unmap zero_page m v.start ((v.end - v.start) / 4096)
      else (m, []) in
    let (m2, more) = unmap_within zero_page m1 start end vs in
    if ltb v.start end then (m2, puts ++ more) else (m, [])

-- `vma_remove_range` with an address space: its areas, then its page tables.
unfoldable pub remove_range : ℕ → Space → ℕ → ℕ → Memory → Space × Result (Unit {0})
remove_range zero_page s start end memory =
    let (t, r) = vma_remove_range s.vmas start end memory.left memory.right in
    let parted = (split_ends s.vmas start end memory.left memory.right).0 in
    let (m, puts) = unmap_within zero_page s.pml4 start end (walk_from parted start) in
    elim r [
      | err e ↦ (record s { vmas = t }, err e)
      | ok _ ↦ (record s { vmas = t; pml4 = m; puts = s.puts ++ puts }, ok tt)
    ]

-- The new area of `vmm_map_anonymous`.
unfoldable pub insert_area : Space → ℕ → ℕ → VmaFlags → Bool → Space × Result ℕ
insert_area s chosen len flags memory =
    let (t, r) =
      vma_insert s.vmas (record { start = chosen; end = add64 chosen len; flags = flags }) in
    if not memory then (s, err enomem) else elim r [
      | err e ↦ (record s { vmas = t }, err e)
      | ok _ ↦ (record s { vmas = t }, ok chosen)
    ]

-- `MAP_FIXED`: the range is cleared first.
unfoldable pub map_fixed : ℕ → Space → ℕ → ℕ → VmaFlags → Memory → Space × Result ℕ
map_fixed zero_page s addr len flags memory =
    if not (addr % 4096 == 0) || (ltb addr 4096 || leb user_top addr)
    then (s, err einval)
    else if ltb (add64 addr len) addr || ltb user_top (add64 addr len)
    then (s, err einval)
    else then_ok (remove_range zero_page s addr (add64 addr len) memory)
        λ s1 _. insert_area s1 addr len flags memory.area

-- Without `MAP_FIXED` the kernel chooses.
unfoldable pub map_free : Space → ℕ → VmaFlags → Memory → Space × Result ℕ
map_free s len flags memory =
    let chosen = vma_find_gap_top_down s.vmas len s.mmap_base in
    if chosen == 0 then (s, err enomem) else insert_area s chosen len flags memory.area

-- What `vmm_map_anonymous` refuses: bits of `flags` besides `MAP_PRIVATE` (2), `MAP_FIXED` (16) and
-- `MAP_ANONYMOUS` (32), a missing one of the two that are needed, and pages to write and execute.
abbrev pub bad_request : ℕ → ℕ → Bool
bad_request prot flags =
    not (bit_and flags (2 ^ 32 - 1 - 50) == 0)
    || ((not (has flags 2) || not (has flags 32)) || (has prot 2 && has prot 4))

unfoldable pub vmm_map_anonymous : ℕ → Space → ℕ → ℕ → ℕ → ℕ → Memory → Space × Result ℕ
vmm_map_anonymous zero_page s addr length prot flags memory =
    let len = page_align_up length in
    if length == 0 || len == 0
    then (s, err einval)
    else if bad_request prot flags
    then (s, err einval)
    else if has flags 16
    then map_fixed zero_page s addr len (prot_to_vma prot) memory
    else map_free s len (prot_to_vma prot) memory

unfoldable pub sys_munmap : ℕ → Space → ℕ → ℕ → Memory → Space × Result (Unit {0})
sys_munmap zero_page s addr length memory =
    let len = page_align_up length in
    let end = add64 addr len in
    if not (addr % 4096 == 0) || len == 0
    then (s, err einval)
    else if ltb end addr || ltb user_top end
    then (s, err einval)
    else remove_range zero_page s addr end memory

-- `vmm_handle_lazy_fault`: what the access wants of the area, and the entry it gets. `page` is what
-- `pmm_alloc_user_page` returns, 0 for none.
unfoldable pub lazy_entry : ℕ → VmaFlags → ℕ → ℕ → Result Pte
lazy_entry zero_page f ec page =
    if has ec 16
    then (if not f.exec
        then err eacces
        else if page == 0
        then err enomem
        else ok
            (record { address = page; flags = record { user = true; write = false; nx = false } }))
    else if has ec 2
    then (if not f.write
        then err eacces
        else if page == 0
        then err enomem
        else ok
            (record { address = page; flags = record { user = true; write = true; nx = true } }))
    else if not f.read
    then err eacces
    else ok
        (record { address = zero_page; flags = record { user = true; write = false; nx = true } })

unfoldable pub vmm_handle_lazy_fault : ℕ → Space → Vma → ℕ → ℕ → ℕ → Space × Result (Unit {0})
vmm_handle_lazy_fault zero_page s v va ec page = elim (lazy_entry zero_page v.flags ec page) [
  | err e ↦ (s, err e)
  | ok e ↦
      let (m, n, r) = paging_map s.pml4 va e.address 1 e.flags s.frames in
      let back = if e.address == zero_page then s.puts else s.puts ++ e.address ∷ [] in
      elim r [
        | err x ↦ (record s { pml4 = m; frames = n; puts = back }, err x)
        | ok _ ↦ (record s { pml4 = m; frames = n }, ok tt)
      ]
]

-- `vmm_handle_cow_fault` at a small page: `refs` are the references to the old page, `page` is what
-- `pmm_alloc_user_page` returns.
unfoldable pub copy_on_write : ℕ → Space → ℕ → Pte → ℕ → ℕ → Space × Result (Unit {0})
copy_on_write zero_page s va old refs page =
    let flags : PteFlags = record { user = old.flags.user; write = true; nx = true } in
    let (fast, done) = paging_protect s.pml4 va 1 flags in
    let (m, n, r) = paging_map s.pml4 va page 1 flags s.frames in
    let copies = s.copied ++ (page, old.address) ∷ [] in
    if not (old.address == zero_page) && refs == 1
    then (record s { pml4 = fast }, done)
    else if page == 0
    then (s, err enomem)
    else elim r [
      | err x ↦
          (record s { pml4 = m; frames = n; puts = s.puts ++ page ∷ []; copied = copies }, err x)
      | ok _ ↦
          let back = if old.address == zero_page then s.puts else s.puts ++ old.address ∷ [] in
          (record s { pml4 = m; frames = n; puts = back; copied = copies }, ok tt)
    ]

unfoldable pub vmm_handle_cow_fault : ℕ → Space → ℕ → (ℕ → ℕ) → ℕ → Space × Result (Unit {0})
vmm_handle_cow_fault zero_page s addr refs page =
    let va = addr - addr % 4096 in
    elim (paging_get_flags s.pml4 va) [
      | err e ↦ (s, err e)
      | ok (big e) ↦ (s, err einval)
      | ok (small e) ↦ copy_on_write zero_page s va e (refs e.address) page
    ]

-- The page fault of a user: what is left to do is to end the process, unless the result is `true`.
unfoldable pub user_page_fault : ℕ → Space → ℕ → ℕ → (ℕ → ℕ) → ℕ → Space × Bool
user_page_fault zero_page s cr2 ec refs page = elim (vma_find s.vmas cr2) [
  | none ↦ (s, false)
  | some v ↦
      let (s1, r1) = vmm_handle_cow_fault zero_page s (cr2 - cr2 % 4096) refs page in
      let (s2, r2) = vmm_handle_lazy_fault zero_page s v (cr2 - cr2 % 4096) ec page in
      if has ec 1
      then (if has ec 2 && v.flags.write
          then (s1, elim r1 [ ok _ ↦ true | err e ↦ false ])
          else (s, false))
      else (s2, elim r2 [ ok _ ↦ true | err e ↦ false ])
]
