-- ===== src/Mm/Space/Clone.antt =====
-- kernel/mm/clone_space.c: the copy of an address space for a new process, which shares its pages.
pub mod Shared
pub mod Pages
pub mod Areas
pub mod Copy
pub mod References
pub mod Works
use jnu.Base.{
  ℕ, zero, suc, ◌+◌, ◌-◌, ◌/◌, Bool, true, false, Option, none, some, List, [], ◌∷◌, ◌++◌, ltb,
  ◌==◌, if◌then◌else◌, then_ok, then_run, Run, done, panic, Result, ok, err, Errno, einval, enoent,
  enomem,
}
use jnu.Rbtree.{Tree, leaf}
use jnu.Rbtree.Order.{items}
use jnu.Mm.Vma.{Vma, vma_insert}
use jnu.Arch.Paging.{
  Pte, PteFlags, Pml4, Slot, absent, Found, small, big, paging_map, paging_protect,
  paging_get_flags,
}
use jnu.Mm.Space.{Space}
use jnu.Mm.Pmm.{Pmm}
use jnu.Mm.Pmm.Refs.{get_user_page}

-- The page tables of both spaces while pages are shared, and the pages given to
-- `pmm_get_user_page`, in order.
pub record Cloning : Type 0 where
  pub source : Pml4
  pub copy : Pml4
  pub frames : ℕ
  pub gets : List ℕ

abbrev pub is_enoent : Errno → Bool
is_enoent enoent = true
is_enoent _ = false

-- `& ~PTE_WRITE`
abbrev pub read_only : PteFlags → PteFlags
read_only f = record f { write = false }

-- The source's entry loses `PTE_WRITE`, if it has it.
unfoldable pub strip_write : Pml4 → ℕ → Pte → Pml4 × Result (Unit {0})
strip_write m va e = if e.flags.write then paging_protect m va 1 (read_only e.flags) else (m, ok tt)

-- One page that is mapped in the source.
unfoldable pub share_page : ℕ → Cloning → ℕ → Pte → Cloning × Result (Unit {0})
share_page zero_page st va e =
    let (m, r) = strip_write st.source va e in
    let (d, n, r') = paging_map st.copy va e.address 1 (read_only e.flags) st.frames in
    let gets = if e.address == zero_page then st.gets else st.gets ++ (e.address ∷ []) in
    elim r [
      | err x ↦ (record st { source = m }, err x)
      | ok _ ↦ elim r' [
        | err x ↦ (record st { source = m; copy = d; frames = n }, err x)
        | ok _ ↦ (record { source = m; copy = d; frames = n; gets = gets }, ok tt)
      ]
    ]

-- One round of the loop over the pages of an area.
unfoldable pub clone_page : ℕ → Cloning → ℕ → Cloning × Result (Unit {0})
clone_page zero_page st va = elim (paging_get_flags st.source va) [
  | err x ↦ if is_enoent x then (st, ok tt) else (st, err x)
  | ok (big e) ↦ (st, err einval)
  | ok (small e) ↦ share_page zero_page st va e
]

unfoldable pub clone_pages : ℕ → Cloning → ℕ → ℕ → Cloning × Result (Unit {0})
clone_pages zero_page st va zero = (st, ok tt)
clone_pages zero_page st va (suc k) =
    then_ok (clone_page zero_page st va) λ st' _. clone_pages zero_page st' (va + 4096) k

-- The areas of the copy so far, and the page tables. `memory` says whether `kzalloc` finds memory for
-- the copy of an area.
unfoldable pub clone_one_vma :
    ℕ → (Vma → Bool) → Tree Vma × Cloning → Vma → (Tree Vma × Cloning) × Result (Unit {0})
clone_one_vma zero_page memory (t, st) v =
    let (t', r) = vma_insert t v in
    let (st', r') = clone_pages zero_page st v.start ((v.end - v.start + 4095) / 4096) in
    if memory v
    then elim r [ err x ↦ ((t', st), err x) | ok _ ↦ ((t', st'), r') ]
    else ((t, st), err enomem)

unfoldable pub clone_areas :
    ℕ → (Vma → Bool) → Tree Vma × Cloning → List Vma → (Tree Vma × Cloning) × Result (Unit {0})
clone_areas zero_page memory s [] = (s, ok tt)
clone_areas zero_page memory s (v ∷ vs) =
    then_ok (clone_one_vma zero_page memory s v) λ s' _. clone_areas zero_page memory s' vs

-- `paging_clone_kernel_half` into an empty table.
unfoldable pub clone_kernel_half : Pml4 → Pml4
clone_kernel_half kernel i = if ltb i 256 then absent else kernel i

-- `vmm_create_space`: `room` says whether there is memory, `base` is the random ceiling.
unfoldable pub vmm_create_space : Pml4 → Bool → ℕ → ℕ → Option Space
vmm_create_space kernel room base frames =
    if room
    then some (record {
      vmas = leaf;
      pml4 = clone_kernel_half kernel;
      mmap_base = base;
      frames = frames;
      puts = [];
      copied = [];
    })
    else none

-- What comes of a copy: the source, and either the new space or the error with the part of a space
-- that `vmm_destroy_space` gets.
pub record CloneResult : Type 0 where
  pub source : Space
  pub made : Result Space
  pub destroyed : Option Space
  pub gets : List ℕ

unfoldable pub vmm_clone_space : ℕ → Pml4 → Bool → ℕ → (Vma → Bool) → Space → CloneResult
vmm_clone_space zero_page kernel room base memory s =
    elim (vmm_create_space kernel room base s.frames) [
      | none ↦ record { source = s; made = err enomem; destroyed = none; gets = [] }
      | some d ↦
          let start : Cloning = record {
            source = s.pml4;
            copy = d.pml4;
            frames = d.frames;
            gets = [];
          } in
          let ((t, st), r) = clone_areas zero_page memory (d.vmas, start) (items s.vmas) in
          let u : Space = record d { vmas = t; pml4 = st.copy; frames = st.frames } in
          let s' : Space = record s { pml4 = st.source; frames = st.frames } in
          elim r [
            | err x ↦ record { source = s'; made = err x; destroyed = some u; gets = st.gets }
            | ok _ ↦ record { source = s'; made = ok u; destroyed = none; gets = st.gets }
          ]
    ]

-- The references that a copy takes, one after another, on the page-frame table; a page that may not
-- get one is a panic.
unfoldable pub take_references : Pmm → List ℕ → Run Pmm
take_references p [] = done p
take_references p (a ∷ pages) = then_run (get_user_page p a) λ q. take_references q pages

-- The whole call on a kernel with the page-frame table `p`. The copy never looks at that table, so its
-- references are taken after it.
unfoldable pub vmm_clone_space_on :
    Pmm → Pml4 → Bool → ℕ → (Vma → Bool) → Space → Run (CloneResult × Pmm)
vmm_clone_space_on p kernel room base memory s =
    let c = vmm_clone_space p.mm_zero_page kernel room base memory s in
    then_run (take_references p c.gets) λ q. done (c, q)
