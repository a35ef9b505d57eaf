-- ===== src/Arch/Paging.antt =====
-- kernel/arch/x86_64/paging.c: the page tables of an address space. A table is a function from its
-- 512 indices; a pointer to the next table is that table. No range here reaches 2 ^ 64.
pub mod Entry
pub mod Range
pub mod Lookup
pub mod Room
use jnu.Base.{
  ℕ, zero, suc, ◌+◌, ◌-◌, ◌*◌, ◌/◌, ◌%◌, ◌^◌, Bool, true, false, not, ◌&&◌, ◌||◌, Option, none,
  some, List, [], ◌∷◌, ◌++◌, ◌==◌, if◌then◌else◌, update, then_ok, Result, ok, err, Errno, enoent,
  enomem,
}

-- `PTE_USER`, `PTE_WRITE` and `PTE_NX`.
pub record PteFlags : Type 0 where
  pub user : Bool
  pub write : Bool
  pub nx : Bool

-- An entry with `PTE_PRESENT`.
pub record Pte : Type 0 where
  pub address : ℕ
  pub flags : PteFlags

-- An entry of a table above the last: `huge` has `PTE_HUGE`.
pub data Slot (A : Type 0) : Type 0 where
  absent : Slot A
  huge : Pte → Slot A
  table : A → Slot A

abbrev pub Pt : Type 0
Pt = ℕ → Option Pte

abbrev pub Pd : Type 0
Pd = ℕ → Slot Pt

abbrev pub Pdpt : Type 0
Pdpt = ℕ → Slot Pd

abbrev pub Pml4 : Type 0
Pml4 = ℕ → Slot Pdpt

abbrev pub pml4_idx : ℕ → ℕ
pml4_idx v = v / 2 ^ 39 % 512

abbrev pub pdpt_idx : ℕ → ℕ
pdpt_idx v = v / 2 ^ 30 % 512

abbrev pub pd_idx : ℕ → ℕ
pd_idx v = v / 2 ^ 21 % 512

abbrev pub pt_idx : ℕ → ℕ
pt_idx v = v / 2 ^ 12 % 512

-- `table_for` with `create`, and then what is done to the table. The number is how many more pages
-- `pmm_alloc_pages` has; a new table is kept whatever happens below it.
unfoldable pub table_or_new :
    {A : Type 0}
    → A
    → (ℕ → Slot A)
    → ℕ
    → ℕ
    → (A → ℕ → A × ℕ × Result (Unit {0}))
    → (ℕ → Slot A) × ℕ × Result (Unit {0})
table_or_new empty parent idx frames body = elim (parent idx) [
  | absent ↦
      if frames == 0
      then (parent, frames, err enomem)
      else (let (t, n, r) = body empty (frames - 1) in (update parent idx (table t), n, r))
  | huge e ↦ (parent, frames, err enomem)
  | table t0 ↦ let (t, n, r) = body t0 frames in (update parent idx (table t), n, r)
]

-- `table_for` without `create`: no table gives `missing`.
unfoldable pub table_if {ℓ} :
    {A : Type 0} {R : Type ℓ} → (ℕ → Slot A) → ℕ → R → (A → A × R) → (ℕ → Slot A) × R
table_if parent idx missing body = elim (parent idx) [
  | absent ↦ (parent, missing)
  | huge e ↦ (parent, missing)
  | table t0 ↦ let (t, r) = body t0 in (update parent idx (table t), r)
]

abbrev pub no_entries : Pt
no_entries i = none

abbrev pub no_tables : {A : Type 0} → ℕ → Slot A
no_tables i = absent

-- One round of `paging_map`.
unfoldable pub map_page : Pml4 → ℕ → Pte → ℕ → Pml4 × ℕ × Result (Unit {0})
map_page pml4 v e frames = table_or_new no_tables pml4 (pml4_idx v) frames λ pdpt n1.
    table_or_new no_tables pdpt (pdpt_idx v) n1 λ pd n2.
      table_or_new no_entries pd (pd_idx v) n2 λ pt n3. (update pt (pt_idx v) (some e), n3, ok tt)

unfoldable pub paging_map : Pml4 → ℕ → ℕ → ℕ → PteFlags → ℕ → Pml4 × ℕ × Result (Unit {0})
paging_map pml4 virt phys zero flags frames = (pml4, frames, ok tt)
paging_map pml4 virt phys (suc pages) flags frames =
    let (m, n, r) = map_page pml4 virt (record { address = phys; flags = flags }) frames in
    let rest = paging_map m (virt + 4096) (phys + 4096) pages flags n in
    elim r [ err e ↦ (m, n, err e) | ok _ ↦ rest ]

-- The walk that `paging_unmap` and `paging_protect` share, with what they do to the last entry.
unfoldable pub at_entry {ℓ} : {R : Type ℓ} → Pml4 → ℕ → R → (Option Pte → Option Pte × R) → Pml4 × R
at_entry pml4 v missing change = table_if pml4 (pml4_idx v) missing λ pdpt.
    table_if pdpt (pdpt_idx v) missing λ pd.
      table_if pd (pd_idx v) missing
        λ pt. let (e, r) = change (pt (pt_idx v)) in (update pt (pt_idx v) e, r)

-- What `paging_unmap` leaves of an entry, and the page it gives to `pmm_put_user_page`.
unfoldable pub unmap_entry : ℕ → Option Pte → Option Pte × List ℕ
unmap_entry zero_page none = (none, [])
unmap_entry zero_page (some e) =
    (none, if e.flags.user && not (e.address == zero_page) then e.address ∷ [] else [])

-- The pages given to `pmm_put_user_page` come second, in their order.
unfoldable pub paging_unmap : ℕ → Pml4 → ℕ → ℕ → Pml4 × List ℕ
paging_unmap zero_page pml4 virt zero = (pml4, [])
paging_unmap zero_page pml4 virt (suc pages) =
    let (m, puts) = at_entry pml4 virt [] (unmap_entry zero_page) in
    let (m', more) = paging_unmap zero_page m (virt + 4096) pages in (m', puts ++ more)

unfoldable pub protect_entry : PteFlags → Option Pte → Option Pte × Result (Unit {0})
protect_entry flags none = (none, err enoent)
protect_entry flags (some e) = (some (record e { flags = flags }), ok tt)

unfoldable pub paging_protect : Pml4 → ℕ → ℕ → PteFlags → Pml4 × Result (Unit {0})
paging_protect pml4 virt zero flags = (pml4, ok tt)
paging_protect pml4 virt (suc pages) flags =
    then_ok (at_entry pml4 virt (err enoent) (protect_entry flags))
      λ m _. paging_protect m (virt + 4096) pages flags

-- What `paging_get_flags` returns: the entry of a page, or of a huge page.
pub data Found : Type 0 where
  small : Pte → Found
  big : Pte → Found

abbrev pub get_pt : Pt → ℕ → Result Found
get_pt pt v = elim (pt (pt_idx v)) [ none ↦ err enoent | some e ↦ ok (small e) ]

abbrev pub get_pd : Pd → ℕ → Result Found
get_pd pd v = elim (pd (pd_idx v)) [
  | absent ↦ err enoent
  | huge e ↦ ok (big e)
  | table pt ↦ get_pt pt v
]

abbrev pub get_pdpt : Pdpt → ℕ → Result Found
get_pdpt pdpt v = elim (pdpt (pdpt_idx v)) [
  | absent ↦ err enoent
  | huge e ↦ ok (big e)
  | table pd ↦ get_pd pd v
]

unfoldable pub paging_get_flags : Pml4 → ℕ → Result Found
paging_get_flags pml4 v = elim (pml4 (pml4_idx v)) [
  | absent ↦ err enoent
  | huge e ↦ err enoent
  | table pdpt ↦ get_pdpt pdpt v
]
