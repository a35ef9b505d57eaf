-- ===== src/Mm/Pmm.antt =====
-- kernel/mm/pmm.c: the page-frame table, the free lists threaded through it, and the statistics.
-- A link is an option (`NO_LINK` is `none`), and `PFN_FREE`, the one flag bit, is a Boolean. The
-- table, the list heads and memory are functions of their index.
pub mod Alloc
pub mod Free
pub mod Refs
pub mod Register
pub mod Counters
pub mod Links
pub mod Lists
pub mod Blocks
pub mod Zeroed
use jnu.Base.{
  ℕ, zero, suc, ◌+◌, ◌-◌, ◌*◌, ◌/◌, ◌^◌, ◌%◌, Bool, true, false, Option, none, some, ltb, ◌==◌,
  ◌&&◌, if◌then◌else◌, add64, sub64, update,
}

pub record Pfn : Type 0 where
  pub free : Bool
  pub order : ℕ
  pub refcount : ℕ
  pub next : Option ℕ
  pub prev : Option ℕ

pub data Zone : Type 0 where
  dma normal : Zone

abbrev pub same_zone : Zone → Zone → Bool
same_zone dma dma = true
same_zone normal normal = true
same_zone _ _ = false

pub record Stats : Type 0 where
  pub total_pages : ℕ
  pub free_pages : ℕ
  pub free_by_order : ℕ → ℕ
  pub zone_total : Zone → ℕ
  pub zone_free : Zone → ℕ

pub record Pmm : Type 0 where
  pub pfn_table : ℕ → Pfn
  pub pfn_count : ℕ
  pub free_list_head : Zone → ℕ → Option ℕ
  pub stats : Stats
  pub mm_zero_page : ℕ
  -- the byte at each physical address
  pub memory : ℕ → ℕ

-- `PMM_MAX_ORDER`
abbrev pub max_order : ℕ
max_order = 11

-- A page frame's address; `pfn << 12` drops what leaves the word.
unfoldable pub pfn_to_pa : ℕ → ℕ
pfn_to_pa pfn = (pfn * 2 ^ 12) % 2 ^ 64

unfoldable pub pa_to_pfn : ℕ → ℕ
pa_to_pfn pa = pa / 2 ^ 12

unfoldable pub zone_of : ℕ → Zone
zone_of pa = if ltb pa (16 * 1024 * 1024) then dma else normal

-- `pfn_table[pfn]` with one field written
abbrev pub set_next : Pmm → ℕ → Option ℕ → Pmm
set_next s pfn v = record s {
  pfn_table = update s.pfn_table pfn (record (s.pfn_table pfn) { next = v });
}

abbrev pub set_prev : Pmm → ℕ → Option ℕ → Pmm
set_prev s pfn v = record s {
  pfn_table = update s.pfn_table pfn (record (s.pfn_table pfn) { prev = v });
}

abbrev pub set_free : Pmm → ℕ → Bool → Pmm
set_free s pfn v = record s {
  pfn_table = update s.pfn_table pfn (record (s.pfn_table pfn) { free = v });
}

abbrev pub set_order : Pmm → ℕ → ℕ → Pmm
set_order s pfn v = record s {
  pfn_table = update s.pfn_table pfn (record (s.pfn_table pfn) { order = v });
}

abbrev pub set_refcount : Pmm → ℕ → ℕ → Pmm
set_refcount s pfn v = record s {
  pfn_table = update s.pfn_table pfn (record (s.pfn_table pfn) { refcount = v });
}

abbrev pub at_zone {ℓ} : {A : Type ℓ} → (Zone → A) → Zone → A → Zone → A
at_zone f z v y = if same_zone z y then v else f y

abbrev pub set_head : Pmm → Zone → ℕ → Option ℕ → Pmm
set_head s z order v = record s {
  free_list_head = at_zone s.free_list_head z (update (s.free_list_head z) order v);
}

-- The neighbours are found before anything is written; each write reads the entry as it then is.
unfoldable pub list_remove : Pmm → ℕ → Pmm
list_remove s pfn =
    let e = s.pfn_table pfn in
    let s1 : Pmm = elim e.prev [
      | some p ↦ set_next s p e.next
      | none ↦ set_head s (zone_of (pfn_to_pa pfn)) e.order e.next
    ] in
    let s2 : Pmm = elim e.next [ some n ↦ set_prev s1 n (s1.pfn_table pfn).prev | none ↦ s1 ] in
    set_prev (set_next s2 pfn none) pfn none

unfoldable pub list_push : Pmm → Zone → ℕ → ℕ → Pmm
list_push s z order pfn =
    let head = s.free_list_head z order in
    let s1 = set_free (set_order (set_next (set_prev s pfn none) pfn head) pfn order) pfn true in
    let s2 : Pmm = elim head [ some h ↦ set_prev s1 h (some pfn) | none ↦ s1 ] in
    set_head s2 z order (some pfn)

unfoldable pub list_pop : Pmm → Zone → ℕ → Pmm × Option ℕ
list_pop s z order = elim (s.free_list_head z order) [
  | none ↦ (s, none)
  | some head ↦ (set_free (list_remove s head) head false, some head)
]

-- The three counters that every list operation of the allocator moves by the size of its block.
unfoldable pub stats_add : Stats → Zone → ℕ → Stats
stats_add st z order = record st {
  free_pages = add64 st.free_pages (2 ^ order);
  free_by_order = update st.free_by_order order (add64 (st.free_by_order order) 1);
  zone_free = at_zone st.zone_free z (add64 (st.zone_free z) (2 ^ order));
}

unfoldable pub stats_sub : Stats → Zone → ℕ → Stats
stats_sub st z order = record st {
  free_pages = sub64 st.free_pages (2 ^ order);
  free_by_order = update st.free_by_order order (sub64 (st.free_by_order order) 1);
  zone_free = at_zone st.zone_free z (sub64 (st.zone_free z) (2 ^ order));
}

abbrev pub with_stats : Pmm → Stats → Pmm
with_stats s st = record s { stats = st }
