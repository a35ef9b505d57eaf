-- ===== src/Tests/Vma.antt =====
-- kernel/mm/vma.c, kernel/mm/mmap.c and the page fault at an address space of two areas.
use jnu.Base.{
  ℕ, ◌≡◌, refl, sym, ◌∙◌, subst, inl, inr, true, false, ◌&&◌, Option, none, some, List, [], ◌∷◌,
  arith, Bool-cases,
}
use jnu.Rbtree.{red, black, Tree, leaf, node}
use jnu.Rbtree.Order.{items}
use jnu.Mm.Vma.{
  Vma, VmaFlags, vma_find, vma_insert, vma_split_at, vma_remove_range, vma_find_gap_top_down,
}
use jnu.Mm.Vma.Order.{Valid, holds}
use jnu.Mm.Vma.Find.{find_in, vma_find-items}
use jnu.Mm.Vma.Change.{Insertion, vma_insert-Insertion}
use jnu.Mm.Vma.Split.{Splitting, vma_split_at-Splitting, flags_of, Whole}
use jnu.Mm.Vma.Range.{RangeOutcome, range_may_fail, vma_remove_range-Outcome}
use jnu.Mm.Vma.Gap.{Highest, vma_find_gap_top_down-Highest}
use jnu.Arch.Paging.{Pte, no_tables}
use jnu.Arch.Paging.Entry.{entry_at}
use jnu.Mm.Space.{Space, Memory, vmm_map_anonymous, sys_munmap, user_page_fault}
use jnu.Mm.Space.Backing.{Sound}
use jnu.Mm.Space.Faults.{user_page_fault-Sound}
use jnu.Mm.Space.Calls.{Mapping, map_may_fail, vmm_map_anonymous-Mapping}
use jnu.Mm.Space.Munmap.{Unmapping, unmap_may_fail, sys_munmap-Unmapping}

abbrev data_area : Vma
data_area = record {
  start = 0x1000;
  end = 0x3000;
  flags = record { read = true; write = true; exec = false };
}

abbrev code_area : Vma
code_area = record {
  start = 0x5000;
  end = 0x7000;
  flags = record { read = true; write = false; exec = true };
}

abbrev stack_area : Vma
stack_area = record {
  start = 0x3000;
  end = 0x4000;
  flags = record { read = true; write = true; exec = false };
}

abbrev two : Tree Vma
two = node black leaf data_area (node red leaf code_area leaf)

two-Valid : Valid two
two-Valid = record {
  ordered = (omega arith, omega arith, (omega arith, omega arith, tt));
  balanced = (1, (refl, (refl, refl, refl, refl)));
}

vma_insert-Insertion_example : Insertion two stack_area (vma_insert two stack_area)
vma_insert-Insertion_example = vma_insert-Insertion stack_area two-Valid (omega arith)

found_data : vma_find two 0x2000 ≡ some data_area
unfolding vma_find
found_data = refl

vma_split_at-Splitting_example :
    Splitting two data_area 0x2000 true (vma_split_at two data_area 0x2000 true)
vma_split_at-Splitting_example =
    vma_split_at-Splitting data_area 0x2000 0x2000 true two-Valid found_data

vma_remove_range-Outcome_example :
    RangeOutcome two 0x2000 0x6000
      (range_may_fail 0x2000 0x6000 true true)
      (vma_remove_range two 0x2000 0x6000 true true)
vma_remove_range-Outcome_example = vma_remove_range-Outcome 0x2000 0x6000 true true two-Valid

vma_find_gap_top_down-Highest_example :
    Highest (vma_find two) 0x2000 0x10000 (vma_find_gap_top_down two 0x2000 0x10000)
vma_find_gap_top_down-Highest_example =
    vma_find_gap_top_down-Highest 0x2000 0x10000 two-Valid (omega arith, (omega arith, tt))
      (omega arith) refl (omega arith) (omega arith)

abbrev blank : Space
blank = record {
  vmas = two;
  pml4 = no_tables;
  mmap_base = 0x10000;
  frames = 40;
  puts = [];
  copied = [];
}

abbrev Each : (Vma → Type 0) → List Vma → Type 0
Each good [] = Unit {0}
Each good (v ∷ vs) = good v × Each good vs

found_in :
    (good : Vma → Type 0) (vs : List Vma) (a : ℕ) (v : Vma)
    → Each good vs
    → find_in vs a ≡ some v
    → good v
found_in good [] a v h e = cc
found_in good (w ∷ vs) a v h e = elim (Bool-cases (holds w a)) [
  | inl i ↦ subst good (ground (arith, e, i)) h.0
  | inr i ↦ found_in good vs a v h.1 (ground (arith, e, i))
]

abbrev Exclusive : Vma → Type 0
Exclusive v = (v.flags.write && v.flags.exec) ≡ false

Exclusive-flags :
    (o : Option Vma) (f : VmaFlags)
    → ((v : Vma) → o ≡ some v → Exclusive v)
    → flags_of o ≡ some f
    → (f.write && f.exec) ≡ false
Exclusive-flags none f h e = cc
Exclusive-flags (some v) f h e =
    subst (λ (x : VmaFlags). (x.write && x.exec) ≡ false) (same e) (h v refl)
  where
    same : {g : VmaFlags} → some g ≡ some f → g ≡ f
    same x = cc

blank-Sound : Sound blank
unfolding entry_at
blank-Sound = record {
  valid = two-Valid;
  whole = λ a v e.
      found_in Whole (items two) a v ((refl, refl, omega arith), ((refl, refl, omega arith), tt))
        (sym (vma_find-items a two-Valid) ∙ e);
  exclusive = λ a f. Exclusive-flags (vma_find two a) f λ v e.
      found_in Exclusive (items two) a v (refl, (refl, tt)) (sym (vma_find-items a two-Valid) ∙ e);
  allowed = λ w e h p. absurd (unmapped p);
}
  where
    unmapped : {e : Pte} → none ≡ some e → ⊥
    unmapped p = cc

-- The first write to the data area.
abbrev pub touched : Space
touched = (user_page_fault 0 blank 0x1008 6 (λ p. 1) 0x9000).0

pub touched-Sound : Sound touched
touched-Sound = (user_page_fault-Sound 0 0x1008 6 (λ p. 1) 0x9000 blank-Sound).0

abbrev pub plenty : Memory
plenty = record { left = true; right = true; area = true }

sys_munmap-Unmapping_example :
    Unmapping touched 0x1000 0x2000
      (unmap_may_fail 0x1000 0x2000 plenty)
      (sys_munmap 0 touched 0x1000 0x2000 plenty)
sys_munmap-Unmapping_example =
    sys_munmap-Unmapping 0 0x1000 0x2000 plenty touched-Sound (omega arith) (omega arith)

vmm_map_anonymous-Mapping_example :
    Mapping blank 0 5000 3 0x22
      (map_may_fail blank 0 5000 3 0x22 plenty)
      (vmm_map_anonymous 0 blank 0 5000 3 0x22 plenty)
vmm_map_anonymous-Mapping_example =
    vmm_map_anonymous-Mapping 0 0 5000 3 0x22 plenty blank-Sound refl (omega arith) (omega arith)
