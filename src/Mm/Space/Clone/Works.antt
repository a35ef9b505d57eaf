-- ===== src/Mm/Space/Clone/Works.antt =====
-- kernel/mm/clone_space.c: with enough memory and no huge pages, the copy succeeds.
use jnu.Base.{
  ℕ, zero, suc, ◌+◌, ◌-◌, ◌*◌, ◌/◌, ◌^◌, ◌≤◌, ◌<◌, ◌≡◌, refl, sym, ◌∙◌, inl, inr, Bool, true, none,
  some, List, [], ◌∷◌, ltb, Result, ok, err, ap, done, then_run, arith, Bool-cases,
}
use jnu.Rbtree.{Tree, leaf}
use jnu.Rbtree.Order.{items}
use jnu.Mm.Vma.{Vma, vma_find, vma_insert}
use jnu.Mm.Vma.Order.{Areas, Valid}
use jnu.Mm.Vma.Find.{vma_find-items}
use jnu.Mm.Vma.Change.{added, overlaps, vma_insert-Insertion}
use jnu.Arch.Paging.{Pte, Pml4}
use jnu.Arch.Paging.Entry.{entry_at}
use jnu.Arch.Paging.Lookup.{unmapped, in_huge, mapped, paging_get_flags-Lookup}
use jnu.Arch.Paging.Room.{NoHuge, paging_map-Done, paging_protect-works, no_big}
use jnu.Mm.Space.{Space}
use jnu.Mm.Space.Backing.{Sound}
use jnu.Mm.Space.Clone.{
  Cloning, read_only, strip_write, share_page, clone_page, clone_pages, clone_one_vma, clone_areas,
  clone_kernel_half, vmm_create_space, vmm_clone_space, CloneResult, vmm_clone_space_on,
  take_references,
}
use jnu.Mm.Space.Clone.Areas.{EachWhole, none-some, past, gets_over}
use jnu.Mm.Pmm.{Pmm}
use jnu.Mm.Space.Clone.References.{Referable, count_of, times, take_references-works}
use jnu.Mm.Space.Clone.Copy.{
  CloneOutcome, cloned, failed, vmm_clone_space-Outcome, each_whole, leaf-Valid,
}

-- No error, no huge page in either space, and all but `need` of the pages for tables are left.
abbrev Ran : ℕ → Cloning → Cloning × Result (Unit {0}) → Type 0
Ran need st r =
    (r.1 ≡ ok tt) × NoHuge r.0.source × NoHuge r.0.copy × (st.frames ≤ need + r.0.frames)

strip_write-works :
    (m : Pml4) (va : ℕ) (e : Pte)
    → va < 2 ^ 47
    → entry_at m va ≡ some e
    → NoHuge m
    → ((strip_write m va e).1 ≡ ok tt) × NoHuge (strip_write m va e).0
unfolding strip_write
strip_write-works m va e h here clear = elim (Bool-cases e.flags.write) [
  | inl k ↦
      let (fine, keeps) = paging_protect-works m va (read_only e.flags) e h here in
      rw (k, strip_write) (fine, keeps clear)
  | inr k ↦ rw (k, strip_write) (refl, clear)
]

share_page-Ran :
    (z : ℕ) (st : Cloning) (va : ℕ) (e : Pte)
    → va < 2 ^ 47
    → entry_at st.source va ≡ some e
    → NoHuge st.source
    → NoHuge st.copy
    → 3 ≤ st.frames
    → Ran 3 st (share_page z st va e)
unfolding share_page
share_page-Ran z st va e h here source copy room =
    let (fine, clear) = strip_write-works st.source va e h here source in
    let (fine', clear', left) =
      paging_map-Done st.copy va e.address (read_only e.flags) st.frames h copy room in
    rw (fine, fine', share_page) (refl, clear, clear', left)

clone_page-Ran :
    (z : ℕ) (st : Cloning) (va : ℕ)
    → va < 2 ^ 47
    → NoHuge st.source
    → NoHuge st.copy
    → 3 ≤ st.frames
    → Ran 3 st (clone_page z st va)
unfolding clone_page
clone_page-Ran z st va h source copy room = elim (paging_get_flags-Lookup st.source va) [
  | unmapped f o ↦ rw (f, clone_page) (refl, source, copy, omega arith)
  | in_huge e f ↦ absurd (no_big st.source va e h source f)
  | mapped e f o ↦ rw (f, clone_page) (share_page-Ran z st va e h o source copy room)
]

clone_pages-Ran :
    (z va k : ℕ) (st : Cloning)
    → va + 4096 * k ≤ 2 ^ 47
    → NoHuge st.source
    → NoHuge st.copy
    → 3 * k ≤ st.frames
    → Ran (3 * k) st (clone_pages z st va k)
unfolding clone_pages
clone_pages-Ran z va zero st h source copy room = (refl, source, copy, omega arith)
clone_pages-Ran z va (suc k) st h source copy room =
    let (fine, source1, copy1, left) =
      clone_page-Ran z st va (omega (arith, h)) source copy (omega (arith, room)) in
    let st1 = (clone_page z st va).0 in
    let (fine', source2, copy2, left') =
      clone_pages-Ran z (va + 4096) k st1 (omega (arith, h)) source1 copy1
        (omega (arith, room, left)) in
    rw (fine, clone_pages) (fine', source2, copy2, omega (arith, left, left'))

-- Pages for tables that are enough: three for each page.
abbrev pub frames_for : List Vma → ℕ
frames_for [] = 0
frames_for (v ∷ vs) = 3 * ((v.end - v.start + 4095) / 4096) + frames_for vs

clone_areas-works :
    (z : ℕ) (memory : Vma → Bool) (lo : ℕ) (vs : List Vma) (t : Tree Vma) (st : Cloning)
    → ((v : Vma) → memory v ≡ true)
    → Areas lo vs
    → EachWhole vs
    → Valid t
    → ((a : ℕ) → lo ≤ a → vma_find t a ≡ none)
    → NoHuge st.source
    → NoHuge st.copy
    → frames_for vs ≤ st.frames
    → (clone_areas z memory (t, st) vs).1 ≡ ok tt
unfolding clone_areas clone_one_vma
clone_areas-works z memory lo [] t st enough sorted each good above source copy room = refl
clone_areas-works z memory lo (v ∷ vs) t st enough (i, j, sorted) (whole, each) good above source
      copy room =
    elim (vma_insert-Insertion v good j) [
      | overlaps a x e h f ↦ absurd (none-some (sym (above a (ground (arith, i, h))) ∙ f))
      | added e good1 finds _ ↦
          let k = (v.end - v.start + 4095) / 4096 in
          let (fine, source1, copy1, left) =
            clone_pages-Ran z v.start k st (omega (arith, whole, j)) source copy
              (omega (arith, room)) in
          rw (enough v, e, fine, clone_areas, clone_one_vma)
            (clone_areas-works z memory v.end vs (vma_insert t v).0 (clone_pages z st v.start k).0
              enough sorted each good1
              (λ a n. finds a ∙ past v a n (above a (omega (arith, i, j, n)))) source1 copy1
              (omega (arith, room, left)))
    ]

-- From a sound address space in which no user address is on a huge page, with memory for the
-- new space and for each area, and three pages for tables for each page of an area:
-- `vmm_clone_space` makes a space.
vmm_clone_space-works :
    (z : ℕ) (kernel : Pml4) (base : ℕ) (memory : Vma → Bool) (s : Space)
    → Sound s
    → NoHuge s.pml4
    → ((v : Vma) → memory v ≡ true)
    → frames_for (items s.vmas) ≤ s.frames
    → (u : Space) × ((vmm_clone_space z kernel true base memory s).made ≡ ok u)
unfolding vmm_clone_space vmm_create_space vma_find clone_kernel_half
vmm_clone_space-works z kernel base memory s good clear enough room =
    let start : Cloning = record {
      source = s.pml4;
      copy = clone_kernel_half kernel;
      frames = s.frames;
      gets = [];
    } in
    let each =
      each_whole 0 (items s.vmas) good.valid.ordered
        (λ a v e. good.whole a v (vma_find-items a good.valid ∙ e)) in
    let fresh : NoHuge (clone_kernel_half kernel) =
      λ i h. let low : ltb i 256 ≡ true = ground (arith, h) in rw (low, clone_kernel_half) tt in
    let fine : (clone_areas z memory (leaf, start) (items s.vmas)).1 ≡ ok tt =
      clone_areas-works z memory 0 (items s.vmas) leaf start enough good.valid.ordered each
        leaf-Valid (λ a h. refl) clear fresh room in
    rw (fine, vmm_clone_space) (_, refl)

made_gets :
    {z : ℕ} {s u : Space} {r : CloneResult}
    → CloneOutcome z s r
    → r.made ≡ ok u
    → r.gets ≡ gets_over z s.pml4 (items s.vmas)
made_gets (cloned u e _ _ _ _ _ _ _ gets) made = gets
made_gets {u = u} (failed x e _ _ _) made = absurd (clash (sym e ∙ made))
  where
    clash : err x ≡ ok u → ⊥
    clash h = cc

-- From a sound address space in which no user address is on a huge page, with memory for the
-- new space and for each area, and three pages for tables for each page of an area, on a
-- page-frame table in which each page to be shared is in use and has a reference, and no count
-- comes above 65535: `vmm_clone_space` does not panic and makes a space, and the count of each
-- frame rises by the number of pages of the space that are that frame, area by area, but not
-- for the zero page.
pub vmm_clone_space_on-works :
    (p : Pmm) (kernel : Pml4) (base : ℕ) (memory : Vma → Bool) (s : Space)
    → Sound s
    → NoHuge s.pml4
    → ((v : Vma) → memory v ≡ true)
    → frames_for (items s.vmas) ≤ s.frames
    → Referable p (gets_over p.mm_zero_page s.pml4 (items s.vmas))
    → (c : CloneResult) × (u : Space) × (q : Pmm) × (vmm_clone_space_on p kernel true base memory s
        ≡ done (c, q))
      × (c.made ≡ ok u)
      × ((f : ℕ)
          → count_of q f ≡ count_of p f + times f (gets_over p.mm_zero_page s.pml4 (items s.vmas)))
unfolding vmm_clone_space_on
vmm_clone_space_on-works p kernel base memory s good clear enough room can =
    let z = p.mm_zero_page in
    let c = vmm_clone_space z kernel true base memory s in
    let (u, made) = vmm_clone_space-works z kernel base memory s good clear enough room in
    let gets = made_gets (vmm_clone_space-Outcome z kernel true base memory s good) made in
    let (q, run, counts) = take_references-works p _ can in
    (
      c,
      u,
      q,
      ap (λ x. then_run (take_references p x) λ y. done (c, y)) gets
          ∙ ap (λ x. then_run x λ y. done (c, y)) run,
      made,
      counts,
    )
