-- ===== src/Mm/Space/Clone/Copy.antt =====
-- kernel/mm/clone_space.c: the whole copy, and the space that is copied.
use jnu.Base.{
  ℕ, ◌^◌, ◌<◌, ◌≡◌, refl, sym, ap, ◌∙◌, subst, ◌⊎◌, inl, inr, Bool, true, false, ◌||◌, Option, none,
  some, List, [], ◌∷◌, ltb, ok, err, Errno, enomem, arith, Bool-cases, Option-cases,
}
use jnu.Rbtree.{leaf}
use jnu.Rbtree.Order.{items}
use jnu.Mm.Vma.{Vma, VmaFlags, vma_find}
use jnu.Mm.Vma.Order.{Areas, Valid, holds}
use jnu.Mm.Vma.Find.{find_in, find_in_below, vma_find-items}
use jnu.Mm.Vma.Split.{Whole, flags_at, flags_of}
use jnu.Arch.Paging.{Pte, Pml4, pml4_idx}
use jnu.Arch.Paging.Entry.{entry_at}
use jnu.Mm.Space.{Space}
use jnu.Mm.Space.Backing.{Sound, Allows}
use jnu.Mm.Space.Clone.{Cloning, CloneResult, clone_kernel_half, vmm_create_space, vmm_clone_space}
use jnu.Mm.Space.Clone.Shared.{shared, Copied, Stripped}
use jnu.Mm.Space.Clone.Areas.{
  EachWhole, covers, or_else, gets_over, all_added, cut_short, none-some, clone_areas-Adding,
}

pub each_whole :
    (lo : ℕ) (vs : List Vma)
    → Areas lo vs
    → ((a : ℕ) (v : Vma) → find_in vs a ≡ some v → Whole v)
    → EachWhole vs
each_whole lo [] sorted whole = tt
each_whole lo (v ∷ vs) (i, j, sorted) whole =
    let here : holds v v.start ≡ true = ground (arith, j) in
    (whole v.start v (rw here refl), each_whole v.end vs sorted λ a x e. whole a x (later a x e))
  where
    later : (a : ℕ) (x : Vma) → find_in vs a ≡ some x → find_in (v ∷ vs) a ≡ some x
    later a x e = elim (Bool-cases (holds v a)) [
      | inl h ↦ absurd (none-some (sym (find_in_below v.end vs a sorted (ground (arith, h))) ∙ e))
      | inr h ↦ rw h e
    ]

not_covered : (vs : List Vma) (w : ℕ) → covers vs w ≡ false → find_in vs w ≡ none
not_covered [] w e = refl
not_covered (v ∷ vs) w e = elim (Bool-cases (holds v w)) [
  | inl h ↦ cc
  | inr h ↦ rw h (not_covered vs w (subst (λ b. (b || covers vs w) ≡ false) h e))
]

abbrev may_write : Option Pte → Bool
may_write none = false
may_write (some e) = e.flags.write

abbrev no_run : Option Pte → Bool
no_run none = false
no_run (some e) = e.flags.nx

origin :
    (e : Pte) (o : Option Pte)
    → some e ≡ shared o
    → (e0 : Pte) × (o ≡ some e0) × (e.flags.write ≡ false) × (e.flags.nx ≡ e0.flags.nx)
origin e none d = cc
origin e (some e0) d = (e0, refl, ap may_write d, ap no_run d)

-- The areas of the other space are the same, and its entries those of this one, with or without
-- `PTE_WRITE`.
Sound-like :
    {s : Space} (u : Space)
    → Sound s
    → Valid u.vmas
    → ((a : ℕ) → vma_find u.vmas a ≡ vma_find s.vmas a)
    → Stripped s.pml4 u.pml4
    → Sound u
Sound-like {s} u good v same stripped = record {
  valid = v;
  whole = λ a x e. good.whole a x (sym (same a) ∙ e);
  exclusive = λ a f e. good.exclusive a f (sym (ap flags_of (same a)) ∙ e);
  allowed = λ w e h p.
      kept w e h (elim (stripped w h) [ inl q ↦ inl (sym p ∙ q) | inr q ↦ inr (sym p ∙ q) ]);
}
  where
    kept :
        (w : ℕ) (e : Pte)
        → w < 2 ^ 47
        → (some e ≡ entry_at s.pml4 w) ⊎ (some e ≡ shared (entry_at s.pml4 w))
        → (f : VmaFlags) × (flags_at u.vmas w ≡ some f) × Allows f e.flags
    kept w e h (inl d) =
        let (f, x, allows) = good.allowed w e h (sym d) in (f, ap flags_of (same w) ∙ x, allows)
    kept w e h (inr d) =
        let (e0, q, writes, runs) = origin e (entry_at s.pml4 w) d in
        let (f, x, allows) = good.allowed w e0 h q in
        (f, ap flags_of (same w) ∙ x, ((λ i. cc), λ i. allows.1 (sym runs ∙ i)))

blank-Copied :
    (kernel m : Pml4) (frames : ℕ)
    → Copied m
        (λ w. false)
        (record { source = m; copy = clone_kernel_half kernel; frames = frames; gets = [] })
unfolding clone_kernel_half entry_at
blank-Copied kernel m frames = record {
  source_done = λ w h d. cc;
  copy_done = λ w h d. cc;
  source_left = λ w h d. refl;
  copy_left = λ w h d.
      let low : ltb (pml4_idx w) 256 ≡ true = ground (arith, h) in rw (low, clone_kernel_half) refl;
}

-- What a copy does. Either the new space has the areas of the source, in both spaces no page that was
-- mapped may be written any more and the rest of each entry is as it was, and the references are those
-- of the pages; or there is an error, no new space, and entries of the source lost no more than
-- `PTE_WRITE`. The areas of the source stay, and both spaces are sound.
pub data CloneOutcome (z : ℕ) (s : Space) (r : CloneResult) : Type 0 where
  cloned :
      (u : Space)
      → r.made ≡ ok u
      → r.destroyed ≡ none
      → Sound r.source
      → Sound u
      → r.source.vmas ≡ s.vmas
      → ((a : ℕ) → vma_find u.vmas a ≡ vma_find s.vmas a)
      → ((w : ℕ) → w < 2 ^ 47 → entry_at r.source.pml4 w ≡ shared (entry_at s.pml4 w))
      → ((w : ℕ) → w < 2 ^ 47 → entry_at u.pml4 w ≡ shared (entry_at s.pml4 w))
      → r.gets ≡ gets_over z s.pml4 (items s.vmas)
      → CloneOutcome z s r
  failed :
      (x : Errno)
      → r.made ≡ err x
      → Sound r.source
      → r.source.vmas ≡ s.vmas
      → Stripped s.pml4 r.source.pml4
      → CloneOutcome z s r

pub leaf-Valid : Valid leaf
leaf-Valid = record { ordered = tt; balanced = (0, refl) }

either_none : (o : Option Vma) → or_else o none ≡ o
either_none none = refl
either_none (some v) = refl

-- An entry of a sound space is in an area.
outside :
    {s : Space}
    → Sound s
    → (w : ℕ) → w < 2 ^ 47
    → covers (items s.vmas) w ≡ false
    → entry_at s.pml4 w ≡ none
outside {s} good w h k = elim (Option-cases (entry_at s.pml4 w)) [
  | inl e ↦ e
  | inr (x, e) ↦
      let (f, q, _) = good.allowed w x h e in
      absurd (
        no_flags
          (sym (ap flags_of (vma_find-items w good.valid ∙ not_covered (items s.vmas) w k)) ∙ q))
]
  where
    no_flags : {f : VmaFlags} → none ≡ some f → ⊥
    no_flags e = cc

everywhere :
    {s : Space} (o : Option Pte)
    → Sound s
    → (w : ℕ) → w < 2 ^ 47
    → (covers (items s.vmas) w ≡ true → o ≡ shared (entry_at s.pml4 w))
    → (covers (items s.vmas) w ≡ false → (o ≡ entry_at s.pml4 w) ⊎ (o ≡ none))
    → o ≡ shared (entry_at s.pml4 w)
everywhere {s} o good w h hit miss = elim (Bool-cases (covers (items s.vmas) w)) [
  | inl k ↦ hit k
  | inr k ↦
      let empty = outside good w h k in
      elim (miss k) [ inl e ↦ e ∙ rw empty refl | inr e ↦ e ∙ rw empty refl ]
]

-- From a sound address space, `vmm_clone_space` either makes a sound one that has the same area
-- at every address, in both the entry of every user address is the one the source had, without
-- `PTE_WRITE`, and the references taken are those of the pages, area by area, but not of the
-- zero page; or it fails, and the entry of every user address of the source is as it was or
-- without `PTE_WRITE`. The source is sound and has its areas either way.
pub vmm_clone_space-Outcome :
    (z : ℕ) (kernel : Pml4) (room : Bool) (base : ℕ) (memory : Vma → Bool) (s : Space)
    → Sound s
    → CloneOutcome z s (vmm_clone_space z kernel room base memory s)
unfolding vmm_clone_space vmm_create_space vma_find
vmm_clone_space-Outcome z kernel false base memory s good =
    failed enomem refl good refl (λ w h. inl refl)
vmm_clone_space-Outcome z kernel true base memory s good =
    let start : Cloning = record {
      source = s.pml4;
      copy = clone_kernel_half kernel;
      frames = s.frames;
      gets = [];
    } in
    let each =
      each_whole 0 (items s.vmas) good.valid.ordered
        (λ a v e. good.whole a v (vma_find-items a good.valid ∙ e)) in
    elim (clone_areas-Adding z memory 0 (items s.vmas) leaf start good.valid.ordered each leaf-Valid
      (λ a h. refl) (blank-Copied kernel s.pml4 s.frames)) [
        | cut_short x e left ↦
            rw (e, vmm_clone_space)
              (failed x refl (Sound-like _ good good.valid (λ a. refl) left) refl left)
        | all_added e v finds c gets ↦
            let same = λ (a : ℕ).
              finds a
              ∙ (either_none (find_in (items s.vmas) a) ∙ sym (vma_find-items a good.valid)) in
            let source = λ (w : ℕ) (h : w < 2 ^ 47).
              everywhere _ good w h (c.source_done w h) (λ k. inl (c.source_left w h k)) in
            let copy = λ (w : ℕ) (h : w < 2 ^ 47).
              everywhere _ good w h (c.copy_done w h) (λ k. inr (c.copy_left w h k)) in
            rw (e, vmm_clone_space)
              (cloned _ refl refl
                (Sound-like _ good good.valid (λ a. refl) (λ w h. inr (source w h)))
                (Sound-like _ good v same (λ w h. inr (copy w h))) refl same source copy gets)
      ]
