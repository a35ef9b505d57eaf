-- ===== src/Mm/Space/Protect/Range.antt =====
-- kernel/mm/mmap.c: the splits and the loop of `sys_mprotect`, and what they leave of an address space.
use jnu.Base.{
  ℕ, ◌%◌, ◌^◌, ◌<◌, ◌≡◌, refl, sym, ap, ◌∙◌, subst, inl, inr, Bool, true, false, not, ◌&&◌, ◌||◌,
  Option, none, some, if◌then◌else◌, Result, ok, err, Errno, arith, Bool-cases, Option-cases,
  Result-cases,
}
use jnu.Mm.Vma.{Vma, VmaFlags, vma_find, split_ends, walk_from}
use jnu.Mm.Vma.Order.{Valid}
use jnu.Mm.Vma.Find.{find_in}
use jnu.Mm.Vma.Split.{flags_at, flags_of, Whole, AllWhole}
use jnu.Mm.Vma.Walks.{walk_from-Walk}
use jnu.Mm.Vma.Range.{in_range}
use jnu.Mm.Vma.Edges.{split_ends-Ends}
use jnu.Arch.Paging.{Pte}
use jnu.Arch.Paging.Entry.{entry_at}
use jnu.Arch.Paging.Room.{NoHuge}
use jnu.Mm.Space.{Space, Memory}
use jnu.Mm.Space.Backing.{Sound, Allows, Sound-same}
use jnu.Mm.Space.Unmap.{is_found, all_beside}
use jnu.Mm.Space.Place.{err_unit}
use jnu.Mm.Space.Protect.{protect_range}
use jnu.Mm.Space.Protect.Pages.{refreshed, allowed_by}
use jnu.Mm.Space.Protect.Areas.{reflagged, protect_within-Loop}

-- The new flags where there is an area.
abbrev pub over : VmaFlags → Option VmaFlags → Option VmaFlags
over f none = none
over f (some g) = some f

pub data Protecting (z : ℕ) (refs : ℕ → ℕ) (f : VmaFlags) (s : Space) (start end : ℕ)
    (may_fail : Bool) (r : Space × Result (Unit {0})) : Type 0 where
  failed :
      (x : Errno)
      → r.1 ≡ err x
      → may_fail ≡ true
      → Sound r.0
      → r.0.pml4 ≡ s.pml4
      → ((a : ℕ) → flags_at r.0.vmas a ≡ flags_at s.vmas a)
      → Protecting z refs f s start end may_fail r
  protected :
      r.1 ≡ ok tt
      → Sound r.0
      → NoHuge r.0.pml4
      → ((a : ℕ)
          → flags_at r.0.vmas a
            ≡ (if in_range start end a then over f (flags_at s.vmas a) else flags_at s.vmas a))
      → ((w : ℕ)
          → w < 2 ^ 47
          → entry_at r.0.pml4 w ≡ (
              if in_range start end w
              then refreshed z refs f (entry_at s.pml4 w)
              else entry_at s.pml4 w))
      → Protecting z refs f s start end may_fail r

in_area :
    (f : VmaFlags) (b : Bool) (o q : Option Vma)
    → (b ≡ true → o ≡ q)
    → flags_of (reflagged f (b && is_found q) o) ≡ (if b then over f (flags_of o) else flags_of o)
in_area f true none q same = refl
in_area f false none q same = refl
in_area f true (some v) q same = rw (sym (same refl)) refl
in_area f false (some v) q same = refl

reflagged-Whole :
    (f : VmaFlags) (b : Bool) (o : Option Vma) (v : Vma)
    → reflagged f b o ≡ some v
    → ((x : Vma) → o ≡ some x → Whole x)
    → Whole v
reflagged-Whole f b none v e whole = cc
reflagged-Whole f true (some x) v e whole = subst Whole (area_same e) (whole x refl)
  where
    area_or : Option Vma → Vma
    area_or none = v
    area_or (some y) = y

    area_same : {y : Vma} → some y ≡ some v → y ≡ v
    area_same d = ap area_or d
reflagged-Whole f false (some x) v e whole = whole v e

abbrev flags_or : VmaFlags → Option VmaFlags → VmaFlags
flags_or d none = d
flags_or d (some g) = g

over-some : (f : VmaFlags) (o : Option VmaFlags) (g : VmaFlags) → over f o ≡ some g → f ≡ g
over-some f none g e = cc
over-some f (some x) g e = ap (λ o. flags_or f o) e

allowed_by-Allows :
    (z : ℕ) (refs : ℕ → ℕ) (f : VmaFlags) (pa : ℕ) → Allows f (allowed_by z refs f pa)
allowed_by-Allows z refs f pa = (writes f.write _, runs f.exec)
  where
    writes : (a b : Bool) → (a && b) ≡ true → a ≡ true
    writes true b e = refl
    writes false b e = e

    runs : (a : Bool) → not a ≡ false → a ≡ true
    runs true e = refl
    runs false e = cc

abbrev pte_or : Pte → Option Pte → Pte
pte_or d none = d
pte_or d (some e) = e

refreshed-some :
    (z : ℕ) (refs : ℕ → ℕ) (f : VmaFlags) (o : Option Pte) (e : Pte)
    → refreshed z refs f o ≡ some e
    → (e0 : Pte) × (o ≡ some e0) × Allows f e.flags
refreshed-some z refs f none e d = cc
refreshed-some z refs f (some e0) e d = (
  e0,
  refl,
  subst (λ (x : Pte). Allows f x.flags) (ap (λ o. pte_or e o) d)
      (allowed_by-Allows z refs f e0.address),
)

-- An address space whose areas and entries have new flags in a range.
Sound-protected :
    (z : ℕ) (refs : ℕ → ℕ) (f : VmaFlags) {s : Space} (start end : ℕ) (u : Space)
    → Sound s
    → (f.write && f.exec) ≡ false
    → Valid u.vmas
    → AllWhole u.vmas
    → ((a : ℕ)
        → flags_at u.vmas a
          ≡ (if in_range start end a then over f (flags_at s.vmas a) else flags_at s.vmas a))
    → ((w : ℕ)
        → w < 2 ^ 47
        → entry_at u.pml4 w ≡ (
            if in_range start end w
            then refreshed z refs f (entry_at s.pml4 w)
            else entry_at s.pml4 w))
    → Sound u
Sound-protected z refs f {s} start end u good wx valid whole flags entries = record {
  valid = valid;
  whole = whole;
  exclusive = λ a g e. elim (Bool-cases (in_range start end a)) [
    | inl i ↦
        subst (λ (x : VmaFlags). (x.write && x.exec) ≡ false)
          (over-some f (flags_at s.vmas a) g (sym (flags a ∙ rw i refl) ∙ e)) wx
    | inr i ↦ good.exclusive a g (sym (flags a ∙ rw i refl) ∙ e)
  ];
  allowed = λ w e h p. elim (Bool-cases (in_range start end w)) [
    | inl i ↦
        let (e0, q, allows) =
          refreshed-some z refs f (entry_at s.pml4 w) e (sym (entries w h ∙ rw i refl) ∙ p) in
        let (g, x, _) = good.allowed w e0 h q in
        (f, flags w ∙ (rw i (ap (λ o. over f o) x)), allows)
    | inr i ↦
        let (g, x, y) = good.allowed w e h (sym (entries w h ∙ rw i refl) ∙ p) in
        (g, flags w ∙ rw i x, y)
  ];
}

entries_in :
    (z : ℕ) (refs : ℕ → ℕ) (f : VmaFlags) (b : Bool) (q : Option Vma) (o : Option Pte)
    → (b ≡ true → q ≡ none → o ≡ none)
    → (if b && is_found q then refreshed z refs f o else o)
      ≡ (if b then refreshed z refs f o else o)
entries_in z refs f false q o h = refl
entries_in z refs f true (some v) o h = refl
entries_in z refs f true none o h = let empty = h refl refl in rw empty refl

unbacked :
    {s : Space}
    → Sound s
    → (w : ℕ) → w < 2 ^ 47
    → flags_at s.vmas w ≡ none
    → entry_at s.pml4 w ≡ none
unbacked {s} good w h away = elim (Option-cases (entry_at s.pml4 w)) [
  | inl e ↦ e
  | inr (x, e) ↦ let (g, q, _) = good.allowed w x h e in absurd (clash (sym away ∙ q))
]
  where
    clash : {g : VmaFlags} → none ≡ some g → ⊥
    clash c = cc

pub protect_range-Protecting :
    (z : ℕ) (refs : ℕ → ℕ) (f : VmaFlags) (s : Space) (start end : ℕ) (memory : Memory)
    → Sound s
    → NoHuge s.pml4
    → (f.write && f.exec) ≡ false
    → 0 < end
    → start % 4096 ≡ 0
    → end % 4096 ≡ 0
    → Protecting z refs f s start end
        (not memory.left || not memory.right)
        (protect_range z refs f s start end memory)
unfolding protect_range
protect_range-Protecting z refs f s start end memory good clear wx pos from to =
    let ends = split_ends-Ends start end memory.left memory.right pos good.valid in
    let t = (split_ends s.vmas start end memory.left memory.right).0 in
    elim (Result-cases (split_ends s.vmas start end memory.left memory.right).1) [
      | inl (x, e) ↦
          rw (e, protect_range)
            (failed x refl
              (short memory.left memory.right λ i j. fails (sym e ∙ ends.works from to i j))
              (Sound-same _ good ends.valid (ends.whole good.whole) ends.same_flags refl) refl
              ends.same_flags)
      | inr (_, e) ↦
          let (cut_start, cut_end) = ends.cuts e in
          let walk = walk_from-Walk start ends.valid in
          let beside =
            all_beside t start end 0 (walk_from t start) cut_start cut_end (ends.whole good.whole)
              walk.in_order walk.each in
          let l =
            protect_within-Loop z refs f start end 0 (walk_from t start) t s.pml4 ends.valid clear
              beside walk.in_order walk.each in
          let flags = λ (a : ℕ).
            ap flags_of (l.finds a)
            ∙ (in_area f (in_range start end a) (vma_find t a) (find_in (walk_from t start) a)
                  (λ i. walk.cover a (ground (arith, i)))
                ∙ ap (λ o. if in_range start end a then over f o else o) (ends.same_flags a)) in
          let entries = λ (w : ℕ) (h : w < 2 ^ 47).
            l.entries w h
            ∙ entries_in z refs f (in_range start end w) (find_in (walk_from t start) w)
                (entry_at s.pml4 w)
                (λ i q.
                  unbacked good w h (
                    sym (ends.same_flags w)
                    ∙ ap flags_of (walk.cover w (ground (arith, i)) ∙ q))) in
          let whole : AllWhole _ = λ a v q.
            reflagged-Whole f _ (vma_find t a) v (sym (l.finds a) ∙ q) (ends.whole good.whole a) in
          rw (e, protect_range)
            (protected l.fine
              (Sound-protected z refs f start end _ good wx l.valid whole flags entries) l.clear
              flags entries)
    ]
  where
    fails : {x : Errno} → err_unit x ≡ ok tt → ⊥
    fails c = cc

    short : (a b : Bool) → (a ≡ true → b ≡ true → ⊥) → (not a || not b) ≡ true
    short true true h = absurd (h refl refl)
    short true false h = refl
    short false b h = refl
