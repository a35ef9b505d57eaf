-- ===== src/Mm/Space/Backing.antt =====
-- kernel/mm/mmap.c: what holds of an address space between calls, and `vma_remove_range` keeps it.
use jnu.Base.{
  ℕ, ◌%◌, ◌^◌, ◌<◌, ◌≡◌, refl, sym, ap, ◌∙◌, inl, inr, Bool, true, false, ◌&&◌, Option, none, some,
  if◌then◌else◌, Result, ok, err, Errno, arith, Bool-cases, Result-cases,
}
use jnu.Mm.Vma.{Vma, VmaFlags, vma_find, vma_remove_range, split_ends, walk_from}
use jnu.Mm.Vma.Order.{Valid}
use jnu.Mm.Vma.Split.{flags_at, flags_of, AllWhole}
use jnu.Mm.Vma.Range.{in_range, vma_remove_range-Removed}
use jnu.Arch.Paging.{Pte, PteFlags}
use jnu.Arch.Paging.Entry.{entry_at}
use jnu.Mm.Space.{Space, Memory, unmap_within, remove_range}
use jnu.Mm.Space.Unmap.{Backed, remove_range-entry}

-- An entry gives no more than the area does.
abbrev pub Allows : VmaFlags → PteFlags → Type 0
Allows f p = (p.write ≡ true → f.write ≡ true) × (p.nx ≡ false → f.exec ≡ true)

-- The areas are of whole user pages, none is both writable and executable, and every entry of a user
-- address is for a page of an area that allows it.
pub record Sound (s : Space) : Type 0 where
  pub valid : Valid s.vmas
  pub whole : AllWhole s.vmas
  pub exclusive : (a : ℕ) (f : VmaFlags) → flags_at s.vmas a ≡ some f → (f.write && f.exec) ≡ false
  pub allowed :
      (w : ℕ) (e : Pte)
      → w < 2 ^ 47
      → entry_at s.pml4 w ≡ some e
      → (f : VmaFlags) × (flags_at s.vmas w ≡ some f) × Allows f e.flags

pub Sound-Backed : {s : Space} → Sound s → Backed s
Sound-Backed good w e h p q = let (f, x, _) = good.allowed w e h p in clash (sym x ∙ ap flags_of q)
  where
    clash : {g : VmaFlags} → some g ≡ none → ⊥
    clash x = cc

-- With the same flags everywhere, and entries that were there, nothing is lost.
pub Sound-same :
    {s : Space} (u : Space)
    → Sound s
    → Valid u.vmas
    → AllWhole u.vmas
    → ((a : ℕ) → flags_at u.vmas a ≡ flags_at s.vmas a)
    → u.pml4 ≡ s.pml4
    → Sound u
Sound-same {s} u good v all same tables = record {
  valid = v;
  whole = all;
  exclusive = λ a f e. good.exclusive a f (sym (same a) ∙ e);
  allowed = λ w e h p.
      let (f, x, y) = good.allowed w e h (ap (λ m. entry_at m w) (sym tables) ∙ p) in
      (f, same w ∙ x, y);
}

-- What `vma_remove_range` leaves of an address space.
pub record Removed (z : ℕ) (s : Space) (start end : ℕ) (memory : Memory)
    (r : Space × Result (Unit {0})) : Type 0 where
  pub sound : Sound r.0
  -- With memory, and a range of whole pages, there is no error.
  pub works :
      start < end
      → start % 4096 ≡ 0
      → end % 4096 ≡ 0
      → memory.left ≡ true
      → memory.right ≡ true
      → r.1 ≡ ok tt
  -- On an error every address has the flags it had.
  pub failed : (x : Errno) → r.1 ≡ err x → (a : ℕ) → flags_at r.0.vmas a ≡ flags_at s.vmas a
  pub outside : (a : ℕ) → in_range start end a ≡ false → flags_at r.0.vmas a ≡ flags_at s.vmas a
  pub cleared : r.1 ≡ ok tt → (a : ℕ) → in_range start end a ≡ true → vma_find r.0.vmas a ≡ none
  pub entries :
      r.1 ≡ ok tt
      → (a : ℕ) → a < 2 ^ 47
      → entry_at r.0.pml4 a ≡ (if in_range start end a then none else entry_at s.pml4 a)

pub remove_range-Removed :
    {s : Space} (z start end : ℕ) (memory : Memory)
    → Sound s
    → Removed z s start end memory (remove_range z s start end memory)
unfolding remove_range
remove_range-Removed {s} z start end memory good =
    let tree = vma_remove_range-Removed start end memory.left memory.right good.valid in
    elim (Result-cases (vma_remove_range s.vmas start end memory.left memory.right).1) [
      | inl (x, f) ↦
          rw (f, remove_range)
            (record {
              sound = Sound-same _ good tree.valid (tree.whole good.whole) (tree.failed x f) refl;
              works = λ a b c d e. absurd (clash f (tree.works a b c d e));
              failed = λ _ _. tree.failed x f;
              outside = λ a _. tree.failed x f a;
              cleared = λ bad. absurd (clash refl bad);
              entries = λ bad. absurd (clash refl bad);
            })
      | inr (_, f) ↦
          let done : (remove_range z s start end memory).1 ≡ ok tt = rw (f, remove_range) refl in
          let t = (vma_remove_range s.vmas start end memory.left memory.right).0 in
          let parted = (split_ends s.vmas start end memory.left memory.right).0 in
          let m = (unmap_within z s.pml4 start end (walk_from parted start)).0 in
          let tables : (remove_range z s start end memory).0.pml4 ≡ m = rw (f, remove_range) refl in
          let entry : (w : ℕ)
              → w < 2 ^ 47
              → entry_at m w ≡ (if in_range start end w then none else entry_at s.pml4 w) =
            λ w h.
              sym (ap (λ x. entry_at x w) tables)
              ∙ remove_range-entry z s start end memory w good.valid good.whole (Sound-Backed good)
                  done h in
          rw (f, remove_range)
            (record {
              sound = record {
                valid = tree.valid;
                whole = tree.whole good.whole;
                exclusive = λ a g e. elim (Bool-cases (in_range start end a)) [
                  | inl i ↦ absurd (unflagged (tree.cleared f a i) e)
                  | inr i ↦ good.exclusive a g (sym (tree.outside a i) ∙ e)
                ];
                allowed = λ w e h p. elim (Bool-cases (in_range start end w)) [
                  | inl i ↦ absurd (unmapped (entry_at s.pml4 w) i (sym (entry w h) ∙ p))
                  | inr i ↦
                      let (g, x, y) =
                        good.allowed w e h (kept (entry_at s.pml4 w) i (sym (entry w h) ∙ p)) in
                      (g, tree.outside w i ∙ x, y)
                ];
              };
              works = λ _ _ _ _ _. refl;
              failed = λ x bad. absurd (clash bad refl);
              outside = tree.outside;
              cleared = λ _. tree.cleared f;
              entries = λ _. entry;
            })
    ]
  where
    clash : {r : Result (Unit {0})} {x : Errno} → r ≡ err x → r ≡ ok tt → ⊥
    clash a b = cc

    unflagged : {o : Option Vma} {g : VmaFlags} → o ≡ none → flags_of o ≡ some g → ⊥
    unflagged {o} {g} a b = both (sym b ∙ ap flags_of a)
      where
        both : some g ≡ none → ⊥
        both x = cc

    unmapped :
        {b : Bool} (x : Option Pte) {e : Pte} → b ≡ true → (if b then none else x) ≡ some e → ⊥
    unmapped x a c = cc

    kept :
        {b : Bool} (x : Option Pte) {e : Pte}
        → b ≡ false
        → (if b then none else x) ≡ some e
        → x ≡ some e
    kept x a c = ground (arith, a, c)
