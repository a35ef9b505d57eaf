-- ===== src/Mm/Space/Munmap.antt =====
-- kernel/mm/mmap.c: `sys_munmap`.
use jnu.Base.{
  ℕ, ◌+◌, ◌%◌, ◌^◌, ◌≤◌, ◌<◌, ◌≡◌, refl, sym, ap, ◌∙◌, inl, inr, Bool, true, false, not, ◌||◌, none,
  ltb, ◌==◌, if◌then◌else◌, Result, ok, err, Errno, einval, arith, Bool-cases, Result-cases, add64,
}
use jnu.Mm.Vma.{vma_find}
use jnu.Mm.Vma.Split.{flags_at, flags_of}
use jnu.Mm.Vma.Range.{in_range}
use jnu.Arch.Paging.Entry.{entry_at}
use jnu.Mm.Space.{Space, Memory, user_top, page_align_up, sys_munmap}
use jnu.Mm.Space.Backing.{Sound, Removed, remove_range-Removed}
use jnu.Mm.Space.Place.{err_unit}
use jnu.Mm.Space.Calls.{page_align_up_lem, page_align_up_small}

-- What a call of `munmap` leaves.
record Unmapped (s : Space) (addr length len : ℕ) (memory : Memory) (r : Space × Result (Unit {0}))
    : Type 0 where
  sound : Sound r.0
  -- With memory, and a range of user pages, there is no error.
  works :
      addr % 4096 ≡ 0
      → 0 < length
      → length + 8192 ≤ 2 ^ 64
      → addr + len ≤ 2 ^ 47
      → memory.left ≡ true
      → memory.right ≡ true
      → r.1 ≡ ok tt
  cleared :
      r.1 ≡ ok tt
      → (a : ℕ) → in_range addr (addr + len) a ≡ true
      → (vma_find r.0.vmas a ≡ none) × (a < 2 ^ 47 → entry_at r.0.pml4 a ≡ none)
  outside :
      r.1 ≡ ok tt
      → (a : ℕ) → in_range addr (addr + len) a ≡ false
      → (flags_at r.0.vmas a ≡ flags_at s.vmas a)
        × (a < 2 ^ 47 → entry_at r.0.pml4 a ≡ entry_at s.pml4 a)
  failed : (x : Errno) → r.1 ≡ err x → (a : ℕ) → flags_at r.0.vmas a ≡ flags_at s.vmas a

sys_munmap-Unmapped :
    {s : Space} (z addr length : ℕ) (memory : Memory)
    → Sound s
    → addr < 2 ^ 64
    → Unmapped s addr length (page_align_up length) memory (sys_munmap z s addr length memory)
unfolding sys_munmap
sys_munmap-Unmapped {s} z addr length memory good word =
    let len = page_align_up length in
    elim (Bool-cases (not (addr % 4096 == 0) || len == 0)) [
      | inl k ↦
          rw (k, sys_munmap)
            (nothing einval
              λ a b c d. let (x, y, w) = page_align_up_lem length c in ground (arith, k, a, b, y))
      | inr k ↦ elim (Bool-cases (ltb (add64 addr len) addr || ltb user_top (add64 addr len))) [
        | inl n ↦
            rw (k, n, sys_munmap)
              (nothing einval λ a b c d.
                let sum : add64 addr len ≡ addr + len = omega (arith, d) in
                ground (arith, n, sum, d))
        | inr n ↦
            let up : addr ≤ add64 addr len = ground (arith, n) in
            let sum : add64 addr len ≡ addr + len =
              omega (arith, up, word, page_align_up_small length) in
            rw (k, n, sys_munmap)
              (removed sum (ground (arith, k))
                (remove_range-Removed z addr (add64 addr len) memory good))
      ]
    ]
  where
    clash : {x : Errno} → err_unit x ≡ ok tt → ⊥
    clash e = cc

    nothing :
        (x : Errno)
        → (addr % 4096 ≡ 0
            → 0 < length
            → length + 8192 ≤ 2 ^ 64
            → addr + page_align_up length ≤ 2 ^ 47
            → ⊥)
        → Unmapped s addr length (page_align_up length) memory (s, err x)
    nothing x no_way = record {
      works = λ a b c d _ _. absurd (no_way a b c d);
      sound = good;
      cleared = λ bad. absurd (clash bad);
      outside = λ bad. absurd (clash bad);
      failed = λ _ _ a. refl;
    }

    removed :
        add64 addr (page_align_up length) ≡ addr + page_align_up length
        → 0 < page_align_up length
        → {r : Space × Result (Unit {0})}
        → Removed z s addr (add64 addr (page_align_up length)) memory r
        → Unmapped s addr length (page_align_up length) memory r
    removed sum long {r} p =
        let same : (a : ℕ)
            → in_range addr (addr + page_align_up length) a
              ≡ in_range addr (add64 addr (page_align_up length)) a =
          λ a. ap (λ d. in_range addr d a) (sym sum) in
        record {
          sound = p.sound;
          works = λ a b c d e f.
              let (x, _, _) = page_align_up_lem length c in
              p.works (omega (arith, sum, long)) a (omega (arith, sum, a, x)) e f;
          cleared = λ e a i.
              (p.cleared e a (sym (same a) ∙ i), λ h. p.entries e a h ∙ rw (sym (same a) ∙ i) refl);
          outside = λ e a i.
              (p.outside a (sym (same a) ∙ i), λ h. p.entries e a h ∙ rw (sym (same a) ∙ i) refl);
          failed = p.failed;
        }

-- What may stop `munmap`.
abbrev pub unmap_may_fail : ℕ → ℕ → Memory → Bool
unmap_may_fail addr length memory =
    not (addr % 4096 == 0)
    || (length == 0
        || (ltb (2 ^ 47) (addr + page_align_up length) || (not memory.left || not memory.right)))

pub data Unmapping (s : Space) (addr length : ℕ) (may_fail : Bool) (r : Space × Result (Unit {0}))
    : Type 0 where
  failed :
      (e : Errno)
      → r.1 ≡ err e
      → may_fail ≡ true
      → Sound r.0
      → ((a : ℕ) → flags_at r.0.vmas a ≡ flags_at s.vmas a)
      → Unmapping s addr length may_fail r
  unmapped :
      r.1 ≡ ok tt
      → Sound r.0
      → ((a : ℕ)
          → flags_at r.0.vmas a
            ≡ (if in_range addr (addr + page_align_up length) a then none else flags_at s.vmas a))
      → ((a : ℕ)
          → a < 2 ^ 47
          → entry_at r.0.pml4 a
            ≡ (if in_range addr (addr + page_align_up length) a then none else entry_at s.pml4 a))
      → Unmapping s addr length may_fail r

-- In a sound address space, for a 64-bit address and a length of at most 2 ^ 64 - 8192:
-- `munmap` either fails, for one of the reasons that `unmap_may_fail` lists, and every address
-- has the flags it had; or it succeeds, the addresses from `addr` up to the rounded length are
-- in no area and have no entry in the page tables, and flags and entries of all other user
-- addresses are as they were. The address space is sound either way.
pub sys_munmap-Unmapping :
    {s : Space} (z addr length : ℕ) (memory : Memory)
    → Sound s
    → addr < 2 ^ 64
    → length + 8192 ≤ 2 ^ 64
    → Unmapping s addr length
        (unmap_may_fail addr length memory)
        (sys_munmap z s addr length memory)
sys_munmap-Unmapping {s} z addr length memory good word short =
    let p = sys_munmap-Unmapped z addr length memory good word in
    let end = addr + page_align_up length in
    let r = sys_munmap z s addr length memory in
    elim (Result-cases (sys_munmap z s addr length memory).1) [
      | inr (_, e) ↦
          unmapped e p.sound
            (λ a. elim (Bool-cases (in_range addr end a)) [
              | inl i ↦ rw i (ap flags_of (p.cleared e a i).0)
              | inr i ↦ rw i (p.outside e a i).0
            ])
            (λ a h. elim (Bool-cases (in_range addr end a)) [
              | inl i ↦ rw i ((p.cleared e a i).1 h)
              | inr i ↦ rw i ((p.outside e a i).1 h)
            ])
      | inl (x, e) ↦ elim (Bool-cases (unmap_may_fail addr length memory)) [
        | inl m ↦ failed x e m p.sound (p.failed x e)
        | inr m ↦
            let done =
              p.works (ground (arith, m)) (ground (arith, m)) short (ground (arith, m))
                (ground (arith, m)) (ground (arith, m)) in
            absurd (clash e done)
      ]
    ]
  where
    clash : {r : Result (Unit {0})} {x : Errno} → r ≡ err x → r ≡ ok tt → ⊥
    clash a b = cc
