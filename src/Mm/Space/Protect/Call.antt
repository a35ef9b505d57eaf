-- ===== src/Mm/Space/Protect/Call.antt =====
-- kernel/mm/mmap.c: `sys_mprotect` as a whole.
use jnu.Base.{
  ℕ, ◌+◌, ◌%◌, ◌^◌, ◌≤◌, ◌<◌, ◌≡◌, refl, inl, inr, Bool, true, false, not, ◌&&◌, ◌||◌, ltb, ◌==◌,
  add64, Result, einval, arith, Bool-cases,
}
use jnu.Mm.Vma.{VmaFlags}
use jnu.Arch.Paging.Room.{NoHuge}
use jnu.Mm.Space.{Space, Memory, user_top, page_align_up, has, prot_to_vma}
use jnu.Mm.Space.Backing.{Sound}
use jnu.Mm.Space.Calls.{page_align_up_lem, page_align_up_small}
use jnu.Mm.Space.Protect.{sys_mprotect}
use jnu.Mm.Space.Protect.Range.{Protecting, failed, protect_range-Protecting, protected}

-- What may stop `mprotect`.
abbrev pub mprotect_may_fail : ℕ → ℕ → ℕ → Memory → Bool
mprotect_may_fail addr length prot memory =
    (has prot 2 && has prot 4)
    || (not (addr % 4096 == 0)
        || (length == 0
            || (ltb (2 ^ 47) (addr + page_align_up length)
                || (not memory.left || not memory.right))))

-- The last of the reasons is one of them.
last_reason :
    {z : ℕ} {refs : ℕ → ℕ} {f : VmaFlags} {s : Space} {start end : ℕ} {b : Bool}
    {r : Space × Result (Unit {0})} (c : Bool)
    → (b ≡ true → c ≡ true)
    → Protecting z refs f s start end b r
    → Protecting z refs f s start end c r
last_reason c h (failed x e m good tables flags) = failed x e (h m) good tables flags
last_reason c h (protected e good clear flags entries) = protected e good clear flags entries

at_end : (a b c : Bool) {d : Bool} → d ≡ true → (a || (b || (c || d))) ≡ true
at_end true b c e = refl
at_end false true c e = refl
at_end false false true e = refl
at_end false false false e = e

too_far : (n : ℕ) (a b d : Bool) → 2 ^ 47 < n → (a || (b || (ltb (2 ^ 47) n || d))) ≡ true
too_far n true b d h = refl
too_far n false true d h = refl
too_far n false false d h = let above : ltb (2 ^ 47) n ≡ true = ground (arith, h) in rw above refl

-- In a sound address space in which no user address is on a huge page, for a 64-bit address and
-- a length of at most 2 ^ 64 - 8192: `mprotect` either fails, for one of the reasons that
-- `mprotect_may_fail` lists, and the flags of every address and the page tables are as they
-- were; or it succeeds, the addresses from `addr` up to the rounded length that are in an area
-- have the new flags, an entry there keeps its page, stays open to the user, allows writing
-- exactly if the flags do and the page is neither the zero page nor shared, and execution
-- exactly if the flags do, and flags and entries of all other user addresses are as they were.
-- The address space is sound either way.
pub sys_mprotect-Protecting :
    (z : ℕ) (refs : ℕ → ℕ) {s : Space} (addr length prot : ℕ) (memory : Memory)
    → Sound s
    → NoHuge s.pml4
    → addr < 2 ^ 64
    → length + 8192 ≤ 2 ^ 64
    → Protecting z refs
        (prot_to_vma prot)
        s
        addr
        (addr + page_align_up length)
        (mprotect_may_fail addr length prot memory)
        (sys_mprotect z refs s addr length prot memory)
unfolding sys_mprotect prot_to_vma
sys_mprotect-Protecting z refs {s} addr length prot memory good clear word short =
    let len = page_align_up length in
    let may = mprotect_may_fail addr length prot memory in
    let (whole, covers, near) = page_align_up_lem length short in
    elim (Bool-cases (has prot 2 && has prot 4)) [
      | inl wx ↦ rw (wx, sys_mprotect) (failed einval refl refl good refl (λ a. refl))
      | inr wx ↦ elim (Bool-cases (not (addr % 4096 == 0) || len == 0)) [
        | inl k ↦
            rw (wx, k, sys_mprotect)
              (failed einval refl (ground (arith, k, covers)) good refl (λ a. refl))
        | inr k ↦ elim (Bool-cases (ltb (add64 addr len) addr || ltb user_top (add64 addr len))) [
          | inl n ↦
              rw (wx, k, n, sys_mprotect)
                (let far : 2 ^ 47 < addr + len =
                    ground (arith, n, word, page_align_up_small length) in
                  failed einval refl
                    (too_far (addr + len) (not (addr % 4096 == 0)) (length == 0)
                      (not memory.left || not memory.right) far)
                    good refl (λ a. refl))
          | inr n ↦
              let up : addr ≤ add64 addr len = ground (arith, n) in
              let sum : add64 addr len ≡ addr + len =
                omega (arith, up, word, page_align_up_small length) in
              let paged : addr % 4096 ≡ 0 = ground (arith, k) in
              let long : 0 < len = ground (arith, k) in
              rw (wx, k, n, sum, sys_mprotect)
                (last_reason _
                  (at_end (not (addr % 4096 == 0)) (length == 0) (ltb (2 ^ 47) (addr + len)))
                  (protect_range-Protecting z refs (prot_to_vma prot) s addr (addr + len) memory
                    good clear wx (omega (arith, long)) paged (omega (arith, paged, whole))))
        ]
      ]
    ]
