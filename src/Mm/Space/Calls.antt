-- ===== src/Mm/Space/Calls.antt =====
-- kernel/mm/mmap.c: `vmm_map_anonymous`.
use jnu.Base.{
  ℕ, ◌+◌, ◌-◌, ◌%◌, ◌^◌, ◌≤◌, ◌<◌, ◌≡◌, refl, sym, ◌∙◌, inl, inr, Bool, true, false, not, ◌&&◌,
  ◌||◌, ◌==◌, if◌then◌else◌, Result, ok, err, Errno, einval, arith, Bool-cases, Result-cases, add64,
}
use Prim.Native.Nat.{bit_and}
use jnu.Mm.Vma.{vma_find_gap_top_down}
use jnu.Mm.Vma.Split.{flags_at}
use jnu.Mm.Vma.Range.{in_range}
use jnu.Mm.Space.{Space, Memory, page_align_up, prot_to_vma, bad_request, has, vmm_map_anonymous}
use jnu.Mm.Space.Backing.{Sound}
use jnu.Mm.Space.Insert.{Mapped}
use jnu.Mm.Space.Place.{fixed_may_fail, map_fixed-Mapped, map_free-Mapped}

pub page_align_up_lem :
    (v : ℕ)
    → v + 8192 ≤ 2 ^ 64
    → (page_align_up v % 4096 ≡ 0) × (v ≤ page_align_up v) × (page_align_up v < v + 4096)
unfolding page_align_up
page_align_up_lem v h =
    let sum : add64 v 4095 ≡ v + 4095 = omega (arith, h) in
    rw sum (omega arith, omega arith, omega arith)

pub page_align_up_small : (v : ℕ) → page_align_up v < 2 ^ 64
unfolding page_align_up
page_align_up_small v = omega arith

prot_to_vma-exclusive :
    (prot flags : ℕ)
    → bad_request prot flags ≡ false
    → ((prot_to_vma prot).write && (prot_to_vma prot).exec) ≡ false
unfolding prot_to_vma
prot_to_vma-exclusive prot flags h =
    last (not (bit_and flags (2 ^ 32 - 1 - 50) == 0)) (not (has flags 2) || not (has flags 32)) h
  where
    last : {c : Bool} (a b : Bool) → (a || (b || c)) ≡ false → c ≡ false
    last true b h = cc
    last false true h = cc
    last false false h = h

-- What may stop `vmm_map_anonymous`.
abbrev pub map_may_fail : Space → ℕ → ℕ → ℕ → ℕ → Memory → Bool
map_may_fail s addr length prot flags memory =
    length == 0
    || (bad_request prot flags
        || (if has flags 16
            then fixed_may_fail addr (page_align_up length) memory
            else not memory.area
              || vma_find_gap_top_down s.vmas (page_align_up length) s.mmap_base == 0))

-- What a call leaves. One that fails may have cleared the range of a `MAP_FIXED`, and leaves the
-- flags of all other addresses.
pub data Mapping (s : Space) (addr length prot flags : ℕ) (may_fail : Bool) (r : Space × Result ℕ)
    : Type 0 where
  failed :
      (e : Errno)
      → r.1 ≡ err e
      → may_fail ≡ true
      → Sound r.0
      → ((a : ℕ)
          → (has flags 16 && in_range addr (addr + page_align_up length) a) ≡ false
          → flags_at r.0.vmas a ≡ flags_at s.vmas a)
      → Mapping s addr length prot flags may_fail r
  mapped :
      (c : ℕ)
      → r.1 ≡ ok c
      → Sound r.0
      → Mapped s r.0 c (page_align_up length) (prot_to_vma prot)
      → Mapping s addr length prot flags may_fail r

-- In a sound address space, whose `mmap_base` is a page boundary and a user address, and for a
-- length of at most 2 ^ 64 - 8192: `vmm_map_anonymous` either fails, for one of the reasons
-- that `map_may_fail` lists, leaves a sound address space, and every address has the flags it
-- had, except those of the range of a `MAP_FIXED`; or it returns `c`, the address space is
-- sound, the addresses from `c` up to the rounded length are those of one area with the flags
-- asked for and have no entry in the page tables, and flags and entries of all other user
-- addresses are as they were.
pub vmm_map_anonymous-Mapping :
    {s : Space} (z addr length prot flags : ℕ) (memory : Memory)
    → Sound s
    → s.mmap_base % 4096 ≡ 0
    → s.mmap_base ≤ 2 ^ 47
    → length + 8192 ≤ 2 ^ 64
    → Mapping s addr length prot flags
        (map_may_fail s addr length prot flags memory)
        (vmm_map_anonymous z s addr length prot flags memory)
unfolding vmm_map_anonymous
vmm_map_anonymous-Mapping {s} z addr length prot flags memory good base top short =
    let (paged, above, below) = page_align_up_lem length short in
    let small : page_align_up length < 2 ^ 64 = omega (arith, below, short) in
    let smaller : 4096 + page_align_up length < 2 ^ 64 = omega (arith, below, short, paged) in
    elim (Bool-cases (length == 0 || page_align_up length == 0)) [
      | inl k ↦
          let none_asked : (length == 0) ≡ true = ground (arith, k, above) in
          rw (k, vmm_map_anonymous) (failed einval refl (rw none_asked refl) good (λ _ _. refl))
      | inr k ↦
          let some_asked : (length == 0) ≡ false = ground (arith, k) in
          elim (Bool-cases (bad_request prot flags)) [
            | inl n ↦
                rw (k, n, vmm_map_anonymous)
                  (failed einval refl (rw some_asked refl) good (λ _ _. refl))
            | inr n ↦
                let long : 0 < page_align_up length = ground (arith, k) in
                let wx = prot_to_vma-exclusive prot flags n in
                elim (Bool-cases (has flags 16)) [
                  | inl i ↦
                      let (x, y, w, o) =
                        map_fixed-Mapped z addr (page_align_up length) (prot_to_vma prot) memory
                          good long paged small wx in
                      rw (k, n, i, vmm_map_anonymous)
                        (outcome _ _ x (λ c e. (y c e).1)
                          (λ e bad a out. o e bad a (second _ _ i out))
                          λ fine.
                            let eq : (length == 0
                                  || fixed_may_fail addr (page_align_up length) memory)
                                ≡ fixed_may_fail addr (page_align_up length) memory =
                              rw some_asked refl in
                            (addr, w (sym eq ∙ fine)))
                  | inr i ↦
                      let (x, y, w, o) =
                        map_free-Mapped (page_align_up length) (prot_to_vma prot) memory good long
                          paged smaller base top wx in
                      rw (k, n, i, vmm_map_anonymous)
                        (outcome _ _ x y (λ e bad a _. o e bad a)
                          λ fine.
                            let eq : (length == 0
                                  || (not memory.area
                                      || vma_find_gap_top_down s.vmas (page_align_up length)
                                          s.mmap_base
                                        == 0))
                                ≡ (not memory.area
                                    || vma_find_gap_top_down s.vmas (page_align_up length)
                                        s.mmap_base
                                      == 0) =
                              rw some_asked refl in
                            let (a, b) = neither memory.area _ (sym eq ∙ fine) in w a b)
                ]
          ]
    ]
  where
    clash : {r : Result ℕ} {x : Errno} {c : ℕ} → r ≡ err x → r ≡ ok c → ⊥
    clash a b = cc

    neither : (a b : Bool) → (not a || b) ≡ false → (a ≡ true) × (b ≡ false)
    neither true b h = (refl, h)
    neither false b h = cc

    second : (a b : Bool) → a ≡ true → (a && b) ≡ false → b ≡ false
    second true b h k = k
    second false b h k = cc

    outcome :
        (may_fail : Bool) (r : Space × Result ℕ)
        → Sound r.0
        → ((c : ℕ) → r.1 ≡ ok c → Mapped s r.0 c (page_align_up length) (prot_to_vma prot))
        → ((e : Errno)
            → r.1 ≡ err e
            → (a : ℕ) → (has flags 16 && in_range addr (addr + page_align_up length) a) ≡ false
            → flags_at r.0.vmas a ≡ flags_at s.vmas a)
        → (may_fail ≡ false → (c : ℕ) × (r.1 ≡ ok c))
        → Mapping s addr length prot flags may_fail r
    outcome may_fail r x y o w = elim (Result-cases r.1) [
      | inr (c, e) ↦ mapped c e x (y c e)
      | inl (e, f) ↦ elim (Bool-cases may_fail) [
        | inl m ↦ failed e f m x (o e f)
        | inr m ↦ absurd (clash f (w m).1)
      ]
    ]
