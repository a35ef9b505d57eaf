-- ===== src/Mm/Space/Protect/Pages.antt =====
-- kernel/mm/mmap.c: the pages of an area get the entries of its new flags.
use jnu.Base.{
  ℕ, zero, suc, ◌+◌, ◌*◌, ◌/◌, ◌%◌, ◌^◌, ◌≤◌, ◌<◌, ◌≡◌, refl, sym, ap, ◌∙◌, inl, inr, Bool, true,
  false, not, ◌&&◌, ◌||◌, Option, none, some, ltb, ◌==◌, if◌then◌else◌, Result, ok, arith,
  Bool-cases,
}
use jnu.Mm.Vma.{VmaFlags}
use jnu.Arch.Paging.{Pte, PteFlags, Pml4, protect_entry}
use jnu.Arch.Paging.Entry.{entry_at}
use jnu.Arch.Paging.Range.{in_pages, next_pages, protect_page-entry}
use jnu.Arch.Paging.Lookup.{unmapped, in_huge, mapped, paging_get_flags-Lookup, entry_at-page}
use jnu.Arch.Paging.Room.{NoHuge, paging_protect-works, no_big}
use jnu.Mm.Space.Protect.{new_flags, protect_page, protect_pages}

-- What an entry of an area with these flags allows: no write to the zero page, nor to a shared page.
abbrev pub allowed_by : ℕ → (ℕ → ℕ) → VmaFlags → ℕ → PteFlags
allowed_by z refs f pa = record {
  user = true;
  write = f.write && not (pa == z || ltb 1 (refs pa));
  nx = not f.exec;
}

-- An entry once its area has new flags.
abbrev pub refreshed : ℕ → (ℕ → ℕ) → VmaFlags → Option Pte → Option Pte
refreshed z refs f none = none
refreshed z refs f (some e) =
    some (record { address = e.address; flags = allowed_by z refs f e.address })

-- No error, still no huge page, and new entries where `hit` says so.
abbrev pub Protects : ℕ → (ℕ → ℕ) → VmaFlags → Pml4 → (ℕ → Bool) → Pml4 × Result (Unit {0}) → Type 0
Protects z refs f m hit r =
    (r.1 ≡ ok tt)
    × NoHuge r.0
    × ((w : ℕ)
        → w < 2 ^ 47
        → entry_at r.0 w ≡ (if hit w then refreshed z refs f (entry_at m w) else entry_at m w))

protect_page-Protects :
    (z : ℕ) (refs : ℕ → ℕ) (f : VmaFlags) (m : Pml4) (va : ℕ)
    → va < 2 ^ 47
    → NoHuge m
    → Protects z refs f m (λ w. va / 4096 == w / 4096) (protect_page z refs f m va)
unfolding protect_page protect_entry new_flags
protect_page-Protects z refs f m va h clear = elim (paging_get_flags-Lookup m va) [
  | unmapped e o ↦
      rw (e, protect_page)
        (
          refl,
          clear,
          λ w i. elim (Bool-cases (va / 4096 == w / 4096)) [
            | inl p ↦
                let empty : entry_at m w ≡ none =
                  sym (entry_at-page m va w (ground (arith, p))) ∙ o in
                rw (p, empty) refl
            | inr p ↦ rw p refl
          ],
        )
  | in_huge e g ↦ absurd (no_big m va e h clear g)
  | mapped e g o ↦
      let flags = new_flags z refs f e.address in
      let (fine, keeps) = paging_protect-works m va flags e h o in
      rw (g, protect_page)
        (
          fine,
          keeps clear,
          λ w i.
              protect_page-entry m va w flags (omega (arith, h)) (omega (arith, i))
              ∙ elim (Bool-cases (va / 4096 == w / 4096)) [
                | inl p ↦
                    let here : entry_at m w ≡ some e =
                      sym (entry_at-page m va w (ground (arith, p))) ∙ o in
                    rw (p, here) refl
                | inr p ↦ rw p refl
              ],
        )
]

twice :
    (z : ℕ) (refs : ℕ → ℕ) (f : VmaFlags) (a b : Bool) (x : Option Pte)
    → (if b
        then refreshed z refs f (if a then refreshed z refs f x else x)
        else (if a then refreshed z refs f x else x))
      ≡ (if a || b then refreshed z refs f x else x)
twice z refs f true true none = refl
twice z refs f true true (some e) = refl
twice z refs f true false x = refl
twice z refs f false true x = refl
twice z refs f false false x = refl

pub protect_pages-Protects :
    (z : ℕ) (refs : ℕ → ℕ) (f : VmaFlags) (m : Pml4) (va k : ℕ)
    → va % 4096 ≡ 0
    → va + 4096 * k ≤ 2 ^ 47
    → NoHuge m
    → Protects z refs f m (in_pages va k) (protect_pages z refs f m va k)
unfolding protect_pages
protect_pages-Protects z refs f m va zero p h clear =
    (refl, clear, λ w i. let out : in_pages va 0 w ≡ false = ground arith in rw out refl)
protect_pages-Protects z refs f m va (suc k) p h clear =
    let (fine, clear1, one) = protect_page-Protects z refs f m va (omega (arith, h)) clear in
    let m1 = (protect_page z refs f m va).0 in
    let (fine', clear2, rest) =
      protect_pages-Protects z refs f m1 (va + 4096) k (omega (arith, p)) (omega (arith, h))
        clear1 in
    rw (fine, protect_pages)
      (
        fine',
        clear2,
        λ w i.
            rest w i
            ∙ (ap (λ o. if in_pages (va + 4096) k w then refreshed z refs f o else o) (one w i)
                ∙ (twice z refs f (va / 4096 == w / 4096) (in_pages (va + 4096) k w) (entry_at m w)
                    ∙ ap (λ b. if b then refreshed z refs f (entry_at m w) else entry_at m w)
                        (sym (next_pages va k w p)))),
      )
