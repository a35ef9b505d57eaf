-- ===== src/Mm/Space/Place.antt =====
-- kernel/mm/mmap.c: the place of a new area, given by the caller or found by the kernel.
use jnu.Base.{
  ℕ, ◌+◌, ◌%◌, ◌^◌, ◌≤◌, ◌<◌, ◌≡◌, refl, sym, ap, ◌∙◌, inl, inr, Bool, true, false, not, ◌&&◌, ◌||◌,
  some, List, [], ◌∷◌, leb, ltb, ◌==◌, Result, ok, err, Errno, arith, Bool-cases, add64, then_ok,
}
use jnu.Rbtree.{Tree}
use jnu.Mm.Vma.{Vma, VmaFlags, vma_find_gap_top_down}
use jnu.Mm.Vma.Order.{Areas, Valid, holds}
use jnu.Rbtree.Order.{items}
use jnu.Mm.Vma.Find.{find_in, find_in-behind, vma_find-items}
use jnu.Mm.Vma.Gap.{PastFirstPage, vma_find_gap_top_down-Highest}
use jnu.Mm.Vma.GapPages.{StartsPaged, gap_paged}
use jnu.Mm.Vma.Split.{Whole, AllWhole, flags_at}
use jnu.Mm.Vma.Range.{in_range}
use jnu.Mm.Space.{Space, Memory, remove_range, insert_area, map_fixed, map_free, user_top}
use jnu.Mm.Space.Backing.{Sound, Removed, remove_range-Removed}
use jnu.Mm.Space.Insert.{Mapped, insert_area-Mapped}

abbrev then_insert : ℕ → ℕ → VmaFlags → Bool → Space × Result (Unit {0}) → Space × Result ℕ
then_insert addr len f memory r = then_ok r λ s1 _. insert_area s1 addr len f memory

abbrev pub err_unit : Errno → Result (Unit {0})
err_unit x = err x

-- What may stop a mapping at a given address.
abbrev pub fixed_may_fail : ℕ → ℕ → Memory → Bool
fixed_may_fail addr len memory =
    (not (addr % 4096 == 0) || (ltb addr 4096 || ltb user_top (addr + len)))
    || (not memory.left || (not memory.right || not memory.area))

pub map_fixed-Mapped :
    {s : Space} (z addr len : ℕ) (f : VmaFlags) (memory : Memory)
    → Sound s
    → 0 < len
    → len % 4096 ≡ 0
    → len < 2 ^ 64
    → (f.write && f.exec) ≡ false
    → Sound (map_fixed z s addr len f memory).0
      × ((c : ℕ)
          → (map_fixed z s addr len f memory).1 ≡ ok c
          → (c ≡ addr) × Mapped s (map_fixed z s addr len f memory).0 c len f)
      × (fixed_may_fail addr len memory ≡ false → (map_fixed z s addr len f memory).1 ≡ ok addr)
      × ((x : Errno)
          → (map_fixed z s addr len f memory).1 ≡ err x
          → (a : ℕ) → in_range addr (addr + len) a ≡ false
          → flags_at (map_fixed z s addr len f memory).0.vmas a ≡ flags_at s.vmas a)
unfolding map_fixed
map_fixed-Mapped {s} z addr len f memory good long paged small wx =
    elim (Bool-cases (not (addr % 4096 == 0) || (ltb addr 4096 || leb user_top addr))) [
      | inl k ↦
          rw (k, map_fixed)
            (
              good,
              λ c bad. absurd (clash refl bad),
              λ fine. ground (arith, k, fine, long),
              λ _ _ _ _. refl,
            )
      | inr k ↦ elim (Bool-cases (ltb (add64 addr len) addr || ltb user_top (add64 addr len))) [
        | inl n ↦
            rw (k, n, map_fixed)
              (
                good,
                λ c bad. absurd (clash refl bad),
                λ fine.
                    let fits : addr + len ≤ 2 ^ 47 = ground (arith, fine) in
                    let sum : add64 addr len ≡ addr + len = omega (arith, fits) in
                    ground (arith, n, fits, sum),
                λ _ _ _ _. refl,
              )
        | inr n ↦
            let low : addr < 2 ^ 47 = ground (arith, k) in
            let base : addr % 4096 ≡ 0 = ground (arith, k) in
            let up : addr ≤ add64 addr len = ground (arith, n) in
            let sum : add64 addr len ≡ addr + len = omega (arith, up, low, small) in
            let top : add64 addr len ≤ 2 ^ 47 = ground (arith, n) in
            let fits : addr + len ≤ 2 ^ 47 = omega (arith, sum, top) in
            rw (k, n, map_fixed)
              (go base fits sum (remove_range z s addr (add64 addr len) memory)
                (remove_range-Removed z addr (add64 addr len) memory good))
      ]
    ]
  where
    clash : {r : Result ℕ} {x : Errno} {c : ℕ} → r ≡ err x → r ≡ ok c → ⊥
    clash a b = cc

    failed : {x : Errno} → err_unit x ≡ ok tt → ⊥
    failed e = cc

    go :
        addr % 4096 ≡ 0
        → addr + len ≤ 2 ^ 47
        → add64 addr len ≡ addr + len
        → (r : Space × Result (Unit {0})) → Removed z s addr (add64 addr len) memory r
        → Sound (then_insert addr len f memory.area r).0
          × ((c : ℕ)
              → (then_insert addr len f memory.area r).1 ≡ ok c
              → (c ≡ addr) × Mapped s (then_insert addr len f memory.area r).0 c len f)
          × (fixed_may_fail addr len memory ≡ false
              → (then_insert addr len f memory.area r).1 ≡ ok addr)
          × ((x : Errno)
              → (then_insert addr len f memory.area r).1 ≡ err x
              → (a : ℕ) → in_range addr (addr + len) a ≡ false
              → flags_at (then_insert addr len f memory.area r).0.vmas a ≡ flags_at s.vmas a)
    go base fits sum (s1, err x) p = (
      p.sound,
      λ c bad. absurd (clash refl bad),
      λ fine.
          let done =
            p.works (omega (arith, sum, long)) base (omega (arith, sum, base, paged))
              (ground (arith, fine)) (ground (arith, fine)) in
          absurd (failed done),
      λ _ _ a _. p.failed x refl a,
    )
    go base fits sum (s1, ok _) p =
        let (x, y, w, o) =
          insert_area-Mapped addr len f memory.area p.sound long paged base fits wx in
        (
          x,
          λ c e.
              let (q, m) = y c e in
              let same : (a : ℕ) → in_range c (c + len) a ≡ in_range addr (add64 addr len) a =
                λ a. ap (λ d. in_range d (d + len) a) q ∙ ap (λ d. in_range addr d a) (sym sum) in
              (
                q,
                record {
                  paged = m.paged;
                  fits = m.fits;
                  inside = m.inside;
                  fresh = m.fresh;
                  outside = λ a i.
                      let out = sym (same a) ∙ i in
                      let (g, h) = m.outside a i in
                      (g ∙ p.outside a out, λ low. h low ∙ (p.entries refl a low ∙ rw out refl));
                },
              ),
          λ fine.
              w (ground (arith, fine))
                λ a i. p.cleared refl a (ap (λ d. in_range addr d a) sum ∙ i),
          λ x bad a out. o x bad a ∙ p.outside a (ap (λ d. in_range addr d a) sum ∙ out),
        )

open_range : {t : Tree Vma} → Valid t → AllWhole t → PastFirstPage (items t) × StartsPaged (items t)
open_range {t} valid all =
    go 0 (items t) valid.ordered λ a v e. all a v (vma_find-items a valid ∙ e)
  where
    go :
        (lo : ℕ) (vs : List Vma)
        → Areas lo vs
        → ((a : ℕ) (v : Vma) → find_in vs a ≡ some v → Whole v)
        → PastFirstPage vs × StartsPaged vs
    go lo [] h each = (tt, tt)
    go lo (v ∷ vs) h each =
        let self : holds v v.start ≡ true = ground (arith, h.1) in
        let (x, y, z) = each v.start v (rw self refl) in
        let (p, q) = go v.end vs h.2 λ a w e. each a w (find_in-behind lo v vs a w h e) in
        ((omega (arith, y, h.1), p), (x, q))

pub map_free-Mapped :
    {s : Space} (len : ℕ) (f : VmaFlags) (memory : Memory)
    → Sound s
    → 0 < len
    → len % 4096 ≡ 0
    → 4096 + len < 2 ^ 64
    → s.mmap_base % 4096 ≡ 0
    → s.mmap_base ≤ 2 ^ 47
    → (f.write && f.exec) ≡ false
    → Sound (map_free s len f memory).0
      × ((c : ℕ)
          → (map_free s len f memory).1 ≡ ok c
          → Mapped s (map_free s len f memory).0 c len f)
      × (memory.area ≡ true
          → (vma_find_gap_top_down s.vmas len s.mmap_base == 0) ≡ false
          → (r : ℕ) × ((map_free s len f memory).1 ≡ ok r))
      × ((x : Errno)
          → (map_free s len f memory).1 ≡ err x
          → (a : ℕ) → flags_at (map_free s len f memory).0.vmas a ≡ flags_at s.vmas a)
unfolding map_free
map_free-Mapped {s} len f memory good long paged small base top wx =
    let (p, q) = open_range good.valid good.whole in
    let gap =
      vma_find_gap_top_down-Highest len s.mmap_base good.valid p long paged small
        (omega (arith, top)) in
    let aligned = gap_paged s.vmas len s.mmap_base q base (omega (arith, top)) small in
    elim (Bool-cases (vma_find_gap_top_down s.vmas len s.mmap_base == 0)) [
      | inl k ↦
          rw (k, map_free)
            (
              good,
              λ c bad. absurd (clash refl bad),
              λ _ bad. absurd (ground (arith, k, bad)),
              λ _ _ _. refl,
            )
      | inr k ↦ elim gap.fits [
        | inl z ↦ absurd (ground (arith, k, z))
        | inr (_, fits, free) ↦
            let (x, y, w, o) =
              insert_area-Mapped (vma_find_gap_top_down s.vmas len s.mmap_base) len f memory.area
                good long paged aligned (omega (arith, fits, top)) wx in
            rw (k, map_free)
              (
                x,
                λ c e. (y c e).1,
                λ area _. (_, w area λ a i. free a (ground (arith, i)) (ground (arith, i))),
                o,
              )
      ]
    ]
  where
    clash : {r : Result ℕ} {x : Errno} {c : ℕ} → r ≡ err x → r ≡ ok c → ⊥
    clash a b = cc
