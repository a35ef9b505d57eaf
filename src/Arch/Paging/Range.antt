-- ===== src/Arch/Paging/Range.antt =====
-- kernel/arch/x86_64/paging.c: mapping, unmapping and protecting a range of pages.
use jnu.Base.{
  ℕ, zero, suc, ◌+◌, ◌*◌, ◌/◌, ◌%◌, ◌^◌, ◌≤◌, ◌<◌, ◌≡◌, refl, sym, ap, ◌∙◌, inl, inr, Bool, true,
  false, ◌&&◌, ◌||◌, Option, none, some, List, [], leb, ltb, ◌==◌, if◌then◌else◌, then_ok, Result,
  ok, err, enoent, arith, Bool-cases, Result-cases,
}
use jnu.Arch.Paging.{
  PteFlags, Pte, Pml4, map_page, paging_map, at_entry, unmap_entry, paging_unmap, protect_entry,
  paging_protect,
}
use jnu.Arch.Paging.Entry.{entry_at, is_ok, map_page-entry, at_entry-entry, same_entry-page}

-- An address of one of the pages.
abbrev pub in_pages : ℕ → ℕ → ℕ → Bool
in_pages virt pages w = leb virt w && ltb w (virt + 4096 * pages)

pub next_pages :
    (v k w : ℕ)
    → v % 4096 ≡ 0
    → in_pages v (suc k) w ≡ (v / 4096 == w / 4096 || in_pages (v + 4096) k w)
next_pages v k w h = elim (Bool-cases (v / 4096 == w / 4096)) [
  | inl e ↦
      let page : v / 4096 ≡ w / 4096 = ground (arith, e) in
      let low : leb v w ≡ true = lead (omega (arith, page, h)) in
      let high : ltb w (v + 4096 * suc k) ≡ true = under (omega (arith, page, h)) in
      rw (e, low, high) refl
  | inr e ↦ rw e (later (λ same. ground (arith, e, same)))
]
  where
    lead : v ≤ w → leb v w ≡ true
    lead i = ground (arith, i)

    under : w < v + 4096 * suc k → ltb w (v + 4096 * suc k) ≡ true
    under i = ground (arith, i)

    quotient : v ≤ w → w < v + 4096 → v / 4096 ≡ w / 4096
    quotient i n = omega (arith, i, n, h)

    later : (v / 4096 ≡ w / 4096 → ⊥) → in_pages v (suc k) w ≡ in_pages (v + 4096) k w
    later ne =
        let bound : v + 4096 * suc k ≡ v + 4096 + 4096 * k = omega arith in
        rw bound (elim (Bool-cases (leb v w)) [
          | inr i ↦ let far : leb (v + 4096) w ≡ false = ground (arith, i) in rw (i, far) refl
          | inl i ↦ elim (Bool-cases (leb (v + 4096) w)) [
            | inl n ↦ rw (i, n) refl
            | inr n ↦ absurd (ne (quotient (ground (arith, i)) (ground (arith, n))))
          ]
        ])

either_none :
    (a b : Bool) (x : Option Pte)
    → (if b then none else (if a then none else x)) ≡ (if a || b then none else x)
either_none true true x = refl
either_none true false x = refl
either_none false b x = refl

unmap_entry-none : (z : ℕ) (o : Option Pte) → (unmap_entry z o).0 ≡ none
unfolding unmap_entry
unmap_entry-none z none = refl
unmap_entry-none z (some e) = refl

-- One round of `paging_unmap`.
unmap_page-entry :
    (z : ℕ) (m : Pml4) (v w : ℕ)
    → v < 2 ^ 48
    → w < 2 ^ 48
    → entry_at (at_entry m v [] (unmap_entry z)).0 w
      ≡ (if v / 4096 == w / 4096 then none else entry_at m w)
unmap_page-entry z m v w h j =
    at_entry-entry m v [] (unmap_entry z) w (unmap_entry-none z none)
    ∙ (rw (unmap_entry-none z (entry_at m w))
        (ap (λ b. if b then none else entry_at m w) (same_entry-page v w h j)))

-- For a range that starts at a page and ends at 2 ^ 48 at most, `paging_unmap` leaves an
-- address below 2 ^ 48 without an entry if it is in the range, and with the entry it had if it
-- is not.
pub paging_unmap-entry :
    (z : ℕ) (m : Pml4) (v k w : ℕ)
    → v % 4096 ≡ 0
    → v + 4096 * k ≤ 2 ^ 48
    → w < 2 ^ 48
    → entry_at (paging_unmap z m v k).0 w ≡ (if in_pages v k w then none else entry_at m w)
unfolding paging_unmap unmap_entry
paging_unmap-entry z m v zero w h i j =
    let out : in_pages v 0 w ≡ false = ground arith in rw out refl
paging_unmap-entry z m v (suc k) w h i j =
    let m1 = (at_entry m v [] (unmap_entry z)).0 in
    paging_unmap-entry z m1 (v + 4096) k w (omega (arith, h)) (omega (arith, i)) j
    ∙ (ap (λ o. if in_pages (v + 4096) k w then none else o)
          (unmap_page-entry z m v w (omega (arith, i)) j)
        ∙ (either_none (v / 4096 == w / 4096) (in_pages (v + 4096) k w) (entry_at m w)
            ∙ ap (λ b. if b then none else entry_at m w) (sym (next_pages v k w h))))

-- The pages that are put: those of the present user entries, but not the zero page.
abbrev pub put_of : ℕ → Option Pte → List ℕ
put_of z o = (unmap_entry z o).1

abbrev pub reflag : PteFlags → Option Pte → Option Pte
reflag flags o = (protect_entry flags o).0

abbrev finish : Pml4 × Result (Unit {0}) → Pml4 × Result (Unit {0})
finish r = then_ok r λ x _. (x, ok tt)

same_tables : (r : Pml4 × Result (Unit {0})) → (finish r).0 ≡ r.0
same_tables (x, ok _) = refl
same_tables (x, err e) = refl

-- One page is protected if it is mapped.
pub protect_page-entry :
    (m : Pml4) (v w : ℕ) (flags : PteFlags)
    → v < 2 ^ 48
    → w < 2 ^ 48
    → entry_at (paging_protect m v 1 flags).0 w
      ≡ (if v / 4096 == w / 4096 then reflag flags (entry_at m w) else entry_at m w)
unfolding paging_protect protect_entry
protect_page-entry m v w flags h j =
    ap (λ x. entry_at x w) (same_tables (at_entry m v (err enoent) (protect_entry flags)))
    ∙ (at_entry-entry m v (err enoent) (protect_entry flags) w refl
        ∙ ap (λ b. if b then reflag flags (entry_at m w) else entry_at m w)
            (same_entry-page v w h j))

pub map_page-entry_lem :
    (m : Pml4) (v a n w : ℕ) (flags : PteFlags)
    → v < 2 ^ 48
    → w < 2 ^ 48
    → entry_at (paging_map m v a 1 flags n).0 w ≡ (
        if is_ok (paging_map m v a 1 flags n).2 && v / 4096 == w / 4096
        then some (record { address = a; flags = flags })
        else entry_at m w)
unfolding paging_map
map_page-entry_lem m v a n w flags h j =
    let e : Pte = record { address = a; flags = flags } in
    let one =
      map_page-entry m v e n w
      ∙ ap (λ b. if is_ok (map_page m v e n).2 && b then some e else entry_at m w)
          (same_entry-page v w h j) in
    elim (Result-cases (map_page m v e n).2) [
      | inl (x, f) ↦ rw (f, paging_map) (one ∙ rw f refl)
      | inr (_, f) ↦ rw (f, paging_map) (one ∙ rw f refl)
    ]
