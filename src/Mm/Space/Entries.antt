-- ===== src/Mm/Space/Entries.antt =====
-- kernel/mm/vmm.c: what a page fault may change: the entry of one page.
use jnu.Base.{
  ℕ, ◌/◌, ◌%◌, ◌^◌, ◌≤◌, ◌<◌, ◌≡◌, refl, sym, ap, ◌∙◌, subst, ◌⊎◌, inl, inr, Bool, true, false,
  ◌&&◌, Option, none, some, ◌==◌, if◌then◌else◌, arith,
}
use jnu.Mm.Vma.{Vma, VmaFlags, vma_find}
use jnu.Mm.Vma.Order.{Valid, holds}
use jnu.Mm.Vma.Split.{flags_at, flags_of, find-holds, holds-find, AllWhole}
use jnu.Arch.Paging.{Pte, PteFlags, paging_map, protect_entry, paging_protect}
use jnu.Arch.Paging.Entry.{entry_at, is_ok}
use jnu.Arch.Paging.Range.{protect_page-entry, map_page-entry_lem, reflag}
use jnu.Arch.Paging.Lookup.{entry_at-page}
use jnu.Mm.Space.{Space}
use jnu.Mm.Space.Backing.{Allows, Sound}

-- The areas stay, and only the entry of the page at `va` may become another, of which `P` holds.
pub record Fault (s u : Space) (va : ℕ) (P : Pte → Type 0) : Type 0 where
  pub same : u.vmas ≡ s.vmas
  pub news :
      (w : ℕ) (e : Pte)
      → w < 2 ^ 47
      → entry_at u.pml4 w ≡ some e
      → (entry_at s.pml4 w ≡ some e) ⊎ ((va / 4096 ≡ w / 4096) × P e)

pub Fault-none : (s : Space) (va : ℕ) (P : Pte → Type 0) → Fault s s va P
Fault-none s va P = record { same = refl; news = λ w e h p. inl p }

-- Another entry for one page of an area, which the area allows.
pub Sound-page :
    {s u : Space} {P : Pte → Type 0} (va : ℕ) (v : Vma)
    → Sound s
    → va < 2 ^ 47
    → va % 4096 ≡ 0
    → vma_find s.vmas va ≡ some v
    → Fault s u va P
    → ((e : Pte) → P e → Allows v.flags e.flags)
    → Sound u
Sound-page {s} {u} va v good low base found fault allows = record {
  valid = subst (λ t. Valid t) (sym fault.same) good.valid;
  whole = subst (λ t. AllWhole t) (sym fault.same) good.whole;
  exclusive =
      subst (λ t. (a : ℕ) (f : VmaFlags) → flags_at t a ≡ some f → (f.write && f.exec) ≡ false)
        (sym fault.same) good.exclusive;
  allowed = λ w e h p.
      subst (λ t. (f : VmaFlags) × (flags_at t w ≡ some f) × Allows f e.flags) (sym fault.same)
        (elim (fault.news w e h p) [
          | inl q ↦ good.allowed w e h q
          | inr (page, fits) ↦
              let (x, y, z) = good.whole va v found in
              let here = holds-find va v good.valid found in
              let there : holds v w ≡ true =
                (let lo : v.start ≤ va = ground (arith, here) in
                  let hi : va < v.end = ground (arith, here) in
                  let a : v.start ≤ w = omega (arith, lo, base, page) in
                  let b : w < v.end = omega (arith, hi, base, page, y) in ground (arith, a, b)) in
              (v.flags, ap flags_of (find-holds va w v good.valid found there), allows e fits)
        ]);
}

written :
    (b c : Bool) (new x : Pte) (old : Option Pte)
    → (if b && c then some new else old) ≡ some x
    → (old ≡ some x) ⊎ ((c ≡ true) × (new ≡ x))
written true true new x old h = inr (refl, cc)
written true false new x old h = inl h
written false c new x old h = inl h

reflagged :
    (c : Bool) (flags : PteFlags) (x : Pte) (old : Option Pte)
    → (if c then reflag flags old else old) ≡ some x
    → (old ≡ some x)
      ⊎ ((c ≡ true) × ((o : Pte) × (old ≡ some o) × (record o { flags = flags } ≡ x)))
unfolding protect_entry
reflagged false flags x old h = inl h
reflagged true flags x none h = inl h
reflagged true flags x (some e) h = inr (refl, (e, refl, same h))
  where
    same : {a b : Pte} → some a ≡ some b → a ≡ b
    same k = cc

-- What a mapped page adds to the entries.
pub map_written :
    (s : Space) (P : Pte → Type 0) (va a : ℕ) (flags : PteFlags)
    → va < 2 ^ 47
    → P (record { address = a; flags = flags })
    → (w : ℕ) (x : Pte) → w < 2 ^ 47
    → entry_at (paging_map s.pml4 va a 1 flags s.frames).0 w ≡ some x
    → (entry_at s.pml4 w ≡ some x) ⊎ ((va / 4096 ≡ w / 4096) × P x)
map_written s P va a flags low fits w x h p =
    let eq =
      map_page-entry_lem s.pml4 va a s.frames w flags (omega (arith, low)) (omega (arith, h)) in
    elim (written (is_ok (paging_map s.pml4 va a 1 flags s.frames).2) (va / 4096 == w / 4096)
      (record { address = a; flags = flags }) x (entry_at s.pml4 w) (sym eq ∙ p)) [
        | inl q ↦ inl q
        | inr (c, same) ↦ inr (ground (arith, c), subst P same fits)
      ]

-- The same of a page whose flags change.
pub protect_written :
    (s : Space) (P : Pte → Type 0) (va : ℕ) (flags : PteFlags)
    → va < 2 ^ 47
    → ((o : Pte) → entry_at s.pml4 va ≡ some o → P (record o { flags = flags }))
    → (w : ℕ) (x : Pte) → w < 2 ^ 47
    → entry_at (paging_protect s.pml4 va 1 flags).0 w ≡ some x
    → (entry_at s.pml4 w ≡ some x) ⊎ ((va / 4096 ≡ w / 4096) × P x)
protect_written s P va flags low fits w x h p =
    let eq = protect_page-entry s.pml4 va w flags (omega (arith, low)) (omega (arith, h)) in
    elim (reflagged (va / 4096 == w / 4096) flags x (entry_at s.pml4 w) (sym eq ∙ p)) [
      | inl q ↦ inl q
      | inr (c, (o, there, same)) ↦
          let page : va / 4096 ≡ w / 4096 = ground (arith, c) in
          inr (page, subst P same (fits o (entry_at-page s.pml4 va w page ∙ there)))
    ]
