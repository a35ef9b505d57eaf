-- ===== src/Arch/Paging/Lookup.antt =====
-- kernel/arch/x86_64/paging.c: `paging_get_flags` finds the entry of an address, whatever the page.
use jnu.Base.{ℕ, ◌/◌, ◌≡◌, refl, Option, none, some, Result, ok, err, enoent, arith}
use jnu.Arch.Paging.{
  Pte, Slot, absent, huge, table, Pt, Pd, Pdpt, Pml4, pml4_idx, pdpt_idx, pd_idx, pt_idx, Found,
  small, big, get_pdpt, paging_get_flags,
}
use jnu.Arch.Paging.Entry.{entry_at, look}

-- What a lookup finds, next to the entry there.
pub data Lookup (r : Result Found) (o : Option Pte) : Type 0 where
  unmapped : r ≡ err enoent → o ≡ none → Lookup r o
  in_huge : (e : Pte) → r ≡ ok (big e) → Lookup r o
  mapped : (e : Pte) → r ≡ ok (small e) → o ≡ some e → Lookup r o

in_slot :
    {A : Type 0} (s : Slot A) (f : A → Option Pte) (g : A → Result Found)
    → ((t : A) → Lookup (g t) (f t))
    → Lookup (elim s [ absent ↦ err enoent | huge e ↦ ok (big e) | table t ↦ g t ]) (look f s)
in_slot absent f g h = unmapped refl refl
in_slot (huge e) f g h = in_huge e refl
in_slot (table t) f g h = h t

in_last : (o : Option Pte) → Lookup (elim o [ none ↦ err enoent | some e ↦ ok (small e) ]) o
in_last none = unmapped refl refl
in_last (some e) = mapped e refl refl

pub paging_get_flags-Lookup : (m : Pml4) (v : ℕ) → Lookup (paging_get_flags m v) (entry_at m v)
unfolding paging_get_flags entry_at
paging_get_flags-Lookup m v = top (m (pml4_idx v))
  where
    below :
        (pdpt : Pdpt)
        → Lookup (get_pdpt pdpt v) (
            look
              (λ (pd : Pd). look (λ (pt : Pt). pt (pt_idx v)) (pd (pd_idx v)))
              (pdpt (pdpt_idx v)))
    below pdpt =
        in_slot (pdpt (pdpt_idx v)) _ _
          λ pd. in_slot (pd (pd_idx v)) _ _ λ pt. in_last (pt (pt_idx v))

    top :
        (s : Slot Pdpt)
        → Lookup
            (elim s [ absent ↦ err enoent | huge e ↦ err enoent | table t ↦ get_pdpt t v ])
            (look
              (λ (pdpt : Pdpt).
                look
                  (λ (pd : Pd). look (λ (pt : Pt). pt (pt_idx v)) (pd (pd_idx v)))
                  (pdpt (pdpt_idx v)))
              s)
    top absent = unmapped refl refl
    top (huge e) = unmapped refl refl
    top (table t) = below t

-- The addresses of a page have one entry.
pub entry_at-page : (m : Pml4) (v w : ℕ) → v / 4096 ≡ w / 4096 → entry_at m v ≡ entry_at m w
unfolding entry_at
entry_at-page m v w page =
    let i4 : pml4_idx v ≡ pml4_idx w = omega (arith, page) in
    let i3 : pdpt_idx v ≡ pdpt_idx w = omega (arith, page) in
    let i2 : pd_idx v ≡ pd_idx w = omega (arith, page) in
    let i1 : pt_idx v ≡ pt_idx w = omega (arith, page) in rw (i4, i3, i2, i1) refl
