-- ===== src/Mm/Space/Faults.antt =====
-- kernel/mm/vmm.c: the page faults of a user keep what holds of an address space.
use jnu.Base.{
  ℕ, ◌-◌, ◌%◌, ◌^◌, ◌≤◌, ◌<◌, ◌≡◌, refl, sym, ap, ◌∙◌, subst, inl, inr, Bool, true, false, not,
  ◌&&◌, [], ◌∷◌, ◌++◌, Option, some, ◌==◌, Result, arith, Bool-cases, Option-cases, Result-cases,
}
use jnu.Mm.Vma.{Vma, vma_find}
use jnu.Mm.Vma.Order.{holds}
use jnu.Mm.Vma.Split.{find-holds, holds-find}
use jnu.Arch.Paging.{Pte, PteFlags, Found, paging_map, paging_get_flags}
use jnu.Arch.Paging.Entry.{entry_at}
use jnu.Mm.Space.Entries.{Fault, Fault-none, Sound-page, map_written, protect_written}
use jnu.Arch.Paging.Lookup.{unmapped, in_huge, mapped, paging_get_flags-Lookup}
use jnu.Mm.Space.{
  Space, has, lazy_entry, vmm_handle_lazy_fault, copy_on_write, vmm_handle_cow_fault,
  user_page_fault,
}
use jnu.Mm.Space.Backing.{Allows, Sound}
use jnu.Mm.Space.Grants.{may_access, Granted, lazy_entry-First}

lazy_fault-Fault :
    (s : Space) (z : ℕ) (refs : ℕ → ℕ) (va ec page : ℕ) (v : Vma)
    → va < 2 ^ 47
    → has ec 1 ≡ false
    → (let u = (vmm_handle_lazy_fault z s v va ec page).0 in
        Fault s u va (Granted z refs ec page v.flags s u va))
unfolding vmm_handle_lazy_fault
lazy_fault-Fault s z refs va ec page v low absent =
    elim (Result-cases (lazy_entry z v.flags ec page)) [
      | inl (x, f) ↦ rw (f, vmm_handle_lazy_fault) (Fault-none s va _)
      | inr (e, f) ↦
          let first = lazy_entry-First z v.flags ec page e f in
          let granted : (u : Space) → Granted z refs ec page v.flags s u va e = λ u. record {
            fits = first.fits;
            asked = first.asked absent;
            owned = λ w. inl (first.owned w);
            contents = λ there. absurd (ground (arith, there, absent));
          } in
          elim (Result-cases (paging_map s.pml4 va e.address 1 e.flags s.frames).2) [
            | inl (x, g) ↦
                rw (f, g, vmm_handle_lazy_fault)
                  (record {
                    same = refl;
                    news = map_written s _ va e.address e.flags low (granted _);
                  })
            | inr (_, g) ↦
                rw (f, g, vmm_handle_lazy_fault)
                  (record {
                    same = refl;
                    news = map_written s _ va e.address e.flags low (granted _);
                  })
          ]
    ]

some_pte : {a b : Pte} {o : Option Pte} → o ≡ some a → o ≡ some b → a ≡ b
some_pte h k = cc

copy_on_write-Fault :
    (s : Space) (z : ℕ) (refs : ℕ → ℕ) (va ec page : ℕ) (old : Pte) (v : Vma)
    → va < 2 ^ 47
    → may_access ec v.flags ≡ true
    → v.flags.write ≡ true
    → entry_at s.pml4 va ≡ some old
    → (let u = (copy_on_write z s va old (refs old.address) page).0 in
        Fault s u va (Granted z refs ec page v.flags s u va))
unfolding copy_on_write
copy_on_write-Fault s z refs va ec page old v low may write there =
    let flags : PteFlags = record { user = old.flags.user; write = true; nx = true } in
    let fits : Allows v.flags flags = (λ _. write, λ bad. cc) in
    elim (Bool-cases (not (old.address == z) && refs old.address == 1)) [
      | inl k ↦
          rw (k, copy_on_write)
            (record {
              same = refl;
              news = protect_written s _ va flags low λ o h.
                  let same : o ≡ old = some_pte h there in
                  record {
                    fits = fits;
                    asked = may;
                    owned = λ _. inr (
                      subst (λ (x : Pte). refs x.address ≡ 1) (sym same) (ground (arith, k)),
                      subst (λ (x : Pte). (x.address == z) ≡ false) (sym same) (ground (arith, k)),
                    );
                    contents = λ _ o' h'. inl (ap (λ (x : Pte). x.address) (some_pte h h'));
                  };
            })
      | inr k ↦ elim (Bool-cases (page == 0)) [
        | inl n ↦ rw (k, n, copy_on_write) (Fault-none s va _)
        | inr n ↦
            let granted : (u : Space)
                → u.copied ≡ s.copied ++ (page, old.address) ∷ []
                → Granted z refs ec page v.flags s u va (record { address = page; flags = flags }) =
              λ u c. record {
                fits = fits;
                asked = may;
                owned = λ _. inl (refl, n);
                contents = λ _ o h. inr (
                  refl,
                  c ∙ ap (λ (x : Pte). s.copied ++ (page, x.address) ∷ []) (some_pte there h),
                );
              } in
            elim (Result-cases (paging_map s.pml4 va page 1 flags s.frames).2) [
              | inl (x, g) ↦
                  rw (k, n, g, copy_on_write)
                    (record {
                      same = refl;
                      news = map_written s _ va page flags low (granted _ refl);
                    })
              | inr (_, g) ↦
                  rw (k, n, g, copy_on_write)
                    (record {
                      same = refl;
                      news = map_written s _ va page flags low (granted _ refl);
                    })
            ]
      ]
    ]

cow_fault-Fault :
    (s : Space) (z : ℕ) (refs : ℕ → ℕ) (va ec page : ℕ) (v : Vma)
    → va < 2 ^ 47
    → va % 4096 ≡ 0
    → may_access ec v.flags ≡ true
    → v.flags.write ≡ true
    → (let u = (vmm_handle_cow_fault z s va refs page).0 in
        Fault s u va (Granted z refs ec page v.flags s u va))
unfolding vmm_handle_cow_fault
cow_fault-Fault s z refs va ec page v low base may write =
    let aligned : va - va % 4096 ≡ va = omega (arith, base) in
    elim (paging_get_flags-Lookup s.pml4 va) [
      | unmapped f _ ↦ rw (at_page aligned f, vmm_handle_cow_fault) (Fault-none s va _)
      | in_huge e f ↦ rw (at_page aligned f, vmm_handle_cow_fault) (Fault-none s va _)
      | mapped e f there ↦
          rw (at_page aligned f, aligned, vmm_handle_cow_fault)
            (copy_on_write-Fault s z refs va ec page e v low may write there)
    ]
  where
    at_page :
        {r : Result Found}
        → va - va % 4096 ≡ va
        → paging_get_flags s.pml4 va ≡ r
        → paging_get_flags s.pml4 (va - va % 4096) ≡ r
    at_page aligned f = ap (λ x. paging_get_flags s.pml4 x) aligned ∙ f

-- A fault outside all areas changes nothing; another changes at most one entry.
pub data Faulted (z : ℕ) (s : Space) (cr2 ec : ℕ) (refs : ℕ → ℕ) (page : ℕ) (u : Space)
    : Type 0 where
  unchanged : u ≡ s → Faulted z s cr2 ec refs page u
  resolved :
      (v : Vma)
      → vma_find s.vmas cr2 ≡ some v
      → Fault s u (cr2 - cr2 % 4096) (Granted z refs ec page v.flags s u (cr2 - cr2 % 4096))
      → Faulted z s cr2 ec refs page u

pub user_page_fault-Sound :
    {s : Space} (z cr2 ec : ℕ) (refs : ℕ → ℕ) (page : ℕ)
    → Sound s
    → Sound (user_page_fault z s cr2 ec refs page).0
      × Faulted z s cr2 ec refs page (user_page_fault z s cr2 ec refs page).0
unfolding user_page_fault
user_page_fault-Sound {s} z cr2 ec refs page good = elim (Option-cases (vma_find s.vmas cr2)) [
  | inl e ↦ rw (e, user_page_fault) (good, unchanged refl)
  | inr (v, e) ↦
      let (x, y, top) = good.whole cr2 v e in
      let here = holds-find cr2 v good.valid e in
      let lo : v.start ≤ cr2 = ground (arith, here) in
      let hi : cr2 < v.end = ground (arith, here) in
      let va = cr2 - cr2 % 4096 in
      let below : v.start ≤ va = omega (arith, x, lo) in
      let low : va < 2 ^ 47 = omega (arith, hi, top) in
      let base : va % 4096 ≡ 0 = omega arith in
      let in_area : holds v va ≡ true = ground (arith, below, hi) in
      let found = find-holds cr2 va v good.valid e in_area in
      let both : (u : Space)
          → Fault s u va (Granted z refs ec page v.flags s u va)
          → Sound u × Faulted z s cr2 ec refs page u =
        λ u fault.
          (Sound-page va v good low base found fault (λ _ g. g.fits), resolved v e fault) in
      elim (Bool-cases (has ec 1)) [
        | inr k ↦ rw (e, k, user_page_fault) (both _ (lazy_fault-Fault s z refs va ec page v low k))
        | inl k ↦ elim (Bool-cases (has ec 2 && v.flags.write)) [
          | inr n ↦ rw (e, k, n, user_page_fault) (good, unchanged refl)
          | inl n ↦
              let write : v.flags.write ≡ true = second (has ec 2) v.flags.write n in
              rw (e, k, n, user_page_fault)
                (both _ (cow_fault-Fault s z refs va ec page v low base (rw k n) write))
        ]
      ]
]
  where
    second : (a b : Bool) → (a && b) ≡ true → b ≡ true
    second true b h = h
    second false b h = cc
