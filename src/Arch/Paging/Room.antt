-- ===== src/Arch/Paging/Room.antt =====
-- kernel/arch/x86_64/paging.c: with no huge page in the way and enough pages for tables, mapping works.
use jnu.Base.{
  ℕ, suc, ◌+◌, ◌-◌, ◌^◌, ◌≤◌, ◌<◌, ◌≡◌, refl, sym, ap, ◌∙◌, subst, ◌⊎◌, inl, inr, false, Option,
  none, some, ◌==◌, update, Result, ok, err, enoent, arith, Bool-cases, Option-cases,
}
use jnu.Arch.Paging.{
  Pte, PteFlags, Slot, absent, huge, table, Pt, Pd, Pdpt, Pml4, pml4_idx, pdpt_idx, pd_idx, pt_idx,
  table_or_new, table_if, no_entries, no_tables, map_page, paging_map, at_entry, protect_entry,
  paging_protect, small, big, get_pt, get_pd, get_pdpt, paging_get_flags,
}
use jnu.Arch.Paging.Entry.{entry_at, look}

-- No huge page, and no table below that has one.
abbrev pub Clear : {A : Type 0} → (A → Type 0) → Slot A → Type 0
Clear P absent = Unit {0}
Clear P (huge e) = ⊥
Clear P (table t) = P t

abbrev pub EachOn : {A : Type 0} → (ℕ → Type 0) → (A → Type 0) → (ℕ → Slot A) → Type 0
EachOn Q P p = (i : ℕ) → Q i → Clear P (p i)

abbrev Anywhere : ℕ → Type 0
Anywhere i = Unit {0}

abbrev User : ℕ → Type 0
User i = i < 256

abbrev ClearPd : Pd → Type 0
ClearPd pd = EachOn Anywhere (λ (pt : Pt). Unit {0}) pd

abbrev ClearPdpt : Pdpt → Type 0
ClearPdpt pdpt = EachOn Anywhere ClearPd pdpt

-- No user address is on a huge page.
abbrev pub NoHuge : Pml4 → Type 0
NoHuge m = EachOn User ClearPdpt m

Slot-cases :
    {A : Type 0} (s : Slot A)
    → (s ≡ absent) ⊎ (((e : Pte) × (s ≡ huge e)) ⊎ ((t : A) × (s ≡ table t)))
Slot-cases absent = inl refl
Slot-cases (huge e) = inr (inl (e, refl))
Slot-cases (table t) = inr (inr (t, refl))

-- What a change leaves: no error, what held of the tables, and all but `need` of the pages.
abbrev pub Done : {A : Type 0} → (A → Type 0) → ℕ → ℕ → A × ℕ × Result (Unit {0}) → Type 0
Done P need n r = (r.2 ≡ ok tt) × P r.0 × (n ≤ need + r.1)

update-EachOn :
    {A : Type 0} (Q : ℕ → Type 0) (P : A → Type 0) (p : ℕ → Slot A) (i : ℕ) (t : A)
    → P t
    → EachOn Q P p
    → EachOn Q P (update p i (table t))
update-EachOn Q P p i t h each j q = elim (Bool-cases (i == j)) [
  | inl k ↦ rw k h
  | inr k ↦ rw k (each j q)
]

table_or_new-Done :
    {A : Type 0} (Q : ℕ → Type 0) (P : A → Type 0) (empty : A) (need : ℕ)
    (body : A → ℕ → A × ℕ × Result (Unit {0}))
    → P empty
    → ((t : A) (n : ℕ) → P t → need ≤ n → Done P need n (body t n))
    → (p : ℕ → Slot A) (i n : ℕ) → Q i
    → EachOn Q P p
    → suc need ≤ n
    → Done (EachOn Q P) (suc need) n (table_or_new empty p i n body)
unfolding table_or_new
table_or_new-Done Q P empty need body start below p i n q each room = elim (Slot-cases (p i)) [
  | inl a ↦
      let some_left : (n == 0) ≡ false = ground (arith, room) in
      let (fine, good, left) = below empty (n - 1) start (omega (arith, room)) in
      rw (a, some_left, table_or_new)
        (fine, update-EachOn Q P p i _ good each, omega (arith, left, room))
  | inr (inl (e, a)) ↦ absurd (subst (λ s. Clear P s) a (each i q))
  | inr (inr (t, a)) ↦
      let (fine, good, left) =
        below t n (subst (λ s. Clear P s) a (each i q)) (omega (arith, room)) in
      rw (a, table_or_new) (fine, update-EachOn Q P p i _ good each, omega (arith, left))
]

pub map_page-Done :
    (m : Pml4) (v : ℕ) (e : Pte) (n : ℕ)
    → v < 2 ^ 47
    → NoHuge m
    → 3 ≤ n
    → Done NoHuge 3 n (map_page m v e n)
unfolding map_page
map_page-Done m v e n h clear room =
    table_or_new-Done User ClearPdpt no_tables 2 _ (λ i q. tt)
      (λ pdpt n1 c1 h1.
        table_or_new-Done Anywhere ClearPd no_tables 1 _ (λ i q. tt)
          (λ pd n2 c2 h2.
            table_or_new-Done Anywhere (λ (pt : Pt). Unit {0}) no_entries 0 _ tt
              (λ pt n3 c3 h3. (refl, tt, omega arith)) pd (pd_idx v) n2 tt c2 h2)
          pdpt (pdpt_idx v) n1 tt c1 h1)
      m (pml4_idx v) n (omega (arith, h)) clear room

pub paging_map-Done :
    (m : Pml4) (v a : ℕ) (flags : PteFlags) (n : ℕ)
    → v < 2 ^ 47
    → NoHuge m
    → 3 ≤ n
    → Done NoHuge 3 n (paging_map m v a 1 flags n)
unfolding paging_map
paging_map-Done m v a flags n h clear room =
    let (fine, good, left) =
      map_page-Done m v (record { address = a; flags = flags }) n h clear room in
    rw (fine, paging_map) (refl, good, left)

table_if-EachOn {ℓ} :
    {A : Type 0} {R : Type ℓ} (Q : ℕ → Type 0) (P : A → Type 0) (missing : R) (body : A → A × R)
    → ((t : A) → P t → P (body t).0)
    → (p : ℕ → Slot A) (i : ℕ) → Q i
    → EachOn Q P p
    → EachOn Q P (table_if p i missing body).0
unfolding table_if
table_if-EachOn Q P missing body below p i q each = elim (Slot-cases (p i)) [
  | inl a ↦ rw (a, table_if) each
  | inr (inl (e, a)) ↦ rw (a, table_if) each
  | inr (inr (t, a)) ↦
      rw (a, table_if)
        (update-EachOn Q P p i _ (below t (subst (λ s. Clear P s) a (each i q))) each)
]

-- The result where an entry is found.
table_if-found {ℓ} :
    {A : Type 0} {R : Type ℓ} (f : A → Option Pte) (e : Pte) (missing : R) (body : A → A × R)
    (r : R)
    → ((t : A) → f t ≡ some e → (body t).1 ≡ r)
    → (p : ℕ → Slot A) (i : ℕ) → look f (p i) ≡ some e
    → (table_if p i missing body).1 ≡ r
unfolding table_if
table_if-found f e missing body r below p i here = elim (Slot-cases (p i)) [
  | inl a ↦ absurd (nothing (sym (ap (λ s. look f s) a) ∙ here))
  | inr (inl (x, a)) ↦ absurd (nothing (sym (ap (λ s. look f s) a) ∙ here))
  | inr (inr (t, a)) ↦ rw (a, table_if) (below t (sym (ap (λ s. look f s) a) ∙ here))
]
  where
    nothing : none ≡ some e → ⊥
    nothing c = cc

pub paging_protect-works :
    (m : Pml4) (v : ℕ) (flags : PteFlags) (e : Pte)
    → v < 2 ^ 47
    → entry_at m v ≡ some e
    → ((paging_protect m v 1 flags).1 ≡ ok tt) × (NoHuge m → NoHuge (paging_protect m v 1 flags).0)
unfolding paging_protect at_entry protect_entry entry_at
paging_protect-works m v flags e h here =
    let found : (at_entry m v (err enoent) (protect_entry flags)).1 ≡ ok tt =
      table_if-found _ e (err enoent) _ (ok tt)
        (λ pdpt f.
          table_if-found _ e (err enoent) _ (ok tt)
            (λ pd g. table_if-found _ e (err enoent) _ (ok tt) (λ pt k. rw k refl) pd (pd_idx v) g)
            pdpt (pdpt_idx v) f)
        m (pml4_idx v) here in
    rw (found, paging_protect)
      (
        refl,
        λ clear.
            table_if-EachOn User ClearPdpt (err enoent) _
              (λ pdpt c1.
                table_if-EachOn Anywhere ClearPd (err enoent) _
                  (λ pd c2.
                    table_if-EachOn Anywhere (λ (pt : Pt). Unit {0}) (err enoent) _ (λ pt c3. tt) pd
                      (pd_idx v) tt c2)
                  pdpt (pdpt_idx v) tt c1)
              m (pml4_idx v) (omega (arith, h)) clear,
      )

pub no_big :
    (m : Pml4) (v : ℕ) (e : Pte) → v < 2 ^ 47 → NoHuge m → paging_get_flags m v ≡ ok (big e) → ⊥
unfolding paging_get_flags
no_big m v e h clear found = elim (Slot-cases (m (pml4_idx v))) [
  | inl a ↦ missed (sym (rw (a, paging_get_flags) refl) ∙ found)
  | inr (inl (x, a)) ↦ subst (λ s. Clear ClearPdpt s) a (clear (pml4_idx v) (omega (arith, h)))
  | inr (inr (t, a)) ↦
      in_pdpt t (subst (λ s. Clear ClearPdpt s) a (clear (pml4_idx v) (omega (arith, h))))
        (sym (rw (a, paging_get_flags) refl) ∙ found)
]
  where
    missed : err enoent ≡ ok (big e) → ⊥
    missed c = cc

    small_page : (x : Pte) → ok (small x) ≡ ok (big e) → ⊥
    small_page x c = cc

    in_pt : (pt : Pt) → get_pt pt v ≡ ok (big e) → ⊥
    in_pt pt f = elim (Option-cases (pt (pt_idx v))) [
      | inl a ↦ missed (sym (rw (a, get_pt) refl) ∙ f)
      | inr (x, a) ↦ small_page x (sym (rw (a, get_pt) refl) ∙ f)
    ]

    in_pd : (pd : Pd) → ClearPd pd → get_pd pd v ≡ ok (big e) → ⊥
    in_pd pd c f = elim (Slot-cases (pd (pd_idx v))) [
      | inl a ↦ missed (sym (rw (a, get_pd) refl) ∙ f)
      | inr (inl (x, a)) ↦ subst (λ s. Clear (λ (pt : Pt). Unit {0}) s) a (c (pd_idx v) tt)
      | inr (inr (t, a)) ↦ in_pt t (sym (rw (a, get_pd) refl) ∙ f)
    ]

    in_pdpt : (pdpt : Pdpt) → ClearPdpt pdpt → get_pdpt pdpt v ≡ ok (big e) → ⊥
    in_pdpt pdpt c f = elim (Slot-cases (pdpt (pdpt_idx v))) [
      | inl a ↦ missed (sym (rw (a, get_pdpt) refl) ∙ f)
      | inr (inl (x, a)) ↦ subst (λ s. Clear ClearPd s) a (c (pdpt_idx v) tt)
      | inr (inr (t, a)) ↦
          in_pd t (subst (λ s. Clear ClearPd s) a (c (pdpt_idx v) tt))
            (sym (rw (a, get_pdpt) refl) ∙ f)
    ]
