-- ===== src/Arch/Paging/Entry.antt =====
-- kernel/arch/x86_64/paging.c: what a change of one entry does to the entry of every address.
use jnu.Base.{
  ℕ, ◌-◌, ◌/◌, ◌^◌, ◌<◌, ◌≡◌, refl, sym, ap, ◌∙◌, subst, ◌⊎◌, inl, inr, Bool, true, false, ◌&&◌,
  Option, none, some, ◌==◌, ==_refl, if◌then◌else◌, update, Result, ok, err, arith, Bool-cases,
  eq_false_of,
}
use jnu.Arch.Paging.{
  Pte, Slot, absent, huge, table, Pt, Pd, Pdpt, Pml4, pml4_idx, pdpt_idx, pd_idx, pt_idx,
  table_or_new, table_if, no_entries, no_tables, map_page, at_entry,
}

abbrev pub look : {A : Type 0} → (A → Option Pte) → Slot A → Option Pte
look f absent = none
look f (huge e) = none
look f (table t) = f t

-- The entry that translates an address of a 4096-byte page.
unfoldable pub entry_at : Pml4 → ℕ → Option Pte
entry_at pml4 v =
    look
      (λ (pdpt : Pdpt).
        look (λ (pd : Pd). look (λ (pt : Pt). pt (pt_idx v)) (pd (pd_idx v))) (pdpt (pdpt_idx v)))
      (pml4 (pml4_idx v))

abbrev pub is_ok : Result (Unit {0}) → Bool
is_ok (ok _) = true
is_ok (err e) = false

slot-cases :
    {A : Type 0} (s : Slot A)
    → ((f : A → Option Pte) → look f s ≡ none) × ((s ≡ absent) ⊎ ((e : Pte) × (s ≡ huge e)))
      ⊎ ((t : A) × (s ≡ table t))
slot-cases absent = inl (λ f. refl, inl refl)
slot-cases (huge e) = inl (λ f. refl, inr (e, refl))
slot-cases (table t) = inr (t, refl)

update_other : {A : Type 0} (f : ℕ → A) (i j : ℕ) (x : A) → (i == j) ≡ false → update f i x j ≡ f j
update_other f i j x h = rw h refl

update_same : {A : Type 0} (f : ℕ → A) (i : ℕ) (x : A) → update f i x i ≡ x
update_same f i x = rw (==_refl i) refl

passes : (b : Bool) (x y : Option Pte) → y ≡ (if b && false then x else y)
passes true x y = refl
passes false x y = refl

quiet :
    (b : Bool) (h : Option Pte → Option Pte) → h none ≡ none → none ≡ (if b then h none else none)
quiet true h e = sym e
quiet false h e = refl

table_or_new-look :
    {A : Type 0} (empty : A) (f : A → Option Pte) (hit : Bool) (e : Pte)
    (body : A → ℕ → A × ℕ × Result (Unit {0}))
    → ((t : A) (n : ℕ) → f (body t n).0 ≡ (if is_ok (body t n).2 && hit then some e else f t))
    → f empty ≡ none
    → (p : ℕ → Slot A) (i n j : ℕ)
    → look f ((table_or_new empty p i n body).0 j) ≡ (
        if is_ok (table_or_new empty p i n body).2 && (i == j && hit) then some e else look f (p j))
unfolding table_or_new
table_or_new-look empty f hit e body spec none_in p i n j = elim (Bool-cases (i == j)) [
  | inl k ↦
      let same : i ≡ j = ground (arith, k) in
      subst
        (λ x. look f ((table_or_new empty p i n body).0 x) ≡ (
          if is_ok (table_or_new empty p i n body).2 && (i == x && hit)
          then some e
          else look f (p x)))
        same
        (elim (slot-cases (p i)) [
          | inl (_, inl a) ↦ elim (Bool-cases (n == 0)) [
            | inl z ↦ rw (a, z, table_or_new) (ap (λ s. look f s) a)
            | inr z ↦ rw (a, z, ==_refl i, table_or_new) (spec empty (n - 1) ∙ rw none_in refl)
          ]
          | inl (_, inr (h, a)) ↦ rw (a, table_or_new) (ap (λ s. look f s) a)
          | inr (t, a) ↦ rw (a, ==_refl i, table_or_new) (spec t n)
        ])
  | inr k ↦ elim (slot-cases (p i)) [
    | inl (_, inl a) ↦ elim (Bool-cases (n == 0)) [
      | inl z ↦ rw (a, z, table_or_new) refl
      | inr z ↦
          rw (a, z, k, table_or_new) (passes (is_ok (body empty (n - 1)).2) (some e) (look f (p j)))
    ]
    | inl (_, inr (h, a)) ↦ rw (a, table_or_new) refl
    | inr (t, a) ↦ rw (a, k, table_or_new) (passes (is_ok (body t n).2) (some e) (look f (p j)))
  ]
]

table_if-look {ℓ} :
    {A : Type 0} {R : Type ℓ} (f : A → Option Pte) (hit : Bool) (h : Option Pte → Option Pte)
    (missing : R) (body : A → A × R)
    → ((t : A) → f (body t).0 ≡ (if hit then h (f t) else f t))
    → h none ≡ none
    → (p : ℕ → Slot A) (i j : ℕ)
    → look f ((table_if p i missing body).0 j)
      ≡ (if i == j && hit then h (look f (p j)) else look f (p j))
unfolding table_if
table_if-look f hit h missing body spec none_out p i j = elim (Bool-cases (i == j)) [
  | inl k ↦
      let same : i ≡ j = ground (arith, k) in
      subst
        (λ x.
          look f ((table_if p i missing body).0 x)
          ≡ (if i == x && hit then h (look f (p x)) else look f (p x)))
        same
        (elim (slot-cases (p i)) [
          | inl (none_in, inl a) ↦
              rw (a, ==_refl i, table_if) (ap (λ s. look f s) a ∙ quiet hit h none_out)
          | inl (none_in, inr (e, a)) ↦
              rw (a, ==_refl i, table_if) (ap (λ s. look f s) a ∙ quiet hit h none_out)
          | inr (t, a) ↦ rw (a, ==_refl i, table_if) (spec t)
        ])
  | inr k ↦ elim (slot-cases (p i)) [
    | inl (_, inl a) ↦ rw (a, k, table_if) refl
    | inl (_, inr (e, a)) ↦ rw (a, k, table_if) refl
    | inr (t, a) ↦ rw (a, k, table_if) refl
  ]
]

abbrev in_pt : ℕ → Pt → Option Pte
in_pt w pt = pt (pt_idx w)

abbrev in_pd : ℕ → Pd → Option Pte
in_pd w pd = look (in_pt w) (pd (pd_idx w))

abbrev in_pdpt : ℕ → Pdpt → Option Pte
in_pdpt w pdpt = look (in_pd w) (pdpt (pdpt_idx w))

-- Two addresses have one entry.
abbrev pub same_entry : ℕ → ℕ → Bool
same_entry v w =
    pml4_idx v == pml4_idx w
    && (pdpt_idx v == pdpt_idx w && (pd_idx v == pd_idx w && pt_idx v == pt_idx w))

pub map_page-entry :
    (m : Pml4) (v : ℕ) (e : Pte) (n w : ℕ)
    → entry_at (map_page m v e n).0 w
      ≡ (if is_ok (map_page m v e n).2 && same_entry v w then some e else entry_at m w)
unfolding map_page entry_at
map_page-entry m v e n w =
    table_or_new-look no_tables (in_pdpt w)
      (pdpt_idx v == pdpt_idx w && (pd_idx v == pd_idx w && pt_idx v == pt_idx w)) e _
      (λ pdpt n1.
        table_or_new-look no_tables (in_pd w) (pd_idx v == pd_idx w && pt_idx v == pt_idx w) e _
          (λ pd n2.
            table_or_new-look no_entries (in_pt w) (pt_idx v == pt_idx w) e _ (λ pt n3. refl) refl
              pd (pd_idx v) n2 (pd_idx w))
          refl pdpt (pdpt_idx v) n1 (pdpt_idx w))
      refl m (pml4_idx v) n (pml4_idx w)

pub at_entry-entry {ℓ} :
    {R : Type ℓ} (m : Pml4) (v : ℕ) (missing : R) (change : Option Pte → Option Pte × R) (w : ℕ)
    → (change none).0 ≡ none
    → entry_at (at_entry m v missing change).0 w
      ≡ (if same_entry v w then (change (entry_at m w)).0 else entry_at m w)
unfolding at_entry entry_at
at_entry-entry m v missing change w none_out =
    table_if-look (in_pdpt w)
      (pdpt_idx v == pdpt_idx w && (pd_idx v == pd_idx w && pt_idx v == pt_idx w)) h missing _
      (λ pdpt.
        table_if-look (in_pd w) (pd_idx v == pd_idx w && pt_idx v == pt_idx w) h missing _
          (λ pd.
            table_if-look (in_pt w) (pt_idx v == pt_idx w) h missing _
              (λ pt. changes pt (pt_idx v) (pt_idx w)) none_out pd (pd_idx v) (pd_idx w))
          none_out pdpt (pdpt_idx v) (pdpt_idx w))
      none_out m (pml4_idx v) (pml4_idx w)
  where
    h : Option Pte → Option Pte
    h o = (change o).0

    changes :
        (pt : Pt) (i j : ℕ)
        → update pt i (change (pt i)).0 j ≡ (if i == j then (change (pt j)).0 else pt j)
    changes pt i j = elim (Bool-cases (i == j)) [
      | inl k ↦ let same : i ≡ j = ground (arith, k) in rw k (ap (λ x. (change (pt x)).0) same)
      | inr k ↦ rw k refl
    ]

both : (a b : Bool) → (a && b) ≡ true → (a ≡ true) × (b ≡ true)
both true b h = (refl, h)
both false b h = cc

page_of :
    (v w : ℕ)
    → v < 2 ^ 48
    → w < 2 ^ 48
    → pml4_idx v ≡ pml4_idx w
    → pdpt_idx v ≡ pdpt_idx w
    → pd_idx v ≡ pd_idx w
    → pt_idx v ≡ pt_idx w
    → v / 4096 ≡ w / 4096
page_of v w h k a b c d = omega (arith, h, k, a, b, c, d)

pub same_entry-page : (v w : ℕ) → v < 2 ^ 48 → w < 2 ^ 48 → same_entry v w ≡ (v / 4096 == w / 4096)
same_entry-page v w h k = elim (Bool-cases (v / 4096 == w / 4096)) [
  | inl e ↦
      let page : v / 4096 ≡ w / 4096 = ground (arith, e) in
      let i4 : pml4_idx v ≡ pml4_idx w = omega (arith, page) in
      let i3 : pdpt_idx v ≡ pdpt_idx w = omega (arith, page) in
      let i2 : pd_idx v ≡ pd_idx w = omega (arith, page) in
      let i1 : pt_idx v ≡ pt_idx w = omega (arith, page) in
      let t : same_entry v w ≡ true =
        rw
          (
            i4,
            i3,
            i2,
            i1,
            ==_refl (pml4_idx w),
            ==_refl (pdpt_idx w),
            ==_refl (pd_idx w),
            ==_refl (pt_idx w),
          )
          refl in
      t ∙ sym e
  | inr e ↦
      eq_false_of (same_entry v w) (λ t.
        let (a, t3) = both (pml4_idx v == pml4_idx w) _ t in
        let (b, t2) = both (pdpt_idx v == pdpt_idx w) _ t3 in
        let (c, d) = both (pd_idx v == pd_idx w) (pt_idx v == pt_idx w) t2 in
        let page : v / 4096 ≡ w / 4096 =
          page_of v w h k (ground (arith, a)) (ground (arith, b)) (ground (arith, c))
            (ground (arith, d)) in
        ground (arith, e, page))
      ∙ sym e
]
