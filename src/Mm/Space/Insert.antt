-- ===== src/Mm/Space/Insert.antt =====
-- kernel/mm/mmap.c: the new area at the end of `vmm_map_anonymous`.
use jnu.Base.{
  ℕ, ◌+◌, ◌%◌, ◌^◌, ◌≤◌, ◌<◌, ◌≡◌, refl, sym, ap, ◌∙◌, subst, inl, inr, Bool, true, false, ◌&&◌,
  Option, none, some, leb, ltb, Result, ok, err, Errno, eexist, arith, Bool-cases, Option-cases,
  add64,
}
use jnu.Rbtree.{Tree}
use jnu.Mm.Vma.{Vma, VmaFlags, vma_find, vma_insert}
use jnu.Mm.Vma.Order.{Valid, holds}
use jnu.Mm.Vma.Change.{added, overlaps, vma_insert-Insertion}
use jnu.Mm.Vma.Split.{flags_at, flags_of, Whole}
use jnu.Mm.Vma.Range.{in_range}
use jnu.Arch.Paging.Entry.{entry_at}
use jnu.Mm.Space.{Space, insert_area}
use jnu.Mm.Space.Backing.{Sound, Sound-Backed}

-- A new area, of which no page has an entry yet; all else is as it was.
pub record Mapped (s u : Space) (chosen len : ℕ) (f : VmaFlags) : Type 0 where
  pub paged : chosen % 4096 ≡ 0
  pub fits : chosen + len ≤ 2 ^ 47
  pub inside :
      (a : ℕ)
      → in_range chosen (chosen + len) a ≡ true
      → vma_find u.vmas a ≡ some (record { start = chosen; end = chosen + len; flags = f })
  pub fresh : (a : ℕ) → in_range chosen (chosen + len) a ≡ true → entry_at u.pml4 a ≡ none
  pub outside :
      (a : ℕ)
      → in_range chosen (chosen + len) a ≡ false
      → (flags_at u.vmas a ≡ flags_at s.vmas a)
        × (a < 2 ^ 47 → entry_at u.pml4 a ≡ entry_at s.pml4 a)

-- The areas of `s` and one more, whose addresses were in none.
record WithArea (s : Space) (v : Vma) (t : Tree Vma) : Type 0 where
  valid : Valid t
  new : (a : ℕ) → holds v a ≡ true → vma_find t a ≡ some v
  old : (a : ℕ) → holds v a ≡ false → vma_find t a ≡ vma_find s.vmas a
  free : (a : ℕ) → holds v a ≡ true → vma_find s.vmas a ≡ none

WithArea-Sound :
    {s : Space} (v : Vma) (t : Tree Vma)
    → Sound s
    → Whole v
    → (v.flags.write && v.flags.exec) ≡ false
    → WithArea s v t
    → Sound (record s { vmas = t })
WithArea-Sound {s} v t good pages wx more = record {
  valid = more.valid;
  whole = λ a w e. elim (Bool-cases (holds v a)) [
    | inl i ↦ subst Whole (same_area (sym (more.new a i) ∙ e)) pages
    | inr i ↦ good.whole a w (sym (more.old a i) ∙ e)
  ];
  exclusive = λ a g e. elim (Bool-cases (holds v a)) [
    | inl i ↦
        subst (λ (x : VmaFlags). (x.write && x.exec) ≡ false)
          (same_flags (sym e ∙ ap flags_of (more.new a i))) wx
    | inr i ↦ good.exclusive a g (sym (ap flags_of (more.old a i)) ∙ e)
  ];
  allowed = λ w e h p.
      let (g, x, y) = good.allowed w e h p in
      elim (Bool-cases (holds v w)) [
        | inl i ↦ absurd (Sound-Backed good w e h p (more.free w i))
        | inr i ↦ (g, ap flags_of (more.old w i) ∙ x, y)
      ];
}
  where
    same_flags : {g h : VmaFlags} → some g ≡ some h → h ≡ g
    same_flags e = cc

    same_area : {g h : Vma} → some g ≡ some h → g ≡ h
    same_area e = cc

WithArea-Mapped :
    {s : Space} (v : Vma) (chosen len : ℕ) (t : Tree Vma)
    → Sound s
    → chosen % 4096 ≡ 0
    → chosen + len ≤ 2 ^ 47
    → ((a : ℕ) → holds v a ≡ in_range chosen (chosen + len) a)
    → v ≡ record { start = chosen; end = chosen + len; flags = v.flags }
    → WithArea s v t
    → Mapped s (record s { vmas = t }) chosen len v.flags
WithArea-Mapped {s} v chosen len t good base fits range shape more = record {
  paged = base;
  fits = fits;
  inside = λ a i. more.new a (range a ∙ i) ∙ ap some shape;
  fresh = λ a i. elim (Option-cases (entry_at s.pml4 a)) [
    | inl p ↦ p
    | inr (e, p) ↦
        let low : a < 2 ^ 47 = ground (arith, i, fits) in
        absurd (Sound-Backed good a e low p (more.free a (range a ∙ i)))
  ];
  outside = λ a i. (ap flags_of (more.old a (range a ∙ i)), λ _. refl);
}

pub insert_area-Mapped :
    {s : Space} (chosen len : ℕ) (f : VmaFlags) (memory : Bool)
    → Sound s
    → 0 < len
    → len % 4096 ≡ 0
    → chosen % 4096 ≡ 0
    → chosen + len ≤ 2 ^ 47
    → (f.write && f.exec) ≡ false
    → Sound (insert_area s chosen len f memory).0
      × ((c : ℕ)
          → (insert_area s chosen len f memory).1 ≡ ok c
          → (c ≡ chosen) × Mapped s (insert_area s chosen len f memory).0 c len f)
      × (memory ≡ true
          → ((a : ℕ) → in_range chosen (chosen + len) a ≡ true → vma_find s.vmas a ≡ none)
          → (insert_area s chosen len f memory).1 ≡ ok chosen)
      × ((x : Errno)
          → (insert_area s chosen len f memory).1 ≡ err x
          → (a : ℕ) → flags_at (insert_area s chosen len f memory).0.vmas a ≡ flags_at s.vmas a)
unfolding insert_area
insert_area-Mapped {s} chosen len f memory good long paged base fits wx =
    let sum : add64 chosen len ≡ chosen + len = omega (arith, fits) in
    let v : Vma = record { start = chosen; end = add64 chosen len; flags = f } in
    let aligned : v.end % 4096 ≡ 0 = omega (arith, sum, base, paged) in
    let range : (a : ℕ) → holds v a ≡ in_range chosen (chosen + len) a =
      λ a. ap (λ e. leb chosen a && ltb a e) sum in
    elim (Bool-cases memory) [
      | inr k ↦
          rw (k, insert_area) (good, λ c bad. absurd (clash refl bad), λ bad. cc, λ _ _ _. refl)
      | inl k ↦
          rw (k, insert_area)
            (elim (vma_insert-Insertion {t = s.vmas} v good.valid (omega (arith, long, sum))) [
              | overlaps a w e i g ↦
                  let tree : (vma_insert s.vmas v).0 ≡ s.vmas =
                    ap (λ (r : Tree Vma × Result (Unit {0})). r.0) e in
                  let bad_result : (vma_insert s.vmas v).1 ≡ err eexist =
                    ap (λ (r : Tree Vma × Result (Unit {0})). r.1) e in
                  rw bad_result (
                    subst (λ x. Sound (record s { vmas = x })) (sym tree) good,
                    λ c bad. absurd (clash refl bad),
                    λ _ vacant. absurd (taken (vacant a (sym (range a) ∙ i)) g),
                    λ _ _ b. ap (λ x. flags_at x b) tree,
                  )
              | added done valid finds free ↦
                  let t = (vma_insert s.vmas v).0 in
                  let more : WithArea s v t = record {
                    valid = valid;
                    new = λ a i. finds a ∙ rw i refl;
                    old = λ a i. finds a ∙ rw i refl;
                    free = free;
                  } in
                  let area =
                    WithArea-Mapped v chosen len t good base fits range
                      (ap (λ e. record { start = chosen; end = e; flags = f }) sum) more in
                  rw done (
                    WithArea-Sound v t good (base, aligned, omega (arith, sum, fits)) wx more,
                    λ c e. (
                      sym (same_place e),
                      subst (λ c. Mapped s (record s { vmas = t }) c len f) (same_place e) area,
                    ),
                    λ _ _. refl,
                    λ _ bad. absurd (clash bad refl),
                  )
            ])
    ]
  where
    clash : {r : Result ℕ} {x : Errno} {c : ℕ} → r ≡ err x → r ≡ ok c → ⊥
    clash a b = cc

    taken : {o : Option Vma} {w : Vma} → o ≡ none → o ≡ some w → ⊥
    taken a b = cc

    same_place : {a b : ℕ} → ok a ≡ ok b → a ≡ b
    same_place e = cc
