-- ===== src/Mm/Space/Clone/Pages.antt =====
-- kernel/mm/clone_space.c: the pages of an area as they come to be shared.
use jnu.Base.{
  ℕ, zero, suc, ◌+◌, ◌*◌, ◌/◌, ◌%◌, ◌^◌, ◌≤◌, ◌<◌, ◌≡◌, refl, sym, ap, ◌∙◌, subst, ◌⊎◌, inl, inr,
  Bool, true, false, ◌||◌, Option, none, some, List, [], ◌++◌, ◌==◌, einval, arith, Bool-cases,
  either_assoc, either_false,
}
use mathlib.Core.List.{append-nil, append_assoc}
use jnu.Arch.Paging.{Pte, Pml4}
use jnu.Arch.Paging.Entry.{entry_at}
use jnu.Arch.Paging.Range.{in_pages, next_pages}
use jnu.Arch.Paging.Lookup.{unmapped, in_huge, mapped, paging_get_flags-Lookup, entry_at-page}
use jnu.Mm.Space.Clone.{Cloning, clone_page, clone_pages}
use jnu.Mm.Space.Clone.Shared.{
  Copied, Copied-Stripped, Marked-Copied, Step, gets_of, same_page, share_page-Step, shared,
  stopped, went, with_page,
}

missing : (o : Option Pte) → (none ≡ o) ⊎ (none ≡ shared o) → o ≡ none
missing none e = refl
missing (some x) (inl e) = cc
missing (some x) (inr e) = cc

-- A page without an entry in the source has none in the copy.
skip-Copied :
    {m : Pml4} {done : ℕ → Bool} {st : Cloning} (va : ℕ)
    → va < 2 ^ 47
    → Copied m done st
    → entry_at st.source va ≡ none
    → Copied m (with_page done va) st
skip-Copied {m} {done} {st} va h c here =
    Marked-Copied va c
      (λ w i. elim (Bool-cases (same_page va w)) [
        | inl p ↦
            rw p (sym (entry_at-page st.source va w (ground (arith, p))) ∙ (here ∙ sym (blank w p)))
        | inr p ↦ rw p refl
      ])
      (λ w i. elim (Bool-cases (same_page va w)) [
        | inl p ↦ rw p (elim (Bool-cases (done w)) [
          | inl d ↦ c.copy_done w i d
          | inr d ↦ c.copy_left w i d ∙ sym (blank w p)
        ])
        | inr p ↦ rw p refl
      ])
  where
    blank : (w : ℕ) → same_page va w ≡ true → shared (entry_at m w) ≡ none
    blank w p = ap shared (
        sym (entry_at-page m va w (ground (arith, p)))
        ∙ missing (entry_at m va) (
            subst (λ x. (x ≡ entry_at m va) ⊎ (x ≡ shared (entry_at m va))) here
              (Copied-Stripped c va h)))

clone_page-Step :
    (z : ℕ) {m : Pml4} {done : ℕ → Bool} {st : Cloning} (va : ℕ)
    → va < 2 ^ 47
    → Copied m done st
    → Step m (with_page done va) st (gets_of z (entry_at m va)) (clone_page z st va)
unfolding clone_page
clone_page-Step z {m} {done} {st} va h c = elim (paging_get_flags-Lookup st.source va) [
  | unmapped f o ↦
      let before : entry_at m va ≡ none = missing (entry_at m va) (
        subst (λ x. (x ≡ entry_at m va) ⊎ (x ≡ shared (entry_at m va))) o
          (Copied-Stripped c va h)) in
      rw (f, before, clone_page) (went refl (skip-Copied va h c o) (sym (append-nil st.gets)))
  | in_huge e f ↦ rw (f, clone_page) (stopped einval refl (Copied-Stripped c))
  | mapped e f o ↦ rw (f, clone_page) (share_page-Step z va e h c o)
]

-- The references that the pages take, in order.
abbrev pub gets_in : ℕ → Pml4 → ℕ → ℕ → List ℕ
gets_in z m va zero = []
gets_in z m va (suc k) = gets_of z (entry_at m va) ++ gets_in z m (va + 4096) k

pub Copied-same :
    {m : Pml4} {done done' : ℕ → Bool} {st : Cloning}
    → ((w : ℕ) → done' w ≡ done w)
    → Copied m done st
    → Copied m done' st
Copied-same same c = record {
  source_done = λ w h d. c.source_done w h (sym (same w) ∙ d);
  copy_done = λ w h d. c.copy_done w h (sym (same w) ∙ d);
  source_left = λ w h d. c.source_left w h (sym (same w) ∙ d);
  copy_left = λ w h d. c.copy_left w h (sym (same w) ∙ d);
}

abbrev pub with_pages : (ℕ → Bool) → ℕ → ℕ → ℕ → Bool
with_pages done va k w = done w || in_pages va k w

pub clone_pages-Step :
    (z : ℕ) {m : Pml4} (va k : ℕ) {done : ℕ → Bool} {st : Cloning}
    → va % 4096 ≡ 0
    → va + 4096 * k ≤ 2 ^ 47
    → Copied m done st
    → Step m (with_pages done va k) st (gets_in z m va k) (clone_pages z st va k)
unfolding clone_pages
clone_pages-Step z {m} va zero {done} {st} p h c =
    went refl
      (Copied-same
        (λ w. let out : in_pages va 0 w ≡ false = ground arith in rw out (either_false (done w))) c)
      (sym (append-nil st.gets))
clone_pages-Step z {m} va (suc k) {done} {st} p h c =
    elim (clone_page-Step z va (omega (arith, h)) c) [
      | stopped x f s ↦ rw (f, clone_pages) (stopped x refl s)
      | went f c1 g ↦
          elim (clone_pages-Step z (va + 4096) k (omega (arith, p)) (omega (arith, h)) c1) [
            | stopped x f' s ↦ rw (f, clone_pages) (stopped x f' s)
            | went f' c2 g' ↦
                rw (f, clone_pages)
                  (went f'
                    (Copied-same
                      (λ w.
                        ap (λ b. done w || b) (next_pages va k w p)
                        ∙ either_assoc (done w) (va / 4096 == w / 4096) (in_pages (va + 4096) k w))
                      c2)
                    (g'
                      ∙ (ap (λ xs. xs ++ gets_in z m (va + 4096) k) g
                          ∙ append_assoc st.gets (gets_of z (entry_at m va))
                              (gets_in z m (va + 4096) k))))
          ]
    ]
