-- ===== src/Mm/Space/Clone/Shared.antt =====
-- kernel/mm/clone_space.c: one page as it comes to be shared.
use jnu.Base.{
  ℕ, ◌/◌, ◌^◌, ◌<◌, ◌≡◌, refl, sym, ap, ◌∙◌, subst, ◌⊎◌, inl, inr, Bool, true, false, ◌||◌, Option,
  none, some, List, [], ◌∷◌, ◌++◌, ◌==◌, if◌then◌else◌, Result, ok, err, Errno, arith, Bool-cases,
  Result-cases,
}
use mathlib.Core.List.{append-nil}
use jnu.Arch.Paging.{Pte, Pml4, paging_map, protect_entry}
use jnu.Arch.Paging.Entry.{entry_at}
use jnu.Arch.Paging.Range.{protect_page-entry, map_page-entry_lem}
use jnu.Arch.Paging.Lookup.{entry_at-page}
use jnu.Mm.Space.Clone.{Cloning, read_only, strip_write, share_page}

abbrev pub shared : Option Pte → Option Pte
shared none = none
shared (some e) = some (record e { flags = read_only e.flags })

-- The pages `done` are shared as the source `m` had them; the rest is as it was.
pub record Copied (m : Pml4) (done : ℕ → Bool) (st : Cloning) : Type 0 where
  pub source_done :
      (w : ℕ) → w < 2 ^ 47 → done w ≡ true → entry_at st.source w ≡ shared (entry_at m w)
  pub copy_done : (w : ℕ) → w < 2 ^ 47 → done w ≡ true → entry_at st.copy w ≡ shared (entry_at m w)
  pub source_left : (w : ℕ) → w < 2 ^ 47 → done w ≡ false → entry_at st.source w ≡ entry_at m w
  pub copy_left : (w : ℕ) → w < 2 ^ 47 → done w ≡ false → entry_at st.copy w ≡ none

-- What is certain also after an error: entries of the source lost no more than `PTE_WRITE`.
abbrev pub Stripped : Pml4 → Pml4 → Type 0
Stripped m m' =
    (w : ℕ) → w < 2 ^ 47 → (entry_at m' w ≡ entry_at m w) ⊎ (entry_at m' w ≡ shared (entry_at m w))

pub Copied-Stripped :
    {m : Pml4} {done : ℕ → Bool} {st : Cloning} → Copied m done st → Stripped m st.source
Copied-Stripped {m} {done} {st} c w h = elim (Bool-cases (done w)) [
  | inl d ↦ inr (c.source_done w h d)
  | inr d ↦ inl (c.source_left w h d)
]

abbrev pub with_page : (ℕ → Bool) → ℕ → ℕ → Bool
with_page done va w = done w || va / 4096 == w / 4096

-- The references that a page takes.
abbrev pub gets_of : ℕ → Option Pte → List ℕ
gets_of z none = []
gets_of z (some e) = if e.address == z then [] else e.address ∷ []

-- `gets` are the references taken if there is no error.
pub data Step (m : Pml4) (done : ℕ → Bool) (st : Cloning) (gets : List ℕ)
    (r : Cloning × Result (Unit {0})) : Type 0 where
  went : r.1 ≡ ok tt → Copied m done r.0 → r.0.gets ≡ st.gets ++ gets → Step m done st gets r
  stopped : (x : Errno) → r.1 ≡ err x → Stripped m r.0.source → Step m done st gets r

shared_read_only : (e : Pte) → e.flags.write ≡ false → some e ≡ shared (some e)
shared_read_only e h = ap (λ b. some (record e { flags = record e.flags { write = b } })) h

strip_write-entry :
    (m : Pml4) (va : ℕ) (e : Pte) (w : ℕ)
    → va < 2 ^ 47
    → w < 2 ^ 47
    → entry_at m va ≡ some e
    → entry_at (strip_write m va e).0 w
      ≡ (if va / 4096 == w / 4096 then shared (entry_at m w) else entry_at m w)
unfolding strip_write protect_entry
strip_write-entry m va e w h i here =
    let protected =
      protect_page-entry m va w (read_only e.flags) (omega (arith, h)) (omega (arith, i)) in
    elim (Bool-cases (va / 4096 == w / 4096)) [
      | inr p ↦ elim (Bool-cases e.flags.write) [
        | inl k ↦ rw (k, p, strip_write) (protected ∙ rw p refl)
        | inr k ↦ rw (k, p, strip_write) refl
      ]
      | inl p ↦
          let there : entry_at m w ≡ some e =
            sym (entry_at-page m va w (ground (arith, p))) ∙ here in
          elim (Bool-cases e.flags.write) [
            | inl k ↦ rw (k, p, strip_write) (protected ∙ rw (p, there) refl)
            | inr k ↦ rw (k, p, strip_write) (there ∙ (shared_read_only e k ∙ rw there refl))
          ]
    ]

-- An entry that is shared once more stays as it is.
again :
    (z : ℕ) (o p : Option Pte)
    → (p ≡ o) ⊎ (p ≡ shared o)
    → (shared p ≡ shared o) × (gets_of z p ≡ gets_of z o)
again z none p (inl e) = rw e (refl, refl)
again z none p (inr e) = rw e (refl, refl)
again z (some x) p (inl e) = rw e (refl, refl)
again z (some x) p (inr e) = rw e (refl, refl)

abbrev pub same_page : ℕ → ℕ → Bool
same_page va w = va / 4096 == w / 4096

-- What one page does to both tables.
abbrev Marked : Pml4 → ℕ → Pml4 → Pml4 → Type 0
Marked m va before after =
    (w : ℕ)
    → w < 2 ^ 47
    → entry_at after w ≡ (if same_page va w then shared (entry_at m w) else entry_at before w)

pub Marked-Copied :
    {m : Pml4} {done : ℕ → Bool} {st st' : Cloning} (va : ℕ)
    → Copied m done st
    → Marked m va st.source st'.source
    → Marked m va st.copy st'.copy
    → Copied m (with_page done va) st'
Marked-Copied {m} {done} {st} {st'} va c source copy = record {
  source_done = λ w h d. source w h ∙ hit w d (λ k. c.source_done w h k);
  copy_done = λ w h d. copy w h ∙ hit w d (λ k. c.copy_done w h k);
  source_left = λ w h d. let (k, p) = neither w d in source w h ∙ rw p (c.source_left w h k);
  copy_left = λ w h d. let (k, p) = neither w d in copy w h ∙ rw p (c.copy_left w h k);
}
  where
    hit :
        {x : Option Pte} (w : ℕ)
        → with_page done va w ≡ true
        → (done w ≡ true → x ≡ shared (entry_at m w))
        → (if same_page va w then shared (entry_at m w) else x) ≡ shared (entry_at m w)
    hit {x} w d old = elim (Bool-cases (same_page va w)) [
      | inl p ↦ rw p refl
      | inr p ↦ rw p (old (left (done w) (same_page va w) d p))
    ]
      where
        left : (a b : Bool) → (a || b) ≡ true → b ≡ false → a ≡ true
        left true b e f = refl
        left false b e f = cc

    neither : (w : ℕ) → with_page done va w ≡ false → (done w ≡ false) × (same_page va w ≡ false)
    neither w d = both (done w) (same_page va w) d
      where
        both : (a b : Bool) → (a || b) ≡ false → (a ≡ false) × (b ≡ false)
        both true b e = cc
        both false b e = (refl, e)

Marked-Stripped :
    (m before after : Pml4) (va : ℕ)
    → Stripped m before
    → Marked m va before after
    → Stripped m after
Marked-Stripped m before after va s marked w h = elim (Bool-cases (same_page va w)) [
  | inl p ↦ inr (marked w h ∙ rw p refl)
  | inr p ↦ elim (s w h) [ inl e ↦ inl (marked w h ∙ rw p e) | inr e ↦ inr (marked w h ∙ rw p e) ]
]

taken :
    (z : ℕ) (xs : List ℕ) (e : Pte)
    → (if e.address == z then xs else xs ++ (e.address ∷ [])) ≡ xs ++ gets_of z (some e)
taken z xs e = elim (Bool-cases (e.address == z)) [
  | inl k ↦ rw k (sym (append-nil xs))
  | inr k ↦ rw k refl
]

pub share_page-Step :
    (z : ℕ) {m : Pml4} {done : ℕ → Bool} {st : Cloning} (va : ℕ) (e : Pte)
    → va < 2 ^ 47
    → Copied m done st
    → entry_at st.source va ≡ some e
    → Step m (with_page done va) st (gets_of z (entry_at m va)) (share_page z st va e)
unfolding share_page
share_page-Step z {m} {done} {st} va e h c here =
    let tables = strip_write st.source va e in
    let copied = paging_map st.copy va e.address 1 (read_only e.flags) st.frames in
    let (same, takes) = again z (entry_at m va) (some e) (
      subst (λ x. (x ≡ entry_at m va) ⊎ (x ≡ shared (entry_at m va))) here
        (Copied-Stripped c va h)) in
    let there : (w : ℕ) → same_page va w ≡ true → shared (some e) ≡ shared (entry_at m w) =
      λ w p. same ∙ ap shared (entry_at-page m va w (ground (arith, p))) in
    let stripped : Marked m va st.source tables.0 = λ w i.
      strip_write-entry st.source va e w h i here ∙ elim (Bool-cases (same_page va w)) [
        | inl p ↦
            rw p (
              ap shared (sym (entry_at-page st.source va w (ground (arith, p))) ∙ here) ∙ there w p)
        | inr p ↦ rw p refl
      ] in
    let s = Marked-Stripped m st.source tables.0 va (Copied-Stripped c) stripped in
    elim (Result-cases tables.1) [
      | inl (x, f) ↦ rw (f, share_page) (stopped x refl s)
      | inr (_, f) ↦ elim (Result-cases copied.2) [
        | inl (x, g) ↦ rw (f, g, share_page) (stopped x refl s)
        | inr (_, g) ↦
            let copy : Marked m va st.copy copied.0 = λ w i.
              map_page-entry_lem st.copy va e.address st.frames w (read_only e.flags)
                (omega (arith, h)) (omega (arith, i))
              ∙ rw g (elim (Bool-cases (same_page va w)) [
                | inl p ↦ rw p (there w p)
                | inr p ↦ rw p refl
              ]) in
            rw (f, g, share_page)
              (went refl (Marked-Copied va c stripped copy)
                (taken z st.gets e ∙ ap (λ ys. st.gets ++ ys) takes))
      ]
    ]
