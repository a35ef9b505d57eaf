-- ===== src/Mm/Space/Grants.antt =====
-- kernel/mm/vmm.c: the entry that a page fault makes.
use jnu.Base.{
  ℕ, ◌≡◌, refl, sym, ◌∙◌, subst, ◌⊎◌, inl, inr, Bool, true, false, ◌&&◌, [], ◌∷◌, ◌++◌, some, ◌==◌,
  if◌then◌else◌, Result, ok, err, Errno, eacces, enomem, arith, Bool-cases,
}
use jnu.Mm.Vma.{VmaFlags}
use jnu.Arch.Paging.{Pte}
use jnu.Arch.Paging.Entry.{entry_at}
use jnu.Mm.Space.{Space, has, lazy_entry}
use jnu.Mm.Space.Backing.{Allows}

-- Whether the area lets the access that faulted: on a page that is there the fault is a write;
-- otherwise the error code says what it was.
abbrev pub may_access : ℕ → VmaFlags → Bool
may_access ec f =
    if has ec 1
    then has ec 2 && f.write
    else if has ec 16
    then f.exec
    else if has ec 2
    then f.write
    else f.read

-- What holds of an entry that a fault makes at the page `va` of an area with flags `f`: it gives no
-- more than the area, which lets the access be; it lets a page be written only if that is the fresh
-- one, or has one reference and is not the zero page; and where a page was, it stays or has been
-- copied into the fresh one.
pub record Granted (z : ℕ) (refs : ℕ → ℕ) (ec page : ℕ) (f : VmaFlags) (s u : Space) (va : ℕ)
    (e : Pte) : Type 0 where
  pub fits : Allows f e.flags
  pub asked : may_access ec f ≡ true
  pub owned :
      e.flags.write ≡ true
      → ((e.address ≡ page) × ((page == 0) ≡ false))
        ⊎ ((refs e.address ≡ 1) × ((e.address == z) ≡ false))
  pub contents :
      has ec 1 ≡ true
      → (old : Pte) → entry_at s.pml4 va ≡ some old
      → (e.address ≡ old.address)
        ⊎ ((e.address ≡ page) × (u.copied ≡ s.copied ++ (page, old.address) ∷ []))

-- The entry that a first access gets.
pub record First (f : VmaFlags) (ec page : ℕ) (e : Pte) : Type 0 where
  pub fits : Allows f e.flags
  pub asked : has ec 1 ≡ false → may_access ec f ≡ true
  pub owned : e.flags.write ≡ true → (e.address ≡ page) × ((page == 0) ≡ false)

pub lazy_entry-First :
    (z : ℕ) (f : VmaFlags) (ec page : ℕ) (e : Pte)
    → lazy_entry z f ec page ≡ ok e
    → First f ec page e
unfolding lazy_entry
lazy_entry-First z f ec page e h = elim (Bool-cases (has ec 16)) [
  | inl i ↦ elim (Bool-cases f.exec) [
    | inr x ↦ refuses eacces (rw (i, x, lazy_entry) refl)
    | inl x ↦ elim (Bool-cases (page == 0)) [
      | inl n ↦ refuses enomem (rw (i, x, n, lazy_entry) refl)
      | inr n ↦
          entry
            (record { address = page; flags = record { user = true; write = false; nx = false } })
            (rw (i, x, n, lazy_entry) refl)
            (record {
              fits = (λ bad. cc, λ _. x);
              asked = λ a. ground (arith, a, i, x);
              owned = λ bad. cc;
            })
    ]
  ]
  | inr i ↦ elim (Bool-cases (has ec 2)) [
    | inl j ↦ elim (Bool-cases f.write) [
      | inr x ↦ refuses eacces (rw (i, j, x, lazy_entry) refl)
      | inl x ↦ elim (Bool-cases (page == 0)) [
        | inl n ↦ refuses enomem (rw (i, j, x, n, lazy_entry) refl)
        | inr n ↦
            entry
              (record { address = page; flags = record { user = true; write = true; nx = true } })
              (rw (i, j, x, n, lazy_entry) refl)
              (record {
                fits = (λ _. x, λ bad. cc);
                asked = λ a. ground (arith, a, i, j, x);
                owned = λ _. (refl, n);
              })
      ]
    ]
    | inr j ↦ elim (Bool-cases f.read) [
      | inr x ↦ refuses eacces (rw (i, j, x, lazy_entry) refl)
      | inl x ↦
          entry (record { address = z; flags = record { user = true; write = false; nx = true } })
            (rw (i, j, x, lazy_entry) refl)
            (record {
              fits = (λ bad. cc, λ bad. cc);
              asked = λ a. ground (arith, a, i, j, x);
              owned = λ bad. cc;
            })
    ]
  ]
]
  where
    clash : {r : Result Pte} {x : Errno} → r ≡ err x → r ≡ ok e → ⊥
    clash a b = cc

    refuses : (x : Errno) → lazy_entry z f ec page ≡ err x → First f ec page e
    refuses x a = absurd (clash a h)

    same : {p q : Pte} → ok p ≡ ok q → p ≡ q
    same x = cc

    entry : (p : Pte) → lazy_entry z f ec page ≡ ok p → First f ec page p → First f ec page e
    entry p a b = subst (λ q. First f ec page q) (same (sym a ∙ h)) b
