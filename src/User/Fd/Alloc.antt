-- ===== src/User/Fd/Alloc.antt =====
-- kernel/user/fd.c: which descriptor an open file gets.
use jnu.Base.{
  ℕ, zero, suc, ◌+◌, ◌-◌, ◌≤◌, ◌<◌, ◌≡◌, refl, ◌≢◌, ◌⊎◌, inl, inr, Option, none, some, [], ◌∷◌,
  length, arith, ok, err, emfile, Option-cases, set, subst,
}
use native.Mathlib.Decide.{dec_le}
use jnu.User.Fd.{Slots, slot, max_fds, first_free, fd_alloc}

abbrev pub Used : Slots → ℕ → Type 0
Used t fd = (f : ℕ) × (slot t fd ≡ some f)

get_or-set_self : (t : Slots) (i : ℕ) (v : Option ℕ) → i < length t → slot (set t i v) i ≡ v
get_or-set_self [] i v h = absurd (omega arith)
get_or-set_self (x ∷ t) zero v h = refl
get_or-set_self (x ∷ t) (suc i) v h = get_or-set_self t i v (omega arith)

pub get_or-set_ne : (t : Slots) (i j : ℕ) (v : Option ℕ) → i ≢ j → slot (set t i v) j ≡ slot t j
get_or-set_ne [] i j v h = refl
get_or-set_ne (x ∷ t) zero zero v h = absurd (h refl)
get_or-set_ne (x ∷ t) zero (suc j) v h = refl
get_or-set_ne (x ∷ t) (suc i) zero v h = refl
get_or-set_ne (x ∷ t) (suc i) (suc j) v h = get_or-set_ne t i j v (λ e. h (omega arith))

-- The search finds the lowest empty slot of its range.
first_free-some :
    (t : Slots) (n fd : ℕ) {r : ℕ}
    → first_free t n fd ≡ some r
    → (fd ≤ r) × (r < fd + n) × (slot t r ≡ none) × ((k : ℕ) → fd ≤ k → k < r → Used t k)
unfolding first_free
first_free-some t zero fd e = cc
first_free-some t (suc n) fd {r} e = elim (Option-cases (slot t fd)) [
  | inl empty ↦
      let here : fd ≡ r = ground arith in
      (
        omega arith,
        omega arith,
        subst (λ k. slot t k ≡ none) here empty,
        λ k i j. absurd (omega arith),
      )
  | inr (f, used) ↦
      let later : first_free t n (suc fd) ≡ some r = ground arith in
      let (lo, hi, at, below) = first_free-some t n (suc fd) later in
      (
        omega arith,
        omega arith,
        at,
        λ k i j. elim (dec_le (suc fd) k) [
          | yes l ↦ below k l j
          | no l ↦ let same : fd ≡ k = omega arith in (f, subst (λ x. slot t x ≡ some f) same used)
        ],
      )
]

first_free-none :
    (t : Slots) (n fd : ℕ) → first_free t n fd ≡ none → (k : ℕ) → fd ≤ k → k < fd + n → Used t k
unfolding first_free
first_free-none t zero fd e k h j = absurd (omega arith)
first_free-none t (suc n) fd e k h j = elim (Option-cases (slot t fd)) [
  | inl empty ↦ ground arith
  | inr (f, used) ↦
      let later : first_free t n (suc fd) ≡ none = ground arith in
      elim (dec_le (suc fd) k) [
        | yes l ↦ first_free-none t n (suc fd) later k l (omega arith)
        | no l ↦ let same : fd ≡ k = omega arith in (f, subst (λ x. slot t x ≡ some f) same used)
      ]
]

-- On a full-sized table `fd_alloc` of a file writes it to the lowest empty descriptor from 3 up
-- and to no other, and returns that descriptor; or it fails with `EMFILE` and changes nothing,
-- and then every descriptor from 3 up is in use, whatever 0 to 2 are.
pub fd_alloc-lowest :
    (t : Slots) (f : ℕ)
    → length t ≡ max_fds
    → ((fd : ℕ) × (fd_alloc t (some f) ≡ (set t fd (some f), ok fd))
        × (3 ≤ fd)
        × (fd < max_fds)
        × (slot t fd ≡ none)
        × ((k : ℕ) → 3 ≤ k → k < fd → Used t k)
        × (slot (fd_alloc t (some f)).0 fd ≡ some f))
      ⊎ ((fd_alloc t (some f) ≡ (t, err emfile)) × ((k : ℕ) → 3 ≤ k → k < max_fds → Used t k))
unfolding fd_alloc
fd_alloc-lowest t f h = elim (Option-cases (first_free t (max_fds - 3) 3)) [
  | inl e ↦ inr (rw (e, fd_alloc), λ k i j. first_free-none t (max_fds - 3) 3 e k i j)
  | inr (fd, e) ↦
      let (lo, hi, at, below) = first_free-some t (max_fds - 3) 3 e in
      inl (
        fd,
        rw (e, fd_alloc),
        lo,
        omega arith,
        at,
        below,
        rw (e, fd_alloc) (get_or-set_self t fd (some f) (omega arith)),
      )
]
