-- ===== src/Base/Errors.antt =====
-- Error numbers (include/uapi/jnu/errno.h), functions that return `-errno`, and functions that may
-- call `panic`, which does not return.
use Prim.Native.Nat.{ℕ}
use mathlib.Core.Path.{◌≡◌, refl, sym, ap, ◌∙◌}
use mathlib.Core.Logic.{◌⊎◌, inl, inr}
use jnu.Base.Tests.{◌==◌, if◌then◌else◌}

pub data Errno : Type 0 where
  eperm enoent eio enxio e2big enoexec eagain enomem eacces efault ebusy eexist enodev enotdir
        eisdir echild einval enospc emfile erange enametoolong enosys exdev emlink espipe enotty
        enotsup etimedout erofs eintr :
      Errno

-- What a function that returns a value or `-errno` gives.
pub data Result {ℓ} (A : Type ℓ) : Type ℓ where
  ok : A → Result A
  err : Errno → Result A

infixl 5 ◌>>=◌
abbrev pub ◌>>=◌ {ℓ κ} : {A : Type ℓ} {B : Type κ} → Result A → (A → Result B) → Result B
ok a >>= f = f a
err e >>= f = err e

-- A run ends with a value, or in `panic`.
pub data Run {ℓ} (A : Type ℓ) : Type ℓ where
  done : A → Run A
  panic : Run A

abbrev pub then_run {ℓ κ} : {A : Type ℓ} {B : Type κ} → Run A → (A → Run B) → Run B
then_run (done a) f = f a
then_run panic f = panic

-- A state and what the last call returned; the next step runs if there was no error.
abbrev pub then_ok {ℓ κ μ} :
    {S : Type ℓ} {A : Type κ} {B : Type μ} → S × Result A → (S → A → S × Result B) → S × Result B
then_ok (s, err e) f = (s, err e)
then_ok (s, ok a) f = f s a

abbrev pub update {ℓ} : {A : Type ℓ} → (ℕ → A) → ℕ → A → ℕ → A
update f p v q = if p == q then v else f q

pub Result-cases {ℓ} :
    {A : Type ℓ} (r : Result A) → ((e : Errno) × (r ≡ err e)) ⊎ ((a : A) × (r ≡ ok a))
Result-cases (ok a) = inr (a, refl)
Result-cases (err e) = inl (e, refl)

differ {ℓ} : {A : Type ℓ} {a : A} {x : Errno} → err x ≡ ok a → ⊥
differ c = cc

-- An error is no result.
pub refute {ℓ} : {A : Type ℓ} {a : A} {r : Result A} (x : Errno) → r ≡ ok a → r ≡ err x → ⊥
refute x e f = differ (sym f ∙ e)

abbrev value_or {ℓ} : {A : Type ℓ} → A → Result A → A
value_or d (ok a) = a
value_or d (err e) = d

pub returned {ℓ} : {A : Type ℓ} {a b : A} {r : Result A} → r ≡ ok b → r ≡ ok a → a ≡ b
returned {a = a} e f = ap (λ r. value_or a r) (sym f ∙ e)
