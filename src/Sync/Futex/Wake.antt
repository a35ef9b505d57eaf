-- ===== src/Sync/Futex/Wake.antt =====
-- kernel/kernel/futex.c: whom `futex_wake` wakes.
use jnu.Base.{
  ℕ, zero, suc, ◌%◌, ◌≡◌, ◌≢◌, refl, ap, inl, inr, true, false, Option, List, [], ◌∷◌, ◌++◌, map,
  if◌then◌else◌, ok, arith, mem, Bool-cases, length, take, drop, ==_refl,
}
use jnu.Base.Int.{ℤ}
use jnu.User.Copy.{user_range_ok}
use jnu.Sync.Futex.{
  Waiter, Futexes, Task, bucket_for, matches, wake_loop, set_woken, wake_limit, process_of,
  futex_wake,
}

-- The nodes of a queue that wait for a word, and the others.
abbrev pub matching : (ℕ → Waiter) → ℕ → ℕ → List ℕ → List ℕ
matching nodes proc uaddr [] = []
matching nodes proc uaddr (w ∷ ws) =
    if matches proc uaddr (nodes w)
    then w ∷ matching nodes proc uaddr ws
    else matching nodes proc uaddr ws

abbrev pub others : (ℕ → Waiter) → ℕ → ℕ → List ℕ → List ℕ
others nodes proc uaddr [] = []
others nodes proc uaddr (w ∷ ws) =
    if matches proc uaddr (nodes w)
    then others nodes proc uaddr ws
    else w ∷ others nodes proc uaddr ws

module _ (nodes : ℕ → Waiter) (proc uaddr : ℕ) where
  pub wake_loop-woken :
      (n : ℕ) (ws : List ℕ)
      → (wake_loop nodes proc uaddr n ws).0 ≡ take n (matching nodes proc uaddr ws)
  unfolding wake_loop
  wake_loop-woken zero ws = refl
  wake_loop-woken (suc n) [] = refl
  wake_loop-woken (suc n) (w ∷ ws) = elim (Bool-cases (matches proc uaddr (nodes w))) [
    | inl e ↦ rw e (ap (λ l. w ∷ l) (wake_loop-woken n ws))
    | inr e ↦ rw e (wake_loop-woken (suc n) ws)
  ]

  pub wake_loop-left :
      (n : ℕ) (ws : List ℕ)
      → matching nodes proc uaddr (wake_loop nodes proc uaddr n ws).1
        ≡ drop n (matching nodes proc uaddr ws)
  unfolding wake_loop
  wake_loop-left zero ws = refl
  wake_loop-left (suc n) [] = refl
  wake_loop-left (suc n) (w ∷ ws) = elim (Bool-cases (matches proc uaddr (nodes w))) [
    | inl e ↦ rw e (wake_loop-left n ws)
    | inr e ↦ rw (e, e) (wake_loop-left (suc n) ws)
  ]

  pub wake_loop-others :
      (n : ℕ) (ws : List ℕ)
      → others nodes proc uaddr (wake_loop nodes proc uaddr n ws).1 ≡ others nodes proc uaddr ws
  unfolding wake_loop
  wake_loop-others zero ws = refl
  wake_loop-others (suc n) [] = refl
  wake_loop-others (suc n) (w ∷ ws) = elim (Bool-cases (matches proc uaddr (nodes w))) [
    | inl e ↦ rw e (wake_loop-others n ws)
    | inr e ↦ rw (e, e) (ap (λ l. w ∷ l) (wake_loop-others (suc n) ws))
  ]

pub set_woken-in :
    (nodes : ℕ → Waiter) (ws : List ℕ) (w : ℕ)
    → mem w ws ≡ true
    → (set_woken nodes ws w).woken ≡ true
unfolding set_woken
set_woken-in nodes [] w h = absurd (ground arith)
set_woken-in nodes (a ∷ ws) w h = ground (arith, set_woken-in nodes ws w)

pub set_woken-out :
    (nodes : ℕ → Waiter) (ws : List ℕ) (w : ℕ) → mem w ws ≡ false → set_woken nodes ws w ≡ nodes w
unfolding set_woken
set_woken-out nodes [] w h = refl
set_woken-out nodes (a ∷ ws) w h = ground (arith, set_woken-out nodes ws w)

-- `g` is `f` after the waiters in `woken` have been woken on a word.
pub record Woke (f g : Futexes) (proc uaddr limit : ℕ) (woken : List ℕ) : Type 0 where
  pub first : woken ≡ take limit (matching f.nodes proc uaddr (f.buckets (bucket_for proc uaddr)))
  pub rest :
      matching f.nodes proc uaddr (g.buckets (bucket_for proc uaddr))
      ≡ drop limit (matching f.nodes proc uaddr (f.buckets (bucket_for proc uaddr)))
  pub strangers :
      others f.nodes proc uaddr (g.buckets (bucket_for proc uaddr))
      ≡ others f.nodes proc uaddr (f.buckets (bucket_for proc uaddr))
  pub elsewhere : (b : ℕ) → b ≢ bucket_for proc uaddr → g.buckets b ≡ f.buckets b
  pub flagged : (w : ℕ) → mem w woken ≡ true → (g.nodes w).woken ≡ true
  pub unflagged : (w : ℕ) → mem w woken ≡ false → g.nodes w ≡ f.nodes w
  -- their tasks are given to `sched_wake`, in that order
  pub scheduled : g.scheduled ≡ f.scheduled ++ map (λ w. (f.nodes w).task) woken

module _ (f : Futexes) (self : Option Task) (uaddr : ℕ) (count : ℤ) where
  -- On an aligned word of user memory, `futex_wake` wakes the first of the nodes that wait for
  -- that word in the caller's process, in the order of the queue and up to the limit, and
  -- returns their number; the others that wait for it stay queued in their order, and so do the
  -- nodes that wait for something else; the woken nodes are flagged, their tasks are given to
  -- `sched_wake` in that order, and no other node and no other bucket changes.
  pub futex_wake-Woke :
      uaddr % 4 ≡ 0
      → user_range_ok uaddr 4 ≡ true
      → (woken : List ℕ) × ((futex_wake f self uaddr count).1 ≡ ok (length woken))
        × Woke f (futex_wake f self uaddr count).0 (process_of self) uaddr (wake_limit count) woken
  unfolding futex_wake
  futex_wake-Woke h k =
      let p = process_of self in
      let b = bucket_for p uaddr in
      let n = wake_limit count in
      let loop = wake_loop f.nodes p uaddr n (f.buckets b) in
      rw (h, k)
        (
          loop.0,
          refl,
          record {
            first = wake_loop-woken f.nodes p uaddr n (f.buckets b);
            rest = rw (==_refl b) (wake_loop-left f.nodes p uaddr n (f.buckets b));
            strangers = rw (==_refl b) (wake_loop-others f.nodes p uaddr n (f.buckets b));
            elsewhere = λ c ne. ground arith;
            flagged = set_woken-in f.nodes loop.0;
            unflagged = set_woken-out f.nodes loop.0;
            scheduled = refl;
          },
        )
