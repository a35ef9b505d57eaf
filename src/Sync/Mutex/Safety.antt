-- ===== src/Sync/Mutex/Safety.antt =====
-- kernel/lib/mutex.c: who may be in a critical section, and who waits.
use jnu.Base.{ℕ, ◌≡◌, ◌≢◌, true, some, List, ◌∷◌, done, panic, arith}
use jnu.Sync.Mutex.{mutex_lock, recheck, mutex_unlock}
use jnu.Sync.Mutex.System.{outside, waiting, inside, System, Reach}
use jnu.Sync.Mutex.Invariant.{Reach-Inv}

-- In every state that tasks reach from an unused lock, in any interleaving of the steps, two
-- tasks that are both in their critical sections are the same task.
pub mutual_exclusion :
    {s : System} (a b : ℕ) → Reach s → s.place a ≡ inside → s.place b ≡ inside → a ≡ b
mutual_exclusion a b r h k = let v = Reach-Inv r in ground (arith, v.owns a h, v.owns b k)

-- In every state that tasks reach from an unused lock, when a task in its critical section
-- unlocks and the queue begins with `x`, the unlock makes `x` the owner, wakes it and keeps the
-- rest of the queue; and `x` sleeps, and gets through when it wakes.
pub unlock_serves_first :
    {s : System} (t x : ℕ) (xs : List ℕ)
    → Reach s
    → s.place t ≡ inside
    → s.mutex.waiters ≡ x ∷ xs
    → (mutex_unlock s.mutex t ≡ done (record { owner = some x; waiters = xs }, some x))
      × (s.place x ≡ waiting)
      × (recheck (record { owner = some x; waiters = xs }) x ≡ true)
unfolding mutex_unlock recheck
unlock_serves_first {s} t x xs r p e =
    let v = Reach-Inv r in (ground (arith, v.owns t p), v.queued x (ground arith), ground arith)

-- In every state that tasks reach from an unused lock, `mutex_lock` by a task outside and
-- `mutex_unlock` by a task in its critical section do not panic.
pub no_panic :
    {s : System} (t : ℕ)
    → Reach s
    → ((s.place t ≡ outside) → mutex_lock s.mutex t ≢ panic)
      × ((s.place t ≡ inside) → mutex_unlock s.mutex t ≢ panic)
unfolding mutex_lock mutex_unlock
no_panic {s} t r =
    let v = Reach-Inv r in
    (λ p h. ground (arith, h, p, v.owner_in t), λ p h. ground (arith, h, v.owns t p))
