-- ===== src/Sync/Mutex/System.antt =====
-- Any number of tasks that use one mutex, in every interleaving of the steps of kernel/lib/mutex.c.
use jnu.Base.{
  ℕ, ◌≡◌, Bool, true, false, Option, none, some, if◌then◌else◌, update, done, Result, ok, err,
}
use jnu.Sync.Mutex.{Mutex, mutex_init, mutex_lock, recheck, mutex_unlock, mutex_trylock}

-- Where a task is: it has not called, it sleeps in `mutex_lock`, or it is in its critical section.
pub data Place : Type 0 where
  outside waiting inside : Place

-- `credit` says of a waiting task that `sched_wake` has been called for it since it last began to
-- wait: it runs again, or its next `sched_sleep_current` returns at once.
pub record System : Type 0 where
  pub mutex : Mutex
  pub place : ℕ → Place
  pub credit : ℕ → Bool

unfoldable pub start : System
unfolding mutex_init
start = record { mutex = mutex_init; place = λ t. outside; credit = λ t. false }

abbrev pub got : Bool → Place
got true = inside
got false = waiting

abbrev pub tried : Result (Unit {0}) → Place
tried (ok _) = inside
tried (err _) = outside

-- Task `t` goes to place `p`, with no credit.
abbrev pub move : System → Mutex → ℕ → Place → System
move s m t p = record { mutex = m; place = update s.place t p; credit = update s.credit t false }

-- `sched_wake`
abbrev pub wake_up : System → Option ℕ → System
wake_up s none = s
wake_up s (some t) = record s { credit = update s.credit t true }

-- A task locks only from outside and unlocks only from inside; a waiter may wake at any time, also
-- for no reason, and then sleeps again unless it owns the lock, its credit used up.
pub data Step (s u : System) : Type 0 where
  lock :
      (t : ℕ) (m : Mutex) (b : Bool)
      → s.place t ≡ outside
      → mutex_lock s.mutex t ≡ done (m, b)
      → u ≡ move s m t (got b)
      → Step s u
  wake :
      (t : ℕ)
      → s.place t ≡ waiting
      → u ≡ move s s.mutex t (if recheck s.mutex t then inside else waiting)
      → Step s u
  unlock :
      (t : ℕ) (m : Mutex) (woken : Option ℕ)
      → s.place t ≡ inside
      → mutex_unlock s.mutex t ≡ done (m, woken)
      → u ≡ wake_up (move s m t outside) woken
      → Step s u
  trylock :
      (t : ℕ)
      → s.place t ≡ outside
      → u ≡ move s (mutex_trylock s.mutex t).0 t (tried (mutex_trylock s.mutex t).1)
      → Step s u

pub data Reach : System → Type 0 where
  here : Reach start
  next : {s u : System} → Reach s → Step s u → Reach u
