-- ===== src/Sync/Mutex.antt =====
-- kernel/lib/mutex.c: the sleeping mutex. The guard makes each block of code between its lock and
-- unlock one step. Tasks are numbers; the waiter queue, linked through the sleepers' stacks with a
-- pointer to its head and one to its tail, is the list of its tasks.
pub mod System
pub mod Invariant
pub mod Safety
use jnu.Base.{
  ℕ, Bool, true, false, Option, none, some, List, [], ◌∷◌, ◌++◌, ◌==◌, if◌then◌else◌, Run, done,
  panic, Result, ok, err, ebusy,
}

pub record Mutex : Type 0 where
  pub owner : Option ℕ
  pub waiters : List ℕ

unfoldable pub mutex_init : Mutex
mutex_init = record { owner = none; waiters = [] }

abbrev pub is_owner : Option ℕ → ℕ → Bool
is_owner none t = false
is_owner (some o) t = o == t

-- What `mutex_lock` does before it sleeps: `true` if the lock is taken, `false` if the task has put
-- itself on the queue. To lock again what one owns is a panic.
unfoldable pub mutex_lock : Mutex → ℕ → Run (Mutex × Bool)
mutex_lock m self = if is_owner m.owner self then panic else elim m.owner [
  | none ↦ done (record m { owner = some self }, true)
  | some o ↦ done (record m { waiters = m.waiters ++ self ∷ [] }, false)
]

-- What a waiter does each time that it wakes: it is through if it has been made the owner.
unfoldable pub recheck : Mutex → ℕ → Bool
recheck m self = is_owner m.owner self

-- The new state, and the task that is woken. The first waiter owns the lock before it wakes.
unfoldable pub mutex_unlock : Mutex → ℕ → Run (Mutex × Option ℕ)
mutex_unlock m self =
    if is_owner m.owner self
    then elim m.waiters [
      | [] ↦ done (record m { owner = none }, none)
      | next ∷ rest ↦ done (record { owner = some next; waiters = rest }, some next)
    ]
    else panic

unfoldable pub mutex_trylock : Mutex → ℕ → Mutex × Result (Unit {0})
mutex_trylock m self = elim m.owner [
  | none ↦ (record m { owner = some self }, ok tt)
  | some o ↦ (m, err ebusy)
]

unfoldable pub mutex_is_locked : Mutex → Bool
mutex_is_locked m = elim m.owner [ none ↦ false | some o ↦ true ]
