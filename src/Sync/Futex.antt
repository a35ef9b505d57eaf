-- ===== src/Sync/Futex.antt =====
-- kernel/kernel/futex.c: wait queues on words of user memory. A waiter node, on the stack of the
-- sleeping task, is named by a number, its address. A bucket, linked through the nodes, is the list
-- of its nodes. The bucket's guard makes each block of code between lock and unlock one step.
pub mod Wake
pub mod Queue
pub mod Wait
use Prim.Native.Nat.{bit_xor}
use jnu.Base.{
  ℕ, zero, suc, ◌+◌, ◌*◌, ◌/◌, ◌%◌, ◌^◌, Bool, true, false, not, ◌&&◌, Option, none, some, List, [],
  ◌∷◌, ◌++◌, map, ◌==◌, leb, ltb, if◌then◌else◌, update, Result, ok, err, Errno, einval, efault,
  eagain, eintr, etimedout, erase, length, min,
}
use jnu.Base.Int.{ℤ, pos, negsuc}
use jnu.User.Copy.{PageTable, user_range_ok, copy_from_user}

pub record Waiter : Type 0 where
  pub task : ℕ
  pub proc : ℕ
  pub uaddr : ℕ
  pub woken : Bool

pub record Futexes : Type 0 where
  pub buckets : ℕ → List ℕ
  pub nodes : ℕ → Waiter
  -- the tasks given to `sched_wake` so far, in order
  pub scheduled : List ℕ

-- `sched_current()`: a task and its process, 0 for none
pub record Task : Type 0 where
  pub id : ℕ
  pub process : ℕ

abbrev pub futex_wake_all : ℕ
futex_wake_all = 0x7fff_ffff

abbrev pub futex_nr_buckets : ℕ
futex_nr_buckets = 64

-- The index of the bucket.
unfoldable pub bucket_for : ℕ → ℕ → ℕ
bucket_for proc uaddr =
    let h = bit_xor (bit_xor proc (uaddr / 2 ^ 2)) (uaddr / 2 ^ 14) in
    h * 0x9e37_79b9_7f4a_7c15 % 2 ^ 64 / 2 ^ 32 % futex_nr_buckets

unfoldable pub bucket_remove : Futexes → ℕ → ℕ → Futexes
bucket_remove f b w = record f { buckets = update f.buckets b (erase w (f.buckets b)) }

-- The word in memory order, least significant byte first.
abbrev pub u32_of : List ℕ → ℕ
u32_of [] = 0
u32_of (b ∷ bs) = b + 256 * u32_of bs

abbrev pub enqueue : Futexes → ℕ → ℕ → Waiter → Futexes
enqueue f b w waiter = record f {
  buckets = update f.buckets b (w ∷ f.buckets b);
  nodes = update f.nodes w waiter;
}

-- `futex_wait` up to its loop, with its node at `w`: `ok` means that it goes to sleep.
unfoldable pub futex_wait_start :
    PageTable → (ℕ → ℕ) → Futexes → Option Task → ℕ → ℕ → ℕ → Futexes × Result (Unit {0})
futex_wait_start flags memory f none w uaddr val = (f, err einval)
futex_wait_start flags memory f (some self) w uaddr val =
    let b = bucket_for self.process uaddr in
    let waiter : Waiter = record {
      task = self.id;
      proc = self.process;
      uaddr = uaddr;
      woken = false;
    } in
    let queued = enqueue f b w waiter in
    if not (uaddr % 4 == 0)
    then (f, err einval)
    else if not (user_range_ok uaddr 4)
    then (f, err efault)
    else elim (copy_from_user flags memory uaddr 4) [
      | err e ↦ (bucket_remove queued b w, err e)
      | ok bytes ↦
          if u32_of bytes == val then (queued, ok tt) else (bucket_remove queued b w, err eagain)
    ]

-- What ends a sleep: `-EINTR`, `-ETIMEDOUT`, or a wake-up.
pub data Sleep : Type 0 where
  interrupted expired awake : Sleep

-- One round of the loop of `futex_wait`: `none` goes round again. `elapsed` is the clock's answer,
-- and `slept` what the scheduler's sleep gives.
unfoldable pub futex_wait_round : Futexes → ℕ → ℕ → ℕ → Sleep → Option (Result (Unit {0}))
futex_wait_round f w timeout_us elapsed slept =
    if (f.nodes w).woken
    then some (ok tt)
    else if timeout_us == 0
    then elim slept [ interrupted ↦ some (err eintr) | expired ↦ none | awake ↦ none ]
    else if leb timeout_us elapsed
    then some (err etimedout)
    else elim slept [
      | interrupted ↦ some (err eintr)
      | expired ↦ some (err etimedout)
      | awake ↦ none
    ]

-- The cleanup of `futex_wait`, with `ret` as the loop left it.
unfoldable pub futex_wait_finish :
    Futexes → Task → ℕ → ℕ → Result (Unit {0}) → Futexes × Result (Unit {0})
futex_wait_finish f self w uaddr ret =
    if (f.nodes w).woken
    then (f, ok tt)
    else (bucket_remove f (bucket_for self.process uaddr) w, ret)

unfoldable pub matches : ℕ → ℕ → Waiter → Bool
matches proc uaddr w = w.proc == proc && w.uaddr == uaddr

-- The loop of `futex_wake` with `n` wakes left: the nodes unlinked, in order, and those left.
unfoldable pub wake_loop : (ℕ → Waiter) → ℕ → ℕ → ℕ → List ℕ → List ℕ × List ℕ
wake_loop nodes proc uaddr zero ws = ([], ws)
wake_loop nodes proc uaddr (suc n) [] = ([], [])
wake_loop nodes proc uaddr (suc n) (w ∷ ws) =
    let taken = wake_loop nodes proc uaddr n ws in
    let passed = wake_loop nodes proc uaddr (suc n) ws in
    if matches proc uaddr (nodes w) then (w ∷ taken.0, taken.1) else (passed.0, w ∷ passed.1)

unfoldable pub set_woken : (ℕ → Waiter) → List ℕ → ℕ → Waiter
set_woken nodes [] = nodes
set_woken nodes (w ∷ ws) = update (set_woken nodes ws) w (record (nodes w) { woken = true })

unfoldable pub wake_limit : ℤ → ℕ
wake_limit (pos n) = n
wake_limit (negsuc n) = futex_wake_all

abbrev pub process_of : Option Task → ℕ
process_of none = 0
process_of (some t) = t.process

-- The new state, and the number of waiters woken.
unfoldable pub futex_wake : Futexes → Option Task → ℕ → ℤ → Futexes × Result ℕ
futex_wake f self uaddr count =
    let proc = process_of self in
    let b = bucket_for proc uaddr in
    let (woken, left) = wake_loop f.nodes proc uaddr (wake_limit count) (f.buckets b) in
    if not (uaddr % 4 == 0)
    then (f, err einval)
    else if not (user_range_ok uaddr 4)
    then (f, err efault)
    else (
      record {
        buckets = update f.buckets b left;
        nodes = set_woken f.nodes woken;
        scheduled = f.scheduled ++ map (λ w. (f.nodes w).task) woken;
      },
      ok (length woken),
    )

unfoldable pub clamp : ℤ → ℕ
clamp (pos n) = n
clamp (negsuc n) = 0

unfoldable pub futex_requeue : Futexes → Option Task → ℕ → ℤ → ℤ → Futexes × Result ℕ
futex_requeue f self uaddr nr_wake nr_requeue =
    futex_wake f self uaddr (pos (min futex_wake_all (clamp nr_wake + clamp nr_requeue)))
