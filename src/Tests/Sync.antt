-- ===== src/Tests/Sync.antt =====
-- kernel/lib/mutex.c and kernel/kernel/futex.c: two tasks at one lock and at one word.
use jnu.Base.{
  ℕ, ◌+◌, ◌*◌, ◌%◌, ◌≡◌, refl, true, false, some, List, [], ◌∷◌, done, ok, err, eagain, mem, ◌<◌,
  arith, length,
}
use jnu.Base.Int.{pos}
use jnu.User.Copy.{
  PageTable, user_range_ok, user_range_mapped, check_pages, page_ok, page_of, copy_from_user,
  bytes_at,
}
use jnu.Sync.Mutex.{mutex_init, mutex_lock, recheck, mutex_unlock}
use jnu.Sync.Mutex.System.{waiting, inside, System, start, move, Reach, here, next, lock}
use jnu.Sync.Mutex.Safety.{mutual_exclusion, unlock_serves_first}
use jnu.Sync.Futex.{Futexes, Task, wake_limit, futex_wake, futex_wait_start, futex_wait_finish}
use jnu.Sync.Futex.Wake.{Woke, futex_wake-Woke}
use jnu.Sync.Futex.Wait.{Meanwhile, nothing, sleeps, futex_wait_start-undone, futex_wait-futex_wake}

-- Task 1 takes the lock, and task 2 queues.
abbrev taken : System
taken = move start (record { owner = some 1; waiters = [] }) 1 inside

abbrev queued : System
queued = move taken (record { owner = some 1; waiters = 2 ∷ [] }) 2 waiting

taken-Reach : Reach taken
unfolding mutex_lock start mutex_init
taken-Reach = next here (lock 1 _ true refl refl refl)

queued-Reach : Reach queued
unfolding mutex_lock start
queued-Reach = next taken-Reach (lock 2 _ false refl refl refl)

abbrev one_task : ℕ
one_task = 1

mutual_exclusion_example : one_task ≡ 1
mutual_exclusion_example = mutual_exclusion one_task 1 queued-Reach refl refl

unlock_serves_first_example :
    (mutex_unlock queued.mutex 1 ≡ done (record { owner = some 2; waiters = [] }, some 2))
    × (queued.place 2 ≡ waiting)
    × (recheck (record { owner = some 2; waiters = [] }) 2 ≡ true)
unlock_serves_first_example = unlock_serves_first 1 2 [] queued-Reach refl refl

abbrev quiet : Futexes
quiet = record {
  buckets = λ b. [];
  nodes = λ w. record { task = 0; proc = 0; uaddr = 0; woken = false };
  scheduled = [];
}

abbrev all_pages : PageTable
all_pages page = some (record { user = true; write = true })

abbrev zeros : ℕ → ℕ
zeros a = 0

abbrev caller : Task
caller = record { id = 5; process = 0x9000 }

word4_ok : user_range_ok 0x40_0004 4 ≡ true
unfolding user_range_ok
word4_ok = refl

-- The word is 0, so one who expects 1 does not sleep, and one who expects 0 does.
refused : (futex_wait_start all_pages zeros quiet (some caller) 77 0x40_0000 1).1 ≡ err eagain
unfolding futex_wait_start copy_from_user user_range_mapped check_pages page_ok bytes_at
    user_range_ok page_of
refused = refl

asleep : (futex_wait_start all_pages zeros quiet (some caller) 77 0x40_0000 0).1 ≡ ok tt
unfolding futex_wait_start copy_from_user user_range_mapped check_pages page_ok bytes_at
    user_range_ok page_of
asleep = refl

futex_wait_start-undone_example :
    (futex_wait_start all_pages zeros quiet (some caller) 77 0x40_0000 1).0.buckets 3 ≡ []
futex_wait_start-undone_example =
    futex_wait_start-undone all_pages zeros quiet 77 0x40_0000 1 (some caller) eagain refused 3

abbrev first_asleep : Futexes
first_asleep = (futex_wait_start all_pages zeros quiet (some caller) 77 0x40_0000 0).0

-- Another task goes to sleep on the same word, in front of the first.
abbrev second : Task
second = record { id = 6; process = 0x9000 }

also_asleep : (futex_wait_start all_pages zeros first_asleep (some second) 78 0x40_0000 0).1 ≡ ok tt
unfolding futex_wait_start copy_from_user user_range_mapped check_pages page_ok bytes_at
    user_range_ok page_of
also_asleep = refl

abbrev both_asleep : Futexes
both_asleep = (futex_wait_start all_pages zeros first_asleep (some second) 78 0x40_0000 0).0

in_front : Meanwhile 77 first_asleep 1 both_asleep
in_front =
    sleeps nothing all_pages zeros (some second) 78 0x40_0000 0 (λ e. omega (arith, e)) also_asleep

two_woken : 1 < wake_limit (pos 2)
unfolding wake_limit
two_woken = omega arith

futex_wait-futex_wake_example :
    (let h = (futex_wake both_asleep (some caller) 0x40_0000 (pos 2)).0 in
      (mem 5 h.scheduled ≡ true)
      × ((futex_wait_finish h caller 77 0x40_0000 (err eagain)).1 ≡ ok tt))
futex_wait-futex_wake_example =
    futex_wait-futex_wake all_pages zeros quiet 77 0x40_0000 0 caller (pos 2) (err eagain) asleep
      in_front two_woken

-- Three waiters in one bucket, two of them on the word.
abbrev busy : Futexes
busy = record {
  buckets = λ b. 1 ∷ 2 ∷ 3 ∷ [];
  nodes = λ w. record { task = w; proc = 0x9000; uaddr = 0x40_0000 + 4 * (w % 2); woken = false };
  scheduled = [];
}

futex_wake-Woke_example :
    (woken : List ℕ) × ((futex_wake busy (some caller) 0x40_0004 (pos 1)).1 ≡ ok (length woken))
    × Woke busy
        (futex_wake busy (some caller) 0x40_0004 (pos 1)).0
        0x9000
        0x40_0004
        (wake_limit (pos 1))
        woken
futex_wake-Woke_example = futex_wake-Woke busy (some caller) 0x40_0004 (pos 1) refl word4_ok
