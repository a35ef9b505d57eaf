-- ===== src/Sync/Futex/Wait.antt =====
-- kernel/kernel/futex.c: `futex_wait`, and its race with `futex_wake`.
use jnu.Base.{
  ℕ, zero, suc, ◌<◌, ◌≡◌, ◌≢◌, refl, sym, ◌∙◌, subst, true, false, Option, none, some, Result, ok,
  err, Errno, arith, ==_refl, mem, map, ◌%◌,
}
use jnu.Base.Int.{ℤ}
use jnu.User.Copy.{PageTable}
use jnu.Sync.Futex.Wake.{futex_wake-Woke, wake_loop-woken}
use jnu.User.Copy.{user_range_ok}
use jnu.Sync.Futex.{
  Waiter, Futexes, Task, bucket_for, bucket_remove, enqueue, matches, wake_limit, futex_wake,
  futex_wait_start, futex_wait_finish,
}
use jnu.Sync.Futex.Queue.{
  Near, Near-suc, mem-behind, mem-map, take-erase, take_more, wake_loop-Near,
}

undo :
    (f : Futexes) (b w : ℕ) (waiter : Waiter) (q : ℕ)
    → (bucket_remove (enqueue f b w waiter) b w).buckets q ≡ f.buckets q
unfolding bucket_remove
undo f b w waiter q = ground (arith, ==_refl w, ==_refl b)

module _ (flags : PageTable) (memory : ℕ → ℕ) (f : Futexes) (w uaddr val : ℕ) where
  -- When `futex_wait` returns an error before it sleeps, every bucket is as it was.
  pub futex_wait_start-undone :
      (self : Option Task) (e : Errno)
      → (futex_wait_start flags memory f self w uaddr val).1 ≡ err e
      → (q : ℕ) → (futex_wait_start flags memory f self w uaddr val).0.buckets q ≡ f.buckets q
  unfolding futex_wait_start
  futex_wait_start-undone none e h q = refl
  futex_wait_start-undone (some s) e h q = ground (
    arith,
    h,
    undo f (bucket_for s.process uaddr) w
        (record { task = s.id; proc = s.process; uaddr = uaddr; woken = false }) q,
  )

-- What other tasks may do at the futexes while the sleeper's node `w` is queued: go to sleep,
-- which `k` counts, be refused, or end their own sleep. Their nodes stand elsewhere.
pub data Meanwhile (w : ℕ) (f : Futexes) : ℕ → Futexes → Type 0 where
  nothing : Meanwhile w f zero f
  sleeps :
      {k : ℕ} {g : Futexes}
      → Meanwhile w f k g
      → (flags : PageTable) (memory : ℕ → ℕ) (self : Option Task) (v uaddr val : ℕ) → w ≢ v
      → (futex_wait_start flags memory g self v uaddr val).1 ≡ ok tt
      → Meanwhile w f (suc k) (futex_wait_start flags memory g self v uaddr val).0
  refused :
      {k : ℕ} {g : Futexes}
      → Meanwhile w f k g
      → (flags : PageTable) (memory : ℕ → ℕ) (self : Option Task) (v uaddr val : ℕ) (e : Errno)
      → w ≢ v
      → (futex_wait_start flags memory g self v uaddr val).1 ≡ err e
      → Meanwhile w f k (futex_wait_start flags memory g self v uaddr val).0
  leaves :
      {k : ℕ} {g : Futexes}
      → Meanwhile w f k g
      → (self : Task) (v uaddr : ℕ) (ret : Result (Unit {0})) → w ≢ v
      → Meanwhile w f k (futex_wait_finish g self v uaddr ret).0

-- The sleeper is still queued, near enough, and its node is as it was.
record Queued (g : Futexes) (b w k : ℕ) (waiter : Waiter) : Type 0 where
  near : Near k w (g.buckets b)
  node : g.nodes w ≡ waiter

start-sleeps :
    (flags : PageTable) (memory : ℕ → ℕ) (g : Futexes) (self : Option Task) (v uaddr val b w k : ℕ)
    (waiter : Waiter)
    → w ≢ v
    → (futex_wait_start flags memory g self v uaddr val).1 ≡ ok tt
    → Queued g b w k waiter
    → Queued (futex_wait_start flags memory g self v uaddr val).0 b w (suc k) waiter
unfolding futex_wait_start
start-sleeps flags memory g none v uaddr val b w k waiter ne run q = absurd (ground (arith, run))
start-sleeps flags memory g (some s) v uaddr val b w k waiter ne run q = record {
  near = ground (arith, run, q.near, Near-suc (suc k) w (g.buckets b));
  node = ground (arith, run, ne, q.node);
}

start-refused :
    (flags : PageTable) (memory : ℕ → ℕ) (g : Futexes) (self : Option Task) (v uaddr val b w k : ℕ)
    (waiter : Waiter) (e : Errno)
    → w ≢ v
    → (futex_wait_start flags memory g self v uaddr val).1 ≡ err e
    → Queued g b w k waiter
    → Queued (futex_wait_start flags memory g self v uaddr val).0 b w k waiter
unfolding futex_wait_start bucket_remove
start-refused flags memory g none v uaddr val b w k waiter e ne run q = q
start-refused flags memory g (some s) v uaddr val b w k waiter e ne run q = record {
  near =
      subst (λ ws. Near k w ws)
        (sym (futex_wait_start-undone flags memory g v uaddr val (some s) e run b)) q.near;
  node = ground (arith, run, ne, q.node);
}

finish-leaves :
    (g : Futexes) (self : Task) (v uaddr b w k : ℕ) (ret : Result (Unit {0})) (waiter : Waiter)
    → w ≢ v
    → Queued g b w k waiter
    → Queued (futex_wait_finish g self v uaddr ret).0 b w k waiter
unfolding futex_wait_finish bucket_remove
finish-leaves g self v uaddr b w k ret waiter ne q = record {
  near = ground (arith, q.near, take-erase (suc k) w v (g.buckets b) ne q.near);
  node = ground (arith, q.node);
}

Meanwhile-Queued :
    (b w : ℕ) (waiter : Waiter) {f : Futexes}
    → Queued f b w 0 waiter
    → {k : ℕ} {g : Futexes} → Meanwhile w f k g
    → Queued g b w k waiter
Meanwhile-Queued b w waiter q nothing = q
Meanwhile-Queued b w waiter q (sleeps {k} {g} m flags memory self v uaddr val ne run) =
    start-sleeps flags memory g self v uaddr val b w k waiter ne run
      (Meanwhile-Queued b w waiter q m)
Meanwhile-Queued b w waiter q (refused {k} {g} m flags memory self v uaddr val e ne run) =
    start-refused flags memory g self v uaddr val b w k waiter e ne run
      (Meanwhile-Queued b w waiter q m)
Meanwhile-Queued b w waiter q (leaves {k} {g} m self v uaddr ret ne) =
    finish-leaves g self v uaddr b w k ret waiter ne (Meanwhile-Queued b w waiter q m)

-- What `futex_wait` leaves when it goes to sleep.
started :
    (flags : PageTable) (memory : ℕ → ℕ) (f : Futexes) (w uaddr val : ℕ) (s : Task)
    → (futex_wait_start flags memory f (some s) w uaddr val).1 ≡ ok tt
    → (uaddr % 4 ≡ 0)
      × (user_range_ok uaddr 4 ≡ true)
      × Queued
          (futex_wait_start flags memory f (some s) w uaddr val).0
          (bucket_for s.process uaddr)
          w
          0
          (record { task = s.id; proc = s.process; uaddr = uaddr; woken = false })
unfolding futex_wait_start
started flags memory f w uaddr val s run = (
  ground (arith, run),
  ground (arith, run),
  record {
    near = ground (arith, run, ==_refl w, ==_refl (bucket_for s.process uaddr));
    node = ground (arith, run, ==_refl w);
  },
)

-- If a task has gone to sleep in `futex_wait`, and since then other tasks, with nodes
-- elsewhere, have gone to sleep, `k` of them, or been refused or ended their sleep, in any
-- order, then a `futex_wake` on that word by the process of the sleeper and with a limit above
-- `k` gives the sleeper to `sched_wake`, and its `futex_wait` then returns 0, whatever ended
-- its sleep.
pub futex_wait-futex_wake :
    (flags : PageTable) (memory : ℕ → ℕ) (f : Futexes) (w uaddr val : ℕ)
    → {g : Futexes} {k : ℕ} (s : Task) (count : ℤ) (ret : Result (Unit {0}))
    → (futex_wait_start flags memory f (some s) w uaddr val).1 ≡ ok tt
    → Meanwhile w (futex_wait_start flags memory f (some s) w uaddr val).0 k g
    → k < wake_limit count
    → (let h = (futex_wake g (some s) uaddr count).0 in
        (mem s.id h.scheduled ≡ true) × ((futex_wait_finish h s w uaddr ret).1 ≡ ok tt))
unfolding futex_wait_finish matches
futex_wait-futex_wake flags memory f w uaddr val {g} {k} s count ret run m enough =
    let waiter : Waiter = record { task = s.id; proc = s.process; uaddr = uaddr; woken = false } in
    let b = bucket_for s.process uaddr in
    let (aligned, range, q0) = started flags memory f w uaddr val s run in
    let q = Meanwhile-Queued b w waiter q0 m in
    let n = wake_limit count in
    let (woken, _, woke) = futex_wake-Woke g (some s) uaddr count aligned range in
    let mine : matches s.process uaddr (g.nodes w) ≡ true =
      rw q.node (ground (arith, ==_refl s.process, ==_refl uaddr)) in
    let found =
      wake_loop-Near g.nodes s.process uaddr w n (g.buckets b) mine
        (take_more (suc k) n w (g.buckets b) enough q.near) in
    let in_woken : mem w woken ≡ true =
      subst (λ ws. mem w ws ≡ true)
        (wake_loop-woken g.nodes s.process uaddr n (g.buckets b) ∙ sym woke.first) found in
    let tasks = mem-map (λ v. (g.nodes v).task) w woken in_woken in
    (
      subst (λ ts. mem s.id ts ≡ true) (sym woke.scheduled)
          (mem-behind s.id g.scheduled (map (λ v. (g.nodes v).task) woken) (
            subst (λ (x : Waiter). mem x.task (map (λ v. (g.nodes v).task) woken) ≡ true) q.node
              tasks)),
      rw (woke.flagged w in_woken) refl,
    )
