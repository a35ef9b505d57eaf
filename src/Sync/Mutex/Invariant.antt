-- ===== src/Sync/Mutex/Invariant.antt =====
-- kernel/lib/mutex.c: what holds of a lock and its tasks in every state that they reach.
use jnu.Base.{
  ℕ, ◌≡◌, ◌≢◌, refl, subst, ◌⊎◌, inl, inr, true, false, Option, none, some, List, [], ◌∷◌, ◌++◌,
  ◌==◌, ◌||◌, arith, mem, Distinct, Bool-cases, Option-cases, eq_false_of,
}
use jnu.Sync.Mutex.{mutex_lock, recheck, mutex_unlock, mutex_trylock, is_owner}
use jnu.Sync.Mutex.System.{
  outside, waiting, inside, System, start, move, wake_up, Step, lock, wake, unlock, trylock, Reach,
  here, next,
}

mem-snoc : (a b : ℕ) (xs : List ℕ) → mem a (xs ++ b ∷ []) ≡ (mem a xs || a == b)
mem-snoc a b [] = ground arith
mem-snoc a b (x ∷ xs) = ground (arith, mem-snoc a b xs)

Distinct-snoc : (b : ℕ) (xs : List ℕ) → Distinct xs → mem b xs ≡ false → Distinct (xs ++ b ∷ [])
Distinct-snoc b [] d m = (refl, tt)
Distinct-snoc b (x ∷ xs) d m =
    (ground (arith, mem-snoc x b xs), Distinct-snoc b xs d.1 (ground arith))

-- Who is inside owns the lock; who owns it is inside or about to wake; the queue holds the other
-- sleepers, each once; nobody queues for a lock that is free; and an owner that still waits has been
-- woken.
pub record Inv (s : System) : Type 0 where
  pub owns : (t : ℕ) → s.place t ≡ inside → s.mutex.owner ≡ some t
  pub owner_in : (t : ℕ) → s.mutex.owner ≡ some t → s.place t ≢ outside
  pub queued : (t : ℕ) → mem t s.mutex.waiters ≡ true → s.place t ≡ waiting
  pub kept :
      (t : ℕ) → s.place t ≡ waiting → (s.mutex.owner ≡ some t) ⊎ (mem t s.mutex.waiters ≡ true)
  pub apart : (t : ℕ) → s.mutex.owner ≡ some t → mem t s.mutex.waiters ≡ false
  pub once : Distinct s.mutex.waiters
  pub busy : s.mutex.owner ≡ none → s.mutex.waiters ≡ []
  pub called : (t : ℕ) → s.mutex.owner ≡ some t → s.place t ≡ waiting → s.credit t ≡ true

start-Inv : Inv start
unfolding start
start-Inv = record {
  owns = λ t h. cc;
  owner_in = λ t h. cc;
  queued = λ t h. cc;
  kept = λ t h. cc;
  apart = λ t h. cc;
  once = tt;
  busy = λ h. refl;
  called = λ t h k. cc;
}

take-Inv :
    (s : System) (t : ℕ)
    → Inv s
    → s.place t ≡ outside
    → s.mutex.owner ≡ none
    → Inv (move s (record s.mutex { owner = some t }) t inside)
take-Inv s t v p e = record {
  owns = λ a h. ground (arith, v.owns a);
  owner_in = λ a h k. ground (arith, h, k);
  queued = λ a h. ground (arith, v.busy e);
  kept = λ a h. ground (arith, h, v.kept a, v.busy e);
  apart = λ a h. ground (arith, v.busy e);
  once = v.once;
  busy = λ h. cc;
  called = λ a h k. ground (arith, h, k);
}

queue-Inv :
    (s : System) (t o : ℕ)
    → Inv s
    → s.place t ≡ outside
    → s.mutex.owner ≡ some o
    → Inv (move s (record s.mutex { waiters = s.mutex.waiters ++ t ∷ [] }) t waiting)
queue-Inv s t o v p e = record {
  owns = λ a h. ground (arith, h, v.owns a);
  owner_in = λ a h k. ground (arith, h, k, v.owner_in a);
  queued = λ a h. ground (arith, h, mem-snoc a t s.mutex.waiters, v.queued a);
  kept = λ a h. ground (arith, h, mem-snoc a t s.mutex.waiters, v.kept a);
  apart = λ a h. ground (arith, h, p, mem-snoc a t s.mutex.waiters, v.apart a, v.owner_in a);
  once =
      Distinct-snoc t s.mutex.waiters v.once (eq_false_of _ λ h. ground (arith, p, v.queued t h));
  busy = λ h. cc;
  called = λ a h k. ground (arith, h, k, p, v.called a, v.owner_in a);
}

enter-Inv :
    (s : System) (t : ℕ)
    → Inv s
    → s.place t ≡ waiting
    → s.mutex.owner ≡ some t
    → Inv (move s s.mutex t inside)
enter-Inv s t v p e = record {
  owns = λ a h. ground (arith, h, v.owns a);
  owner_in = λ a h k. ground (arith, h, k, v.owner_in a);
  queued = λ a h. ground (arith, h, v.queued a, v.apart t e);
  kept = λ a h. ground (arith, h, v.kept a);
  apart = λ a h. v.apart a h;
  once = v.once;
  busy = λ h. v.busy h;
  called = λ a h k. ground (arith, h, k, v.called a);
}

stay-Inv :
    (s : System) (t : ℕ)
    → Inv s
    → s.place t ≡ waiting
    → is_owner s.mutex.owner t ≡ false
    → Inv (move s s.mutex t waiting)
stay-Inv s t v p other = record {
  owns = λ a h. ground (arith, h, v.owns a);
  owner_in = λ a h k. ground (arith, h, k, v.owner_in a);
  queued = λ a h. ground (arith, h, v.queued a);
  kept = λ a h. ground (arith, h, v.kept a);
  apart = λ a h. v.apart a h;
  once = v.once;
  busy = λ h. v.busy h;
  called = λ a h k. ground (arith, h, k, v.called a, other);
}

release-Inv :
    (s : System) (t : ℕ)
    → Inv s
    → s.place t ≡ inside
    → s.mutex.waiters ≡ []
    → Inv (move s (record s.mutex { owner = none }) t outside)
release-Inv s t v p e = record {
  owns = λ a h. ground (arith, h, v.owns a, v.owns t p);
  owner_in = λ a h. cc;
  queued = λ a h. ground (arith, h, e);
  kept = λ a h. ground (arith, h, e, v.kept a, v.owns t p);
  apart = λ a h. cc;
  once = v.once;
  busy = λ h. e;
  called = λ a h k. cc;
}

hand_over-Inv :
    (s : System) (t x : ℕ) (xs : List ℕ)
    → Inv s
    → s.place t ≡ inside
    → s.mutex.waiters ≡ x ∷ xs
    → Inv (wake_up (move s (record { owner = some x; waiters = xs }) t outside) (some x))
hand_over-Inv s t x xs v p e = record {
  owns = λ a h. ground (arith, h, v.owns a, v.owns t p);
  owner_in = λ a h k. ground (arith, h, k, p, e, v.queued x, v.queued a);
  queued = λ a h. ground (arith, h, e, v.queued a, p);
  kept = λ a h. ground (arith, h, e, v.kept a, v.owns t p);
  apart = λ a h. ground (arith, h, e, v.once);
  once = (subst Distinct e v.once).1;
  busy = λ h. cc;
  called = λ a h k. ground (arith, h, k);
}

fail-Inv : (s : System) (t : ℕ) → Inv s → s.place t ≡ outside → Inv (move s s.mutex t outside)
fail-Inv s t v p = record {
  owns = λ a h. ground (arith, h, v.owns a);
  owner_in = λ a h k. ground (arith, h, k, p, v.owner_in a);
  queued = λ a h. ground (arith, h, p, v.queued a);
  kept = λ a h. ground (arith, h, v.kept a);
  apart = λ a h. v.apart a h;
  once = v.once;
  busy = λ h. v.busy h;
  called = λ a h k. ground (arith, h, k, v.called a);
}

is_owner-eq : (o : Option ℕ) (t : ℕ) → is_owner o t ≡ true → o ≡ some t
is_owner-eq none t h = cc
is_owner-eq (some o) t h = ground arith

List-cases : (xs : List ℕ) → (xs ≡ []) ⊎ ((x : ℕ) × (r : List ℕ) × (xs ≡ x ∷ r))
List-cases [] = inl refl
List-cases (x ∷ xs) = inr (x, xs, refl)

-- Every step keeps the invariant.
pub Step-Inv : {s u : System} → Inv s → Step s u → Inv u
unfolding mutex_lock recheck mutex_unlock mutex_trylock
Step-Inv {s} v (lock t m b p run e) = elim (Option-cases s.mutex.owner) [
  | inl free ↦
      let em : m ≡ record s.mutex { owner = some t } = ground arith in
      let eb : b ≡ true = ground arith in rw (e, em, eb) (take-Inv s t v p free)
  | inr (o, held) ↦
      let em : m ≡ record s.mutex { waiters = s.mutex.waiters ++ t ∷ [] } = ground arith in
      let eb : b ≡ false = ground arith in rw (e, em, eb) (queue-Inv s t o v p held)
]
Step-Inv {s} v (wake t p e) = elim (Bool-cases (is_owner s.mutex.owner t)) [
  | inl mine ↦ rw (e, mine) (enter-Inv s t v p (is_owner-eq s.mutex.owner t mine))
  | inr other ↦ rw (e, other) (stay-Inv s t v p other)
]
Step-Inv {s} v (unlock t m w p run e) = elim (List-cases s.mutex.waiters) [
  | inl none_waits ↦
      let em : m ≡ record s.mutex { owner = none } = ground (arith, v.owns t p) in
      let ew : w ≡ none = ground (arith, v.owns t p) in
      rw (e, em, ew) (release-Inv s t v p none_waits)
  | inr (x, xs, some_wait) ↦
      let em : m ≡ record { owner = some x; waiters = xs } = ground (arith, v.owns t p) in
      let ew : w ≡ some x = ground (arith, v.owns t p) in
      rw (e, em, ew) (hand_over-Inv s t x xs v p some_wait)
]
Step-Inv {s} v (trylock t p e) = elim (Option-cases s.mutex.owner) [
  | inl free ↦ rw (e, free, mutex_trylock) (take-Inv s t v p free)
  | inr (o, held) ↦ rw (e, held, mutex_trylock) (fail-Inv s t v p)
]

pub Reach-Inv : {s : System} → Reach s → Inv s
Reach-Inv here = start-Inv
Reach-Inv (next r st) = Step-Inv (Reach-Inv r) st
