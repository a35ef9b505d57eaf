-- ===== src/Sync/Futex/Queue.antt =====
-- kernel/kernel/futex.c: how near to the head of a queue a waiter stands, and that a wake comes to it.
use jnu.Base.{
  ℕ, zero, suc, ◌≡◌, ◌≢◌, refl, sym, ap, ◌∙◌, subst, true, false, inl, inr, List, [], ◌∷◌, ◌++◌,
  ◌≤◌, arith, ==_refl, mem, take, erase, map, ◌==◌, Bool-cases,
}
use jnu.Sync.Futex.{Waiter, matches, wake_loop}

-- `w` is among the first `k + 1` of a queue.
abbrev pub Near : ℕ → ℕ → List ℕ → Type 0
Near k w ws = mem w (take (suc k) ws) ≡ true

pub Near-suc : (n w : ℕ) (ws : List ℕ) → mem w (take n ws) ≡ true → mem w (take (suc n) ws) ≡ true
Near-suc zero w ws h = absurd (ground (arith, h))
Near-suc (suc n) w [] h = h
Near-suc (suc n) w (x ∷ ws) h = ground (arith, h, Near-suc n w ws)

pub take_more :
    (n m w : ℕ) (ws : List ℕ) → n ≤ m → mem w (take n ws) ≡ true → mem w (take m ws) ≡ true
take_more zero m w ws l h = absurd (ground (arith, h))
take_more (suc n) zero w ws l h = absurd (omega (arith, l))
take_more (suc n) (suc m) w [] l h = h
take_more (suc n) (suc m) w (x ∷ ws) l h = ground (arith, h, take_more n m w ws (omega (arith, l)))

pub take-erase :
    (n w v : ℕ) (ws : List ℕ)
    → w ≢ v
    → mem w (take n ws) ≡ true
    → mem w (take n (erase v ws)) ≡ true
take-erase zero w v ws ne h = absurd (ground (arith, h))
take-erase (suc n) w v [] ne h = h
take-erase (suc n) w v (x ∷ ws) ne h =
    ground (arith, h, ne, take-erase n w v ws ne, Near-suc n w ws)

-- The loop of `futex_wake` comes to a waiter that is near enough.
pub wake_loop-Near :
    (nodes : ℕ → Waiter) (proc uaddr w n : ℕ) (ws : List ℕ)
    → matches proc uaddr (nodes w) ≡ true
    → mem w (take n ws) ≡ true
    → mem w (wake_loop nodes proc uaddr n ws).0 ≡ true
unfolding wake_loop
wake_loop-Near nodes proc uaddr w zero ws m h = absurd (ground (arith, h))
wake_loop-Near nodes proc uaddr w (suc n) [] m h = absurd (ground (arith, h))
wake_loop-Near nodes proc uaddr w (suc n) (x ∷ ws) m h =
    elim (Bool-cases (matches proc uaddr (nodes x))) [
      | inl e ↦ rw e (ground (arith, h, wake_loop-Near nodes proc uaddr w n ws m))
      | inr e ↦
          let ne : w ≢ x =
            λ s. clash (sym (subst (λ y. matches proc uaddr (nodes y) ≡ true) s m) ∙ e) in
          rw e (
            wake_loop-Near nodes proc uaddr w (suc n) ws m
              (Near-suc n w ws (ground (arith, h, ne))))
    ]
  where
    clash : true ≡ false → ⊥
    clash x = cc

pub mem-map : (f : ℕ → ℕ) (w : ℕ) (ws : List ℕ) → mem w ws ≡ true → mem (f w) (map f ws) ≡ true
mem-map f w [] h = absurd (ground (arith, h))
mem-map f w (x ∷ ws) h = elim (Bool-cases (w == x)) [
  | inl e ↦
      let same : w ≡ x = ground (arith, e) in rw (ap (λ y. f y == f x) same ∙ ==_refl (f x)) refl
  | inr e ↦ ground (arith, mem-map f w ws (ground (arith, h, e)))
]

pub mem-behind : (x : ℕ) (xs ys : List ℕ) → mem x ys ≡ true → mem x (xs ++ ys) ≡ true
mem-behind x [] ys h = h
mem-behind x (y ∷ xs) ys h = ground (arith, mem-behind x xs ys h)
