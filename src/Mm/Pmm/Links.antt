-- ===== src/Mm/Pmm/Links.antt =====
-- kernel/mm/pmm.c: the free lists as doubly linked lists threaded through `pfn_table`.
use jnu.Base.{
  ℕ, ◌≡◌, refl, sym, ◌∙◌, ◌⊎◌, inl, inr, Bool, true, false, Option, none, some, List, [], ◌∷◌, ◌==◌,
  if◌then◌else◌, arith, mem, Distinct, erase, subst, ne_of_mem, ==_refl, Bool-cases,
}
use jnu.Mm.Pmm.{Pmm, Pfn, Zone, list_remove, list_push}

-- From `head` the `next` links lead through `xs` to the end, and each `prev` link leads back.
abbrev pub Chain : (ℕ → Pfn) → Option ℕ → Option ℕ → List ℕ → Type 0
Chain t before head [] = head ≡ none
Chain t before head (x ∷ xs) =
    (head ≡ some x) × ((t x).prev ≡ before) × Chain t (some x) (t x).next xs

abbrev pub links_to : Option ℕ → ℕ → Bool
links_to none q = false
links_to (some p) q = p == q

abbrev pub SameLinks : (ℕ → Pfn) → (ℕ → Pfn) → List ℕ → Type 0
SameLinks t t' [] = Unit {0}
SameLinks t t' (x ∷ xs) =
    ((t' x).next ≡ (t x).next) × ((t' x).prev ≡ (t x).prev) × SameLinks t t' xs

-- A chain depends on its own links alone.
pub Chain-frame :
    (t t' : ℕ → Pfn) (before head : Option ℕ) (xs : List ℕ)
    → SameLinks t t' xs
    → Chain t before head xs
    → Chain t' before head xs
Chain-frame t t' before head [] same c = c
Chain-frame t t' before head (x ∷ xs) same c =
    (c.0, same.1 ∙ c.1, rw same.0 (Chain-frame t t' (some x) (t x).next xs same.2 c.2))

-- The links that `list_remove` leaves.
pub next-list_remove :
    (s : Pmm) (p q : ℕ)
    → ((list_remove s p).pfn_table q).next ≡ (
        if p == q
        then none
        else if links_to (s.pfn_table p).prev q
        then (s.pfn_table p).next
        else (s.pfn_table q).next)
unfolding list_remove
next-list_remove s p q = ground arith

pub prev-list_remove :
    (s : Pmm) (p q : ℕ)
    → ((list_remove s p).pfn_table q).prev ≡ (
        if p == q
        then none
        else if links_to (s.pfn_table p).next q
        then (s.pfn_table p).prev
        else (s.pfn_table q).prev)
unfolding list_remove
prev-list_remove s p q = ground arith

-- The successor of a member is a member.
pub next-mem :
    (t : ℕ → Pfn) (before head : Option ℕ) (xs : List ℕ) (p y : ℕ)
    → Chain t before head xs
    → mem p xs ≡ true
    → (t p).next ≡ some y
    → mem y xs ≡ true
next-mem t before head [] p y c m e = cc
next-mem t before head (x ∷ []) p y c m e = ground arith
next-mem t before head (x ∷ z ∷ xs) p y c m e =
    ground (arith, next-mem t (some x) (t x).next (z ∷ xs) p y c.2)

-- So is the predecessor, unless it is the link that the chain starts from.
pub prev-mem :
    (t : ℕ → Pfn) {before : Option ℕ} (head : Option ℕ) (xs : List ℕ) (p : ℕ)
    → Chain t before head xs
    → mem p xs ≡ true
    → ((head ≡ some p) × ((t p).prev ≡ before))
      ⊎ ((q : ℕ) × ((t p).prev ≡ some q) × (mem q xs ≡ true))
prev-mem t head [] p c m = cc
prev-mem t head (x ∷ xs) p c m = elim (Bool-cases (p == x)) [
  | inl e ↦ inl (ground arith)
  | inr ne ↦ elim (prev-mem t (t x).next xs p c.2 (ground arith)) [
    | inl (_, e) ↦ inr (x, e, ground arith)
    | inr (q, e, k) ↦ inr (q, e, ground arith)
  ]
]

Chain-first :
    (t : ℕ → Pfn) (before head : Option ℕ) (xs : List ℕ) (p : ℕ)
    → Chain t before head xs
    → head ≡ some p
    → (t p).prev ≡ before
Chain-first t before head [] p c e = cc
Chain-first t before head (x ∷ xs) p c e = ground arith

pub links_to-eq : (b : Option ℕ) (q : ℕ) → links_to b q ≡ true → b ≡ some q
links_to-eq none q h = cc
links_to-eq (some p) q h = ground arith

pub head-mem :
    (t : ℕ → Pfn) (before head : Option ℕ) (xs : List ℕ) (p : ℕ)
    → Chain t before head xs
    → links_to head p ≡ true
    → mem p xs ≡ true
head-mem t before head [] p c e = ground (arith, links_to-eq head p e)
head-mem t before head (x ∷ xs) p c e = ground (arith, links_to-eq head p e)

-- No member of a chain leads back to its first one, and it is the first that leads to the second.
next-ne :
    (t : ℕ → Pfn) (x : ℕ) (xs : List ℕ) (p : ℕ)
    → Chain t (some x) (t x).next xs
    → mem x xs ≡ false
    → mem p xs ≡ true
    → links_to (t p).next x ≡ false
next-ne t x xs p c d m = elim (Bool-cases (links_to (t p).next x)) [
  | inl e ↦ ground (arith, next-mem t (some x) (t x).next xs p x c m (links_to-eq (t p).next x e))
  | inr e ↦ e
]

links_both :
    (t : ℕ → Pfn) (x : ℕ) (xs : List ℕ) (p : ℕ)
    → Chain t (some x) (t x).next xs
    → mem x xs ≡ false
    → mem p xs ≡ true
    → links_to (t p).prev x ≡ links_to (t x).next p
links_both t x xs p c d m = elim (prev-mem t (t x).next xs p c m) [
  | inl (e, e') ↦ ground arith
  | inr (q, e, k) ↦ elim (Bool-cases (links_to (t x).next p)) [
    | inl l ↦ ground (arith, Chain-first t (some x) (t x).next xs p c (links_to-eq (t x).next p l))
    | inr l ↦ ground (arith, ne_of_mem q x xs k d)
  ]
]

abbrev pub Outside : Option ℕ → List ℕ → Type 0
Outside none xs = Unit {0}
Outside (some q) xs = mem q xs ≡ false

Outside-tail : (b : Option ℕ) (x : ℕ) (xs : List ℕ) → Outside b (x ∷ xs) → Outside b xs
Outside-tail none x xs o = tt
Outside-tail (some q) x xs o = ground arith

Outside-head : (b : Option ℕ) (x : ℕ) (xs : List ℕ) → Outside b (x ∷ xs) → links_to b x ≡ false
Outside-head none x xs o = refl
Outside-head (some q) x xs o = ground arith

-- Taking `p` out of a table `t` whose links then are those of `t'`.
module _ (t t' : ℕ → Pfn) (p : ℕ)
    (nexts : (q : ℕ)
      → (t' q).next
        ≡ (if p == q then none else if links_to (t p).prev q then (t p).next else (t q).next))
    (prevs : (q : ℕ)
      → (t' q).prev
        ≡ (if p == q then none else if links_to (t p).next q then (t p).prev else (t q).prev)) where
  SameLinks-unlink :
      (xs : List ℕ)
      → mem p xs ≡ false
      → Outside (t p).prev xs
      → Outside (t p).next xs
      → SameLinks t t' xs
  SameLinks-unlink [] m o o' = tt
  SameLinks-unlink (x ∷ xs) m o o' = (
    ground (arith, nexts x),
    ground (arith, prevs x),
    SameLinks-unlink xs (ground arith) (Outside-tail (t p).prev x xs o)
        (Outside-tail (t p).next x xs o'),
  )

  -- The rest of the chain behind `p` follows what stood before it.
  Chain-behind :
      (before : Option ℕ) (xs : List ℕ)
      → Chain t (some p) (t p).next xs
      → Distinct xs
      → mem p xs ≡ false
      → (t p).prev ≡ before
      → Outside before xs
      → Chain t' before (t p).next xs
  Chain-behind before [] c d m e o = c
  Chain-behind before (y ∷ xs) c d m e o = (
    c.0,
    ground (arith, prevs y, c.0),
    rw next (Chain-frame t t' (some y) (t y).next xs same c.2),
  )
    where
      outside : Outside (t p).prev (y ∷ xs)
      outside = subst (λ b. Outside b (y ∷ xs)) (sym e) o

      same : SameLinks t t' xs
      same =
          SameLinks-unlink xs (ground arith) (Outside-tail (t p).prev y xs outside)
            (subst (λ b. Outside b xs) (sym c.0) d.0)

      next : (t' y).next ≡ (t y).next
      next = ground (arith, nexts y, Outside-head (t p).prev y xs outside)

  -- A chain from which `p` is taken out is the chain of the other members, in their order.
  pub Chain-unlink :
      (before head : Option ℕ) (xs : List ℕ)
      → Chain t before head xs
      → Distinct xs
      → mem p xs ≡ true
      → Outside before xs
      → Chain t' before (if links_to head p then (t p).next else head) (erase p xs)
  Chain-unlink before head [] c d m o = cc
  Chain-unlink before head (x ∷ xs) c d m o = elim (Bool-cases (p == x)) [
    | inl e ↦
        let same : x ≡ p = ground arith in
        rw (c.0, same, ==_refl p)
          (Chain-behind before xs (subst (λ k. Chain t (some k) (t k).next xs) same c.2) d.1
            (subst (λ k. mem k xs ≡ false) same d.0) (ground arith) (Outside-tail before x xs o))
    | inr ne ↦
        let m' : mem p xs ≡ true = ground arith in
        let flip : (x == p) ≡ false = ground arith in
        rw (c.0, ne, flip)
          (
            refl,
            ground (arith, prevs x, next-ne t x xs p c.2 d.0 m'),
            rw (nexts x, ne, links_both t x xs p c.2 d.0 m')
                (Chain-unlink (some x) (t x).next xs c.2 d.1 m' d.0),
          )
  ]

-- The links that `list_push` leaves.
pub next-list_push :
    (s : Pmm) (z : Zone) (o p q : ℕ)
    → links_to (s.free_list_head z o) p ≡ false
    → ((list_push s z o p).pfn_table q).next
      ≡ (if p == q then s.free_list_head z o else (s.pfn_table q).next)
unfolding list_push
next-list_push s z o p q h = ground arith

pub prev-list_push :
    (s : Pmm) (z : Zone) (o p q : ℕ)
    → links_to (s.free_list_head z o) p ≡ false
    → ((list_push s z o p).pfn_table q).prev ≡ (
        if p == q
        then none
        else if links_to (s.free_list_head z o) q
        then some p
        else (s.pfn_table q).prev)
unfolding list_push
prev-list_push s z o p q h = ground arith

SameLinks-all :
    (t t' : ℕ → Pfn) (xs : List ℕ)
    → ((q : ℕ) → mem q xs ≡ true → ((t' q).next ≡ (t q).next) × ((t' q).prev ≡ (t q).prev))
    → SameLinks t t' xs
SameLinks-all t t' [] same = tt
SameLinks-all t t' (x ∷ xs) same =
    let both : ((t' x).next ≡ (t x).next) × ((t' x).prev ≡ (t x).prev) = same x (ground arith) in
    (both.0, both.1, SameLinks-all t t' xs λ q m. same q (ground arith))

-- A chain of which no member changes its links.
pub Chain-same :
    (t t' : ℕ → Pfn) (before head : Option ℕ) (xs : List ℕ)
    → ((q : ℕ) → mem q xs ≡ true → ((t' q).next ≡ (t q).next) × ((t' q).prev ≡ (t q).prev))
    → Chain t before head xs
    → Chain t' before head xs
Chain-same t t' before head xs same = Chain-frame t t' before head xs (SameLinks-all t t' xs same)

-- A pushed frame comes before the chain that was there.
pub Chain-push :
    (s : Pmm) (z : Zone) (o p : ℕ) (xs : List ℕ)
    → Chain s.pfn_table none (s.free_list_head z o) xs
    → Distinct xs
    → mem p xs ≡ false
    → Chain (list_push s z o p).pfn_table none (some p) (p ∷ xs)
Chain-push s z o p [] c d m = ground (arith, next-list_push s z o p p, prev-list_push s z o p p)
Chain-push s z o p (x ∷ xs) c d m = (
  refl,
  ground (arith, prev-list_push s z o p p),
  rw first (
    refl,
    ground (arith, prev-list_push s z o p x),
    rw second (
        Chain-same s.pfn_table (list_push s z o p).pfn_table (some x) (s.pfn_table x).next xs
          (λ q k. (
            ground (arith, next-list_push s z o p q),
            ground (arith, prev-list_push s z o p q, ne_of_mem q x xs k d.0),
          ))
          c.2),
  ),
)
  where
    first : ((list_push s z o p).pfn_table p).next ≡ some x
    first = ground (arith, next-list_push s z o p p)

    second : ((list_push s z o p).pfn_table x).next ≡ (s.pfn_table x).next
    second = ground (arith, next-list_push s z o p x)

-- The first member has no predecessor, and the others have one.
pub prev-none_iff :
    (t : ℕ → Pfn) (head : Option ℕ) (xs : List ℕ) (p : ℕ)
    → Chain t none head xs
    → mem p xs ≡ true
    → ((head ≡ some p) × ((t p).prev ≡ none))
      ⊎ ((q : ℕ) × ((t p).prev ≡ some q) × (links_to head p ≡ false))
prev-none_iff t head xs p c m = elim (prev-mem t head xs p c m) [
  | inl h ↦ inl h
  | inr (q, e, k) ↦ inr (
    q,
    e,
    elim (Bool-cases (links_to head p)) [
      | inl l ↦ ground (arith, Chain-first t none head xs p c (links_to-eq head p l))
      | inr l ↦ l
    ],
  )
]
