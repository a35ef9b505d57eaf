-- ===== src/Mm/Vma/Split.antt =====
-- kernel/mm/vma.c: `vma_split_at` parts one area and changes the flags of no address.
use jnu.Base.{
  ℕ, ◌≤◌, ◌<◌, ◌%◌, ◌^◌, ◌≡◌, refl, sym, ap, ◌∙◌, subst, ◌⊎◌, inl, inr, Bool, true, false, not,
  ◌||◌, Option, none, some, leb, ltb, ◌==◌, if◌then◌else◌, arith, Bool-cases, Result, ok, err,
  Errno, einval, enomem,
}
use jnu.Rbtree.{Tree}
use jnu.Rbtree.Order.{items}
use jnu.Mm.Vma.{Vma, VmaFlags, vma_find, vma_remove, vma_split_at, insert_halves}
use jnu.Mm.Vma.Order.{Valid, holds}
use jnu.Mm.Vma.Find.{vma_find-items, find_in-some}
use jnu.Mm.Vma.Change.{added, overlaps, vma_insert-Insertion, vma_remove-clears}

-- The flags an address has, if it is in an area.
abbrev pub flags_of : Option Vma → Option VmaFlags
flags_of none = none
flags_of (some v) = some v.flags

abbrev pub flags_at : Tree Vma → ℕ → Option VmaFlags
flags_at t a = flags_of (vma_find t a)

pub find-holds :
    {t : Tree Vma} (a b : ℕ) (v : Vma)
    → Valid t
    → vma_find t a ≡ some v
    → holds v b ≡ true
    → vma_find t b ≡ some v
find-holds {t} a b v good e i =
    let (_, _, go) = find_in-some 0 (items t) a v good.ordered (sym (vma_find-items a good) ∙ e) in
    vma_find-items b good ∙ go b i

pub holds-find :
    {t : Tree Vma} (a : ℕ) (v : Vma) → Valid t → vma_find t a ≡ some v → holds v a ≡ true
holds-find {t} a v good e =
    let (_, h, _) = find_in-some 0 (items t) a v good.ordered (sym (vma_find-items a good) ∙ e) in h

abbrev pub lower_part : Vma → ℕ → Vma
lower_part v b = record v { end = b }

abbrev pub upper_part : Vma → ℕ → Vma
upper_part v b = record v { start = b }

-- The area found at an address once `v` is parted at `b`.
abbrev pub parted_at : Tree Vma → Vma → ℕ → ℕ → Option Vma
parted_at t v b a =
    if holds v a
    then (if ltb a b then some (lower_part v b) else some (upper_part v b))
    else vma_find t a

-- The conditions under which nothing is split.
abbrev pub refuses : Vma → ℕ → Bool → Bool
refuses v b memory = (leb b v.start || leb v.end b) || (not (b % 4096 == 0) || not memory)

pub data Splitting (t : Tree Vma) (v : Vma) (b : ℕ) (memory : Bool)
    (r : Tree Vma × Result (Unit {0})) : Type 0 where
  refused : (e : Errno) → refuses v b memory ≡ true → r ≡ (t, err e) → Splitting t v b memory r
  parted :
      v.start < b
      → b < v.end
      → b % 4096 ≡ 0
      → r.1 ≡ ok tt
      → Valid r.0
      → ((a : ℕ) → vma_find r.0 a ≡ parted_at t v b a)
      → Splitting t v b memory r

parts :
    (v : Vma) (b a : ℕ)
    → v.start < b
    → b < v.end
    → (o : Option Vma)
    → (if holds (upper_part v b) a
        then some (upper_part v b)
        else (if holds (lower_part v b) a
            then some (lower_part v b)
            else (if holds v a then none else o)))
      ≡ (if holds v a
          then (if ltb a b then some (lower_part v b) else some (upper_part v b))
          else o)
parts v b a low high o = elim (Bool-cases (holds v a)) [
  | inl i ↦ elim (Bool-cases (ltb a b)) [
    | inl k ↦
        let up : holds (upper_part v b) a ≡ false = ground (arith, k) in
        let lo : holds (lower_part v b) a ≡ true = ground (arith, k, i) in rw (up, lo, i, k) refl
    | inr k ↦ let up : holds (upper_part v b) a ≡ true = ground (arith, k, i) in rw (up, i, k) refl
  ]
  | inr i ↦
      let up : holds (upper_part v b) a ≡ false = ground (arith, i, low) in
      let lo : holds (lower_part v b) a ≡ false = ground (arith, i, high) in rw (up, lo, i) refl
]

-- Both halves find a place, since the whole area had one.
halves :
    {t : Tree Vma} (v : Vma) (b c : ℕ) (m : Bool)
    → Valid t
    → vma_find t c ≡ some v
    → v.start < b
    → b < v.end
    → b % 4096 ≡ 0
    → Splitting t v b m (insert_halves (vma_remove t v) v (lower_part v b) (upper_part v b))
unfolding insert_halves
halves {t} v b c m good found low high paged =
    let (good1, less) = vma_remove-clears v c good found in
    elim (vma_insert-Insertion {t = vma_remove t v} (lower_part v b) good1 low) [
      | overlaps a w _ i e ↦
          let in_v : holds v a ≡ true = ground (arith, i, high) in
          absurd (ground (arith, less a, e, in_v))
      | added ok1 good2 more1 _ ↦ elim (vma_insert-Insertion (upper_part v b) good2 high) [
        | overlaps a w _ i e ↦
            let in_v : holds v a ≡ true = ground (arith, i, low) in
            let not_low : holds (lower_part v b) a ≡ false = ground (arith, i) in
            absurd (ground (arith, less a, more1 a, e, in_v, not_low))
        | added ok2 good3 more2 _ ↦
            rw (ok1, ok2, insert_halves)
              (parted low high paged refl good3 (λ a.
                more2 a
                ∙ (ap (λ o. if holds (upper_part v b) a then some (upper_part v b) else o)
                      (more1 a
                        ∙ ap (λ o. if holds (lower_part v b) a then some (lower_part v b) else o)
                            (less a))
                    ∙ parts v b a low high (vma_find t a))))
      ]
    ]

-- For an area found in a valid tree, `vma_split_at` is either refused, since the boundary is
-- not inside the area or not at a page or there is no memory, and nothing changes; or the
-- boundary is inside, the tree is valid, the addresses of the area below the boundary are in
-- the lower part, those from it on in the upper part, and all others in the areas they were in.
pub vma_split_at-Splitting :
    {t : Tree Vma} (v : Vma) (c b : ℕ) (memory : Bool)
    → Valid t
    → vma_find t c ≡ some v
    → Splitting t v b memory (vma_split_at t v b memory)
unfolding vma_split_at
vma_split_at-Splitting {t} v c b memory good found =
    elim (Bool-cases (leb b v.start || leb v.end b)) [
      | inl k ↦ refused einval (rw k refl) (rw (k, vma_split_at) refl)
      | inr k ↦ elim (Bool-cases (b % 4096 == 0)) [
        | inr n ↦ refused einval (rw (k, n) refl) (rw (k, n, vma_split_at) refl)
        | inl n ↦ elim (Bool-cases memory) [
          | inr m ↦ refused enomem (rw (k, n, m) refl) (rw (k, n, m, vma_split_at) refl)
          | inl m ↦
              rw (k, n, m, vma_split_at)
                (halves v b c true good found (ground (arith, k)) (ground (arith, k))
                  (ground (arith, n)))
        ]
      ]
    ]

-- No area has addresses on both sides of `b`.
abbrev pub Cut : Tree Vma → ℕ → Type 0
Cut t b = (a : ℕ) (v : Vma) → vma_find t a ≡ some v → v.start < b → b < v.end → ⊥

flags_parts :
    (v : Vma) (a b : ℕ)
    → flags_of (if ltb a b then some (lower_part v b) else some (upper_part v b)) ≡ some v.flags
flags_parts v a b = elim (Bool-cases (ltb a b)) [ inl k ↦ rw k refl | inr k ↦ rw k refl ]

part_of :
    (v w : Vma) (a b : ℕ)
    → (o : Option Vma)
    → (if holds v a then (if ltb a b then some (lower_part v b) else some (upper_part v b)) else o)
      ≡ some w
    → (holds v a ≡ true) × ((w ≡ lower_part v b) ⊎ (w ≡ upper_part v b))
      ⊎ ((holds v a ≡ false) × (o ≡ some w))
part_of v w a b o e = elim (Bool-cases (holds v a)) [
  | inr i ↦ inr (i, ground (arith, e, i))
  | inl i ↦ elim (Bool-cases (ltb a b)) [
    | inl k ↦ inl (i, inl (ground (arith, e, i, k)))
    | inr k ↦ inl (i, inr (ground (arith, e, i, k)))
  ]
]

-- An area of whole pages, below `USER_TOP`.
abbrev pub Whole : Vma → Type 0
Whole v = (v.start % 4096 ≡ 0) × (v.end % 4096 ≡ 0) × (v.end ≤ 2 ^ 47)

abbrev pub AllWhole : Tree Vma → Type 0
AllWhole t = (a : ℕ) (v : Vma) → vma_find t a ≡ some v → Whole v

-- A split keeps the flags of every address, the cuts there were, and makes one.
pub Splitting-kept :
    {t : Tree Vma} {v : Vma} {b : ℕ} {memory : Bool} {r : Tree Vma × Result (Unit {0})} (c : ℕ)
    → Valid t
    → vma_find t c ≡ some v
    → Splitting t v b memory r
    → Valid r.0
      × ((a : ℕ) → flags_at r.0 a ≡ flags_at t a)
      × ((k : ℕ) → Cut t k → Cut r.0 k)
      × (r.1 ≡ ok tt → Cut r.0 b)
      × (AllWhole t → AllWhole r.0)
Splitting-kept {t} {v} {b} {memory} {r} c good found (refused e _ same) =
    subst
      (λ (x : Tree Vma × Result (Unit {0})).
        Valid x.0
        × ((a : ℕ) → flags_at x.0 a ≡ flags_at t a)
        × ((k : ℕ) → Cut t k → Cut x.0 k)
        × (x.1 ≡ ok tt → Cut x.0 b)
        × (AllWhole t → AllWhole x.0))
      (sym same) (good, λ a. refl, λ k x. x, λ bad. cc, λ x. x)
Splitting-kept {t} {v} {b} {memory} {r} c good found (parted low high paged done good' finds) =
    let flagged : (a : ℕ) → flags_at r.0 a ≡ flags_at t a = λ a. elim (Bool-cases (holds v a)) [
      | inr i ↦ ap flags_of (finds a ∙ rw i refl)
      | inl i ↦
          ap flags_of (finds a)
          ∙ (rw i (flags_parts v a b) ∙ ap flags_of (sym (find-holds c a v good found i)))
    ] in
    (
      good',
      flagged,
      λ k cut a w e lw hw. elim (part_of v w a b (vma_find t a) (sym (finds a) ∙ e)) [
        | inr (i, f) ↦ cut a w f lw hw
        | inl (i, inl same) ↦
            cut c v found (subst (λ (x : Vma). x.start < k) same lw)
              (omega (arith, high, subst (λ (x : Vma). k < x.end) same hw))
        | inl (i, inr same) ↦
            cut c v found (omega (arith, low, subst (λ (x : Vma). x.start < k) same lw))
              (subst (λ (x : Vma). k < x.end) same hw)
      ],
      λ _ a w e lw hw. elim (part_of v w a b (vma_find t a) (sym (finds a) ∙ e)) [
        | inr (i, f) ↦
            let here = find-holds a b w good f (ground (arith, lw, hw)) in
            let there = find-holds c b v good found (ground (arith, low, high)) in
            let same : v ≡ w = cc in
            let inside = subst (λ x. holds x a ≡ true) (sym same) (holds-find a w good f) in cc
        | inl (i, inl same) ↦ absurd (omega (arith, subst (λ (x : Vma). b < x.end) same hw))
        | inl (i, inr same) ↦ absurd (omega (arith, subst (λ (x : Vma). x.start < b) same lw))
      ],
      λ all a w e. elim (part_of v w a b (vma_find t a) (sym (finds a) ∙ e)) [
        | inr (i, f) ↦ all a w f
        | inl (i, inl same) ↦
            let (x, y, z) = all c v found in
            subst Whole (sym same) (x, paged, omega (arith, z, high))
        | inl (i, inr same) ↦ let (x, y, z) = all c v found in subst Whole (sym same) (paged, y, z)
      ],
    )
