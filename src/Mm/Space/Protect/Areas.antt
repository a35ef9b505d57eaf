-- ===== src/Mm/Space/Protect/Areas.antt =====
-- kernel/mm/mmap.c: the loop of `sys_mprotect` over the areas.
use jnu.Base.{
  ℕ, ◌+◌, ◌-◌, ◌/◌, ◌^◌, ◌<◌, ◌≡◌, refl, sym, ap, ◌∙◌, inl, inr, Bool, true, false, ◌&&◌, Option,
  none, some, List, [], ◌∷◌, leb, ltb, if◌then◌else◌, Result, ok, arith, Bool-cases,
}
use jnu.Rbtree.{Tree}
use jnu.Mm.Vma.{Vma, VmaFlags, vma_find}
use jnu.Mm.Vma.Order.{Areas, Valid, holds}
use jnu.Mm.Vma.Find.{find_in, find_in-behind, find_in-some, find_in_below}
use jnu.Mm.Vma.Split.{find-holds}
use jnu.Mm.Vma.Range.{in_range}
use jnu.Arch.Paging.{Pml4}
use jnu.Arch.Paging.Entry.{entry_at}
use jnu.Arch.Paging.Room.{NoHuge}
use jnu.Mm.Space.Unmap.{Beside, AllBeside, is_found}
use jnu.Mm.Space.Clone.Areas.{area_pages}
use jnu.Mm.Space.Protect.{set_flags, protect_pages, protect_area, protect_within}
use jnu.Mm.Space.Protect.Flags.{set_flags-Valid, set_flags-here}
use jnu.Mm.Space.Protect.Pages.{refreshed, protect_pages-Protects}

-- The flags of an area in the list, within the range.
abbrev pub reflagged : VmaFlags → Bool → Option Vma → Option Vma
reflagged f b none = none
reflagged f b (some v) = if b then some (record v { flags = f }) else some v

-- What the loop leaves of the areas and of the entries.
pub record Loop (z : ℕ) (refs : ℕ → ℕ) (f : VmaFlags) (s e : ℕ) (vs : List Vma) (t : Tree Vma)
    (m : Pml4) (r : (Tree Vma × Pml4) × Result (Unit {0})) : Type 0 where
  pub fine : r.1 ≡ ok tt
  pub valid : Valid r.0.0
  pub clear : NoHuge r.0.1
  pub finds :
      (a : ℕ)
      → vma_find r.0.0 a ≡ reflagged f (in_range s e a && is_found (find_in vs a)) (vma_find t a)
  pub entries :
      (w : ℕ)
      → w < 2 ^ 47
      → entry_at r.0.1 w ≡ (
          if in_range s e w && is_found (find_in vs w)
          then refreshed z refs f (entry_at m w)
          else entry_at m w)

stays :
    (z : ℕ) (refs : ℕ → ℕ) (f : VmaFlags) (s e : ℕ) (vs : List Vma) (t : Tree Vma) (m : Pml4)
    → Valid t
    → NoHuge m
    → ((a : ℕ) → (in_range s e a && is_found (find_in vs a)) ≡ false)
    → Loop z refs f s e vs t m ((t, m), ok tt)
stays z refs f s e vs t m good clear none_there = record {
  fine = refl;
  valid = good;
  clear = clear;
  finds = λ a. same (vma_find t a) (none_there a);
  entries = λ w h. let out = none_there w in rw out refl;
}
  where
    same : {b : Bool} (o : Option Vma) → b ≡ false → o ≡ reflagged f b o
    same none k = refl
    same (some v) k = rw k refl

out_of_list : (b : Bool) → (b && false) ≡ false
out_of_list true = refl
out_of_list false = refl

abbrev hit : ℕ → ℕ → List Vma → ℕ → Bool
hit s e vs a = in_range s e a && is_found (find_in vs a)

same_hits :
    {z : ℕ} {refs : ℕ → ℕ} {f : VmaFlags} {s e : ℕ} {vs : List Vma} (ws : List Vma) {t : Tree Vma}
    {m : Pml4} {r : (Tree Vma × Pml4) × Result (Unit {0})}
    → ((a : ℕ) → hit s e ws a ≡ hit s e vs a)
    → Loop z refs f s e vs t m r
    → Loop z refs f s e ws t m r
same_hits {z} {refs} {f} {s} {e} {vs} ws {t} {m} same l = record {
  fine = l.fine;
  valid = l.valid;
  clear = l.clear;
  finds = λ a. l.finds a ∙ ap (λ b. reflagged f b (vma_find t a)) (sym (same a));
  entries = λ w h.
      l.entries w h
      ∙ ap (λ b. if b then refreshed z refs f (entry_at m w) else entry_at m w) (sym (same w));
}

beyond :
    (s e : ℕ) (v : Vma) (vs : List Vma) (a : ℕ)
    → (v.start < v.end) × Areas v.end vs
    → ltb v.start e ≡ false
    → hit s e (v ∷ vs) a ≡ false
beyond s e v vs a h k = elim (Bool-cases (in_range s e a)) [
  | inr i ↦ rw i refl
  | inl i ↦
      let gone : find_in (v ∷ vs) a ≡ none =
        find_in_below v.start (v ∷ vs) a (omega arith, h.0, h.1) (ground (arith, i, k)) in
      rw (i, gone) refl
]

skipped :
    (s e : ℕ) (v : Vma) (vs : List Vma) (a : ℕ)
    → Beside s e v
    → ltb v.start e ≡ true
    → (leb s v.start && leb v.end e) ≡ false
    → hit s e (v ∷ vs) a ≡ hit s e vs a
skipped s e v vs a at k i = elim (Bool-cases (holds v a)) [
  | inr g ↦ rw g refl
  | inl g ↦ let away : in_range s e a ≡ false = away_from g at in rw away refl
]
  where
    away_from : holds v a ≡ true → Beside s e v → in_range s e a ≡ false
    away_from g (_, inl x, y) = ground (arith, g, x)
    away_from g (_, inr x, inl y) = absurd (ground (arith, i, x, y))
    away_from g (_, inr x, inr y) = absurd (ground (arith, k, y))

-- The areas behind one that got new flags are as they were.
behind_set :
    {t : Tree Vma} (lo : ℕ) (v : Vma) (vs : List Vma) (f : VmaFlags)
    → Valid t
    → Areas lo (v ∷ vs)
    → ((a : ℕ) (x : Vma) → find_in (v ∷ vs) a ≡ some x → vma_find t a ≡ some x)
    → ((a : ℕ)
        → vma_find (set_flags v.start f t) a
          ≡ (if holds v a then some (record v { flags = f }) else vma_find t a))
      × ((a : ℕ) (x : Vma) → find_in vs a ≡ some x → vma_find (set_flags v.start f t) a ≡ some x)
behind_set {t} lo v vs f good h each =
    let self : holds v v.start ≡ true = ground (arith, h.1) in
    let finds = set_flags-here v f good h.1 (each v.start v (rw self refl)) in
    (
      finds,
      λ a x g.
          let (low, inside, _) = find_in-some v.end vs a x h.2 g in
          let out : holds v a ≡ false = ground (arith, low, inside) in
          finds a ∙ rw out (each a x (find_in-behind lo v vs a x h g)),
    )

-- One area within the range, and the rest of the loop.
with_area :
    {z : ℕ} {refs : ℕ → ℕ} {f : VmaFlags} {s e lo : ℕ} (v : Vma) (vs : List Vma) {t t1 : Tree Vma}
    {m m1 : Pml4} {r : (Tree Vma × Pml4) × Result (Unit {0})}
    → Areas lo (v ∷ vs)
    → (leb s v.start && leb v.end e) ≡ true
    → ((a : ℕ) → holds v a ≡ true → vma_find t a ≡ some v)
    → ((a : ℕ)
        → vma_find t1 a ≡ (if holds v a then some (record v { flags = f }) else vma_find t a))
    → ((w : ℕ)
        → w < 2 ^ 47
        → entry_at m1 w ≡ (if holds v w then refreshed z refs f (entry_at m w) else entry_at m w))
    → Loop z refs f s e vs t1 m1 r
    → Loop z refs f s e (v ∷ vs) t m r
with_area {z} {refs} {f} {s} {e} v vs {t} {t1} {m} {m1} h i here finds entries l = record {
  fine = l.fine;
  valid = l.valid;
  clear = l.clear;
  finds = λ a. elim (Bool-cases (holds v a)) [
    | inl g ↦
        let last = none_behind a g in
        let inside : in_range s e a ≡ true = ground (arith, i, g) in
        l.finds a ∙ rw (last, finds a, g, inside, here a g) refl
    | inr g ↦ l.finds a ∙ rw (finds a, g) refl
  ];
  entries = λ w k. elim (Bool-cases (holds v w)) [
    | inl g ↦
        let last = none_behind w g in
        let inside : in_range s e w ≡ true = ground (arith, i, g) in
        l.entries w k ∙ rw (last, entries w k, g, inside) refl
    | inr g ↦ l.entries w k ∙ rw (entries w k, g) refl
  ];
}
  where
    none_behind : (a : ℕ) → holds v a ≡ true → hit s e vs a ≡ false
    none_behind a g =
        let gone : find_in vs a ≡ none = find_in_below v.end vs a h.2 (ground (arith, g)) in
        rw gone (out_of_list (in_range s e a))

pub protect_within-Loop :
    (z : ℕ) (refs : ℕ → ℕ) (f : VmaFlags) (s e lo : ℕ) (vs : List Vma) (t : Tree Vma) (m : Pml4)
    → Valid t
    → NoHuge m
    → AllBeside s e vs
    → Areas lo vs
    → ((a : ℕ) (v : Vma) → find_in vs a ≡ some v → vma_find t a ≡ some v)
    → Loop z refs f s e vs t m (protect_within z refs f s e (t, m) vs)
unfolding protect_within protect_area
protect_within-Loop z refs f s e lo [] t m good clear beside h each =
    stays z refs f s e [] t m good clear (λ a. out_of_list (in_range s e a))
protect_within-Loop z refs f s e lo (v ∷ vs) t m good clear (at, beside) h each =
    elim (Bool-cases (ltb v.start e)) [
      | inr k ↦
          rw (k, protect_within)
            (stays z refs f s e (v ∷ vs) t m good clear λ a. beyond s e v vs a (h.1, h.2) k)
      | inl k ↦ elim (Bool-cases (leb s v.start && leb v.end e)) [
        | inr i ↦
            rw (k, i, protect_within)
              (same_hits (v ∷ vs) (λ a. skipped s e v vs a at k i)
                (protect_within-Loop z refs f s e v.end vs t m good clear beside h.2
                  (λ a x g. each a x (find_in-behind lo v vs a x h g))))
        | inl i ↦
            let n = (v.end - v.start + 4095) / 4096 in
            let (x, y, w) = at.0 in
            let (fine, clear1, one) =
              protect_pages-Protects z refs f m v.start n x (omega (arith, x, y, w, h.1)) clear in
            let (finds, each1) = behind_set lo v vs f good h each in
            let self : holds v v.start ≡ true = ground (arith, h.1) in
            rw (k, i, fine, protect_within, protect_area)
              (with_area v vs h i
                (λ a g. find-holds v.start a v good (each v.start v (rw self refl)) g) finds
                (λ w' j.
                  one w' j
                  ∙ ap (λ b. if b then refreshed z refs f (entry_at m w') else entry_at m w')
                      (area_pages v w' at.0 h.1))
                (protect_within-Loop z refs f s e v.end vs (set_flags v.start f t)
                  (protect_pages z refs f m v.start n).0 (set_flags-Valid v.start f good) clear1
                  beside h.2 each1))
      ]
    ]
