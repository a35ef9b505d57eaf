-- ===== src/Mm/Pmm/Blocks/Moves.antt =====
-- kernel/mm/pmm.c: a block that leaves its list, and one that is put on a list.
use jnu.Base.{
  ℕ, ◌≡◌, refl, sym, ◌∙◌, ◌⊎◌, ◌↔◌, inl, inr, none, some, ◌==◌, arith, Option-cases, Bool-cases,
  one-le-pow,
}
use mathlib.Core.Path.{subst₂}
use jnu.Mm.Pmm.{Pmm, Zone, Stats, list_remove, list_push, with_stats}
use jnu.Mm.Pmm.Links.{Chain-same}
use jnu.Mm.Pmm.Lists.{mark, zone_at, detach, mark-detach, mark-list_push}
use jnu.Mm.Pmm.Lists.Remove.{detach-Holds}
use jnu.Mm.Pmm.Lists.Push.{list_push-Holds}
use jnu.Mm.Pmm.Blocks.{InBlock, Covered, Fits, WellFormed, Adds}

pub count-list_remove : (s : Pmm) (p : ℕ) → (list_remove s p).pfn_count ≡ s.pfn_count
unfolding list_remove
count-list_remove s p = ground arith

pub count-list_push : (s : Pmm) (z : Zone) (o p : ℕ) → (list_push s z o p).pfn_count ≡ s.pfn_count
unfolding list_push
count-list_push s z o p = ground arith

-- What changes neither marks nor links nor heads changes nothing here.
pub record Same (s t : Pmm) : Type 0 where
  pub marks : (q : ℕ) → mark t q ≡ mark s q
  pub nexts : (q : ℕ) → (t.pfn_table q).next ≡ (s.pfn_table q).next
  pub prevs : (q : ℕ) → (t.pfn_table q).prev ≡ (s.pfn_table q).prev
  pub heads : (z : Zone) (o : ℕ) → t.free_list_head z o ≡ s.free_list_head z o
  pub count : t.pfn_count ≡ s.pfn_count

pub Same-WellFormed : {s t : Pmm} → Same s t → WellFormed s → WellFormed t
Same-WellFormed {s} {t} e v = record {
  lists = v.lists;
  holds = record {
    chain = λ z o. rw (e.heads z o) (
        Chain-same s.pfn_table t.pfn_table none (s.free_list_head z o) (v.lists z o)
          (λ q _. (e.nexts q, e.prevs q)) (v.holds.chain z o));
    distinct = v.holds.distinct;
    listed = λ z o p m. rw (e.marks p) (v.holds.listed z o p m);
    complete = λ p o h. v.holds.complete p o (sym (e.marks p) ∙ h);
  };
  small = rw e.count v.small;
  fits = λ p o h. rw e.count (v.fits p o (sym (e.marks p) ∙ h));
  disjoint = λ p o p' o' q h h' i i'.
      v.disjoint p o p' o' q (sym (e.marks p) ∙ h) (sym (e.marks p') ∙ h') i i';
}

pub Same-Covered : {s t : Pmm} → Same s t → (q : ℕ) → Covered s q ↔ Covered t q
Same-Covered e q = (
  λ (p, o, h, i, j). (p, o, e.marks p ∙ h, i, j),
  λ (p, o, h, i, j). (p, o, sym (e.marks p) ∙ h, i, j),
)

pub Same-Adds : {A : ℕ → Type 0} {s m t u : Pmm} → Same s t → Same m u → Adds A s m → Adds A t u
Same-Adds e d a = record {
  keeps = λ q h. (Same-Covered d q).0 (a.keeps q ((Same-Covered e q).1 h));
  gains = λ q h. (Same-Covered d q).0 (a.gains q h);
  only = λ q h. elim (a.only q ((Same-Covered d q).1 h)) [
    | inl k ↦ inl ((Same-Covered e q).0 k)
    | inr k ↦ inr k
  ];
  fresh = λ q h k. a.fresh q h ((Same-Covered e q).1 k);
}

pub Same-sym : {s t : Pmm} → Same s t → Same t s
Same-sym e = record {
  marks = λ q. sym (e.marks q);
  nexts = λ q. sym (e.nexts q);
  prevs = λ q. sym (e.prevs q);
  heads = λ z o. sym (e.heads z o);
  count = sym e.count;
}

pub Same-refl : (s : Pmm) → Same s s
Same-refl s = record {
  marks = λ q. refl;
  nexts = λ q. refl;
  prevs = λ q. refl;
  heads = λ z o. refl;
  count = refl;
}

-- The counters play no part in the blocks.
pub Same-with_stats : (s : Pmm) (st : Stats) → Same s (with_stats s st)
Same-with_stats s st = record {
  marks = λ q. refl;
  nexts = λ q. refl;
  prevs = λ q. refl;
  heads = λ z o. refl;
  count = refl;
}

module _ {s : Pmm} (v : WellFormed s) (p o : ℕ) (m : mark s p ≡ some o) where
  mark_of_detach : (q k : ℕ) → mark (detach s p) q ≡ some k → mark s q ≡ some k
  mark_of_detach q k h = ground (arith, mark-detach s p q, h)

  -- A free block that is taken off its list leaves the allocator well formed.
  pub detach-WellFormed : WellFormed (detach s p)
  detach-WellFormed = record {
    lists = _;
    holds = detach-Holds v.holds (zone_at p) o p (v.holds.complete p o m);
    small = rw (count-list_remove s p) v.small;
    fits = λ q k h. rw (count-list_remove s p) (v.fits q k (mark_of_detach q k h));
    disjoint = λ q k q' k' a h h' i i'.
        v.disjoint q k q' k' a (mark_of_detach q k h) (mark_of_detach q' k' h') i i';
  }

  -- It takes just its own frames with it.
  pub detach-Adds : Adds (InBlock p o) (detach s p) s
  detach-Adds = record {
    keeps = λ q (a, k, h, i, j). (a, k, mark_of_detach a k h, i, j);
    gains = λ q i. (p, o, m, i.0, i.1);
    only = λ q (a, k, h, i, j). elim (Bool-cases (p == a)) [
      | inl e ↦ ground (arith, mark-detach s p a, h)
      | inr e ↦ inl (a, k, ground (arith, mark-detach s p a), i, j)
    ];
    fresh = λ q i (a, k, h, j, l).
        ground
          (arith, mark-detach s p a, h, v.disjoint p o a k q m (mark_of_detach a k h) i (j, l));
  }

module _ {s : Pmm} (v : WellFormed s) (z : Zone) (p o : ℕ) (f : Fits s.pfn_count p o)
    (zone : zone_at p ≡ z) (fresh : (q : ℕ) → InBlock p o q → ¬ Covered s q) where
  unmarked : mark s p ≡ none
  unmarked = elim (Option-cases (mark s p)) [
    | inl e ↦ e
    | inr (k, e) ↦
        absurd (
          fresh p (omega (arith, one-le-pow o)) (p, k, e, omega arith, omega (arith, one-le-pow k)))
  ]

  push_cases :
      (q k : ℕ) → mark (list_push s z o p) q ≡ some k → ((p ≡ q) × (o ≡ k)) ⊎ (mark s q ≡ some k)
  push_cases q k h = ground (arith, h, mark-list_push s z o p q)

  disjoint_push :
      (q k q' k' a : ℕ)
      → mark (list_push s z o p) q ≡ some k
      → mark (list_push s z o p) q' ≡ some k'
      → InBlock q k a
      → InBlock q' k' a
      → q ≡ q'
  disjoint_push q k q' k' a h h' i i' = elim (push_cases q k h) [
    | inl (e, d) ↦ elim (push_cases q' k' h') [
      | inl (e', d') ↦ sym e ∙ e'
      | inr n' ↦
          absurd
            (fresh a (subst₂ (λ x y. InBlock x y a) (sym e) (sym d) i) (q', k', n', i'.0, i'.1))
    ]
    | inr n ↦ elim (push_cases q' k' h') [
      | inl (e', d') ↦
          absurd (fresh a (subst₂ (λ x y. InBlock x y a) (sym e') (sym d') i') (q, k, n, i.0, i.1))
      | inr n' ↦ v.disjoint q k q' k' a n n' i i'
    ]
  ]

  Fits-push : (q k : ℕ) → mark (list_push s z o p) q ≡ some k → Fits s.pfn_count q k
  Fits-push q k h = elim (push_cases q k h) [
    | inl (e, d) ↦ subst₂ (λ x y. Fits s.pfn_count x y) e d f
    | inr n ↦ v.fits q k n
  ]

  -- A block of frames that are not free, put on the list of its zone and order.
  pub list_push-WellFormed : WellFormed (list_push s z o p)
  list_push-WellFormed = record {
    lists = _;
    holds = list_push-Holds v.holds z o p unmarked zone;
    small = rw (count-list_push s z o p) v.small;
    fits = λ q k h. rw (count-list_push s z o p) (Fits-push q k h);
    disjoint = disjoint_push;
  }

  marked : mark (list_push s z o p) p ≡ some o
  marked = ground (arith, mark-list_push s z o p p)

  pub list_push-Adds : Adds (InBlock p o) s (list_push s z o p)
  list_push-Adds = record {
    keeps =
        λ q (a, k, h, i, j). (a, k, ground (arith, mark-list_push s z o p a, h, unmarked), i, j);
    gains = λ q i. (p, o, marked, i.0, i.1);
    only = λ q (a, k, h, i, j). elim (push_cases a k h) [
      | inl (e, d) ↦ inr (subst₂ (λ x y. InBlock x y q) (sym e) (sym d) (i, j))
      | inr n ↦ inl (a, k, n, i, j)
    ];
    fresh = fresh;
  }
