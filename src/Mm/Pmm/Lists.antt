-- ===== src/Mm/Pmm/Lists.antt =====
-- kernel/mm/pmm.c: what stands on the free lists. `mark s p` is the order of the free block that
-- begins at frame `p`; `Holds` says that the list of a zone and an order holds exactly the blocks so marked.
pub mod Remove
pub mod Push
use jnu.Base.{
  ℕ, zero, suc, ◌≡◌, refl, sym, ap, ◌∙◌, ◌≢◌, ◌⊎◌, inl, inr, Bool, true, false, Option, none, some,
  List, [], ◌∷◌, ◌==◌, if◌then◌else◌, ◌&&◌, arith, mem, Distinct, erase, subst, ne_of_mem, ==_refl,
  Bool-cases, Option-cases, update, mem-erase_ne, mem-erase_self, erase-Distinct,
}
use jnu.Mm.Pmm.{
  Pmm, Pfn, Zone, dma, normal, same_zone, at_zone, list_remove, list_push, zone_of, pfn_to_pa,
  set_free,
}
use jnu.Mm.Pmm.Links.{
  Chain, links_to, Chain-unlink, Chain-push, Chain-same, next-list_remove, prev-list_remove,
  next-list_push, prev-list_push, prev-none_iff,
}

abbrev pub mark : Pmm → ℕ → Option ℕ
mark s p = if (s.pfn_table p).free then some (s.pfn_table p).order else none

abbrev pub zone_at : ℕ → Zone
zone_at p = zone_of (pfn_to_pa p)

-- The free lists as lists of frames.
abbrev pub Lists : Type 0
Lists = Zone → ℕ → List ℕ

pub record Holds (s : Pmm) (l : Lists) : Type 0 where
  pub chain : (z : Zone) (o : ℕ) → Chain s.pfn_table none (s.free_list_head z o) (l z o)
  pub distinct : (z : Zone) (o : ℕ) → Distinct (l z o)
  pub listed : (z : Zone) (o p : ℕ) → mem p (l z o) ≡ true → (mark s p ≡ some o) × (zone_at p ≡ z)
  pub complete : (p o : ℕ) → mark s p ≡ some o → mem p (l (zone_at p) o) ≡ true

-- `list_remove`, then the flag: what both callers do.
abbrev pub detach : Pmm → ℕ → Pmm
detach s p = set_free (list_remove s p) p false

abbrev pub without : Lists → Zone → ℕ → ℕ → Lists
without l z o p = at_zone l z (update (l z) o (erase p (l z o)))

abbrev pub with_block : Lists → Zone → ℕ → ℕ → Lists
with_block l z o p = at_zone l z (update (l z) o (p ∷ l z o))

pub mark-detach : (s : Pmm) (p q : ℕ) → mark (detach s p) q ≡ (if p == q then none else mark s q)
unfolding list_remove
mark-detach s p q = ground arith

pub mark-list_push :
    (s : Pmm) (z : Zone) (o p q : ℕ)
    → mark (list_push s z o p) q ≡ (if p == q then some o else mark s q)
unfolding list_push
mark-list_push s z o p q = ground arith

pub next-detach :
    (s : Pmm) (p q : ℕ)
    → ((detach s p).pfn_table q).next ≡ (
        if p == q
        then none
        else if links_to (s.pfn_table p).prev q
        then (s.pfn_table p).next
        else (s.pfn_table q).next)
next-detach s p q = ground (arith, next-list_remove s p q)

pub prev-detach :
    (s : Pmm) (p q : ℕ)
    → ((detach s p).pfn_table q).prev ≡ (
        if p == q
        then none
        else if links_to (s.pfn_table p).next q
        then (s.pfn_table p).prev
        else (s.pfn_table q).prev)
prev-detach s p q = ground (arith, prev-list_remove s p q)

pub head-detach :
    (s : Pmm) (p : ℕ) (y : Zone) (k : ℕ)
    → (detach s p).free_list_head y k ≡ elim (s.pfn_table p).prev [
      | none ↦
          at_zone s.free_list_head
            (zone_at p)
            (update (s.free_list_head (zone_at p)) (s.pfn_table p).order (s.pfn_table p).next)
            y
            k
      | some q ↦ s.free_list_head y k
    ]
unfolding list_remove
head-detach s p y k = ground arith

pub order_of_mark : (s : Pmm) (p : ℕ) {o : ℕ} → mark s p ≡ some o → (s.pfn_table p).order ≡ o
order_of_mark s p h = ground arith

-- The place of a list is its zone and order, or another one.
pub data Place (z : Zone) (o : ℕ) (y : Zone) (k : ℕ) : Type 0 where
  here : z ≡ y → o ≡ k → Place z o y k
  there : (same_zone z y && (o == k)) ≡ false → Place z o y k

pub place : (z : Zone) (o : ℕ) (y : Zone) (k : ℕ) → Place z o y k
place z o y k = elim (Bool-cases (same_zone z y && (o == k))) [
  | inl e ↦ here (zones z y (ground arith)) (ground arith)
  | inr e ↦ there e
]
  where
    zones : (a b : Zone) → same_zone a b ≡ true → a ≡ b
    zones dma dma h = refl
    zones normal normal h = refl
    zones dma normal h = cc
    zones normal dma h = cc

pub same_zone_refl : (z : Zone) → same_zone z z ≡ true
same_zone_refl dma = refl
same_zone_refl normal = refl

pub at_here {ℓ} :
    {A : Type ℓ} (f : Zone → ℕ → A) (z : Zone) (o : ℕ) (v : A)
    → at_zone f z (update (f z) o v) z o ≡ v
at_here f z o v = rw (same_zone_refl z, ==_refl o)

pub at_there {ℓ} :
    {A : Type ℓ} (f : Zone → ℕ → A) (z : Zone) (o : ℕ) (v : A) (y : Zone) (k : ℕ)
    → (same_zone z y && (o == k)) ≡ false
    → at_zone f z (update (f z) o v) y k ≡ f y k
at_there f dma o v dma k h = ground arith
at_there f normal o v normal k h = ground arith
at_there f dma o v normal k h = refl
at_there f normal o v dma k h = refl

-- A frame is on one list at most.
pub same_list :
    {s : Pmm} {l : Lists} (v : Holds s l) (z : Zone) (o : ℕ) (y : Zone) (k q : ℕ)
    → mem q (l z o) ≡ true
    → mem q (l y k) ≡ true
    → (z ≡ y) × (o ≡ k)
same_list v z o y k q m n = ground (arith, v.listed z o q m, v.listed y k q n)

pub not_same_place :
    (z : Zone) (o : ℕ) (y : Zone) (k : ℕ) → (same_zone z y && (o == k)) ≡ false → z ≡ y → o ≡ k → ⊥
not_same_place dma o dma k h e e' = ground arith
not_same_place normal o normal k h e e' = ground arith
not_same_place dma o normal k h e e' = cc
not_same_place normal o dma k h e e' = cc
