-- ===== src/Mm/Pmm/Lists/Remove.antt =====
-- kernel/mm/pmm.c: taking a block off its list.
use jnu.Base.{
  ℕ, ◌≡◌, inl, inr, true, false, none, ◌==◌, ◌&&◌, if◌then◌else◌, arith, mem, Distinct, erase,
  subst, ==_refl, Bool-cases, Option-cases, eq_false_of, mem-erase_ne, mem-erase_self,
  erase-Distinct,
}
use jnu.Mm.Pmm.{Pmm, Zone, same_zone}
use jnu.Mm.Pmm.Links.{
  Chain, links_to, Chain-unlink, Chain-same, prev-none_iff, next-mem, prev-mem, links_to-eq,
}
use jnu.Mm.Pmm.Lists.{
  zone_at, Lists, Holds, detach, without, mark-detach, next-detach, prev-detach, head-detach,
  order_of_mark, Place, here, there, place, at_here, at_there, same_list, not_same_place,
}

module _ {s : Pmm} {l : Lists} (v : Holds s l) (z : Zone) (o p : ℕ) (m : mem p (l z o) ≡ true) where
  zone : zone_at p ≡ z
  zone = (v.listed z o p m).1

  order : (s.pfn_table p).order ≡ o
  order = order_of_mark s p (v.listed z o p m).0

  neighbour-prev : (q : ℕ) → links_to (s.pfn_table p).prev q ≡ true → mem q (l z o) ≡ true
  neighbour-prev q h =
      elim (prev-mem s.pfn_table (s.free_list_head z o) (l z o) p (v.chain z o) m) [
        | inl (_, e) ↦ ground arith
        | inr (q', e, k) ↦ ground arith
      ]

  neighbour-next : (q : ℕ) → links_to (s.pfn_table p).next q ≡ true → mem q (l z o) ≡ true
  neighbour-next q h =
      next-mem s.pfn_table none (s.free_list_head z o) (l z o) p q (v.chain z o) m
        (links_to-eq (s.pfn_table p).next q h)

  -- A member of another list keeps its links.
  other_links :
      (y : Zone) (k q : ℕ)
      → (same_zone z y && (o == k)) ≡ false
      → mem q (l y k) ≡ true
      → (((detach s p).pfn_table q).next ≡ (s.pfn_table q).next)
        × (((detach s p).pfn_table q).prev ≡ (s.pfn_table q).prev)
  other_links y k q far n =
      let no_p : (p == q) ≡ false =
        eq_false_of _ λ h. apart (subst (λ a. mem a (l z o) ≡ true) (ground arith) m) in
      let no_prev = eq_false_of _ λ h. apart (neighbour-prev q h) in
      let no_next = eq_false_of _ λ h. apart (neighbour-next q h) in
      (rw (next-detach s p q, no_p, no_prev), rw (prev-detach s p q, no_p, no_next))
    where
      apart : mem q (l z o) ≡ true → ⊥
      apart h = let (e, e') = same_list v z o y k q h n in not_same_place z o y k far e e'

  head_here :
      (detach s p).free_list_head z o
      ≡ (if links_to (s.free_list_head z o) p then (s.pfn_table p).next else s.free_list_head z o)
  head_here = elim (prev-none_iff s.pfn_table (s.free_list_head z o) (l z o) p (v.chain z o) m) [
    | inl (e, e') ↦
        rw (head-detach s p z o, e', zone, order, e, ==_refl p)
          (at_here s.free_list_head z o (s.pfn_table p).next)
    | inr (q, e, e') ↦ rw (head-detach s p z o, e, e')
  ]

  head_there :
      (y : Zone) (k : ℕ)
      → (same_zone z y && (o == k)) ≡ false
      → (detach s p).free_list_head y k ≡ s.free_list_head y k
  head_there y k far = rw (head-detach s p y k) (elim (Option-cases (s.pfn_table p).prev) [
    | inl e ↦ rw (e, zone, order) (at_there s.free_list_head z o (s.pfn_table p).next y k far)
    | inr (q, e) ↦ rw e
  ])

  Chain-here : Chain (detach s p).pfn_table none ((detach s p).free_list_head z o) (erase p (l z o))
  Chain-here = rw head_here (
      Chain-unlink s.pfn_table (detach s p).pfn_table p (next-detach s p) (prev-detach s p) none
        (s.free_list_head z o) (l z o) (v.chain z o) (v.distinct z o) m tt)

  Chain-at :
      (y : Zone) (k : ℕ)
      → Place z o y k
      → Chain (detach s p).pfn_table none ((detach s p).free_list_head y k) (without l z o p y k)
  Chain-at y k (here e e') = rw (← e, ← e', at_here l z o (erase p (l z o))) Chain-here
  Chain-at y k (there far) =
      rw (head_there y k far, at_there l z o (erase p (l z o)) y k far)
        (Chain-same s.pfn_table (detach s p).pfn_table none (s.free_list_head y k) (l y k)
          (λ q n. other_links y k q far n) (v.chain y k))

  Distinct-at : (y : Zone) (k : ℕ) → Place z o y k → Distinct (without l z o p y k)
  Distinct-at y k (here e e') =
      rw (← e, ← e', at_here l z o (erase p (l z o))) (erase-Distinct p (l z o) (v.distinct z o))
  Distinct-at y k (there far) = rw (at_there l z o (erase p (l z o)) y k far) (v.distinct y k)

  -- The lists lose `p` and nothing else.
  pub mem-without :
      (y : Zone) (k q : ℕ) → mem q (without l z o p y k) ≡ (if p == q then false else mem q (l y k))
  mem-without y k q = at_place (place z o y k)
    where
      at_place :
          Place z o y k → mem q (without l z o p y k) ≡ (if p == q then false else mem q (l y k))
      at_place (here e e') =
          rw (← e, ← e', at_here l z o (erase p (l z o)))
            (ground (arith, mem-erase_ne p q (l z o), mem-erase_self p (l z o) (v.distinct z o)))
      at_place (there far) =
          rw (at_there l z o (erase p (l z o)) y k far) (elim (Bool-cases (p == q)) [
            | inl same ↦ rw same (
                eq_false_of _ λ n.
                  let (e, e') = same_list v z o y k p m (ground (arith, n)) in
                  not_same_place z o y k far e e')
            | inr ne ↦ rw ne
          ])

  -- If the free lists hold exactly the blocks that the table marks, then `list_remove` of a
  -- frame that stands on a list, with its free flag cleared, takes it out of that list and
  -- leaves the others, and the lists hold exactly the marked blocks again.
  pub detach-Holds : Holds (detach s p) (without l z o p)
  detach-Holds = record {
    chain = λ y k. Chain-at y k (place z o y k);
    distinct = λ y k. Distinct-at y k (place z o y k);
    listed = λ y k q n. ground (arith, n, mem-without y k q, mark-detach s p q, v.listed y k q);
    complete =
        λ q k h. ground (arith, h, mem-without (zone_at q) k q, mark-detach s p q, v.complete q k);
  }
