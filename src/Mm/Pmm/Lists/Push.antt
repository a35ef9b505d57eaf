-- ===== src/Mm/Pmm/Lists/Push.antt =====
-- kernel/mm/pmm.c: putting a block on its list.
use jnu.Base.{
  ℕ, ◌≡◌, sym, ap, ◌∙◌, inl, inr, true, false, none, some, ◌∷◌, ◌==◌, ◌&&◌, arith, mem, Distinct,
  Bool-cases, update, eq_false_of,
}
use mathlib.Core.Path.{subst₂}
use jnu.Mm.Pmm.{Pmm, Zone, same_zone, at_zone, list_push}
use jnu.Mm.Pmm.Links.{
  Chain, links_to, Chain-push, Chain-same, next-list_push, prev-list_push, head-mem,
}
use jnu.Mm.Pmm.Lists.{
  mark, zone_at, Lists, Holds, with_block, mark-list_push, Place, here, there, place, at_here,
  at_there, same_list, not_same_place,
}

module _ {s : Pmm} {l : Lists} (v : Holds s l) (z : Zone) (o p : ℕ) (m : mark s p ≡ none)
    (zone : zone_at p ≡ z) where
  abbrev pushed : Pmm
  pushed = list_push s z o p

  -- `p` is on no list, so no list begins with it.
  absent : (y : Zone) (k : ℕ) → mem p (l y k) ≡ false
  absent y k = eq_false_of _ λ n. ground (arith, v.listed y k p n)

  absent_head : links_to (s.free_list_head z o) p ≡ false
  absent_head = eq_false_of _ λ n. ground (
    arith,
    absent z o,
    head-mem s.pfn_table none (s.free_list_head z o) (l z o) p (v.chain z o) n,
  )

  head-push :
      (y : Zone) (k : ℕ)
      → pushed.free_list_head y k
        ≡ at_zone s.free_list_head z (update (s.free_list_head z) o (some p)) y k
  unfolding list_push
  head-push y k = ground arith

  other_links :
      (y : Zone) (k q : ℕ)
      → (same_zone z y && (o == k)) ≡ false
      → mem q (l y k) ≡ true
      → ((pushed.pfn_table q).next ≡ (s.pfn_table q).next)
        × ((pushed.pfn_table q).prev ≡ (s.pfn_table q).prev)
  other_links y k q far n = (
    rw (next-list_push s z o p q absent_head, other),
    rw (prev-list_push s z o p q absent_head, other, no_head),
  )
    where
      other : (p == q) ≡ false
      other = eq_false_of _ λ h. ground (arith, n, absent y k)

      no_head : links_to (s.free_list_head z o) q ≡ false
      no_head = eq_false_of _ λ h.
          let (e, e') =
            same_list v z o y k q
              (head-mem s.pfn_table none (s.free_list_head z o) (l z o) q (v.chain z o) h) n in
          not_same_place z o y k far e e'

  Chain-at :
      (y : Zone) (k : ℕ)
      → Place z o y k
      → Chain pushed.pfn_table none (pushed.free_list_head y k) (with_block l z o p y k)
  Chain-at y k (here e e') =
      rw
        (← e, ← e', head-push z o, at_here l z o (p ∷ l z o), at_here s.free_list_head z o (some p))
        (Chain-push s z o p (l z o) (v.chain z o) (v.distinct z o) (absent z o))
  Chain-at y k (there far) =
      rw
        (
          head-push y k,
          at_there s.free_list_head z o (some p) y k far,
          at_there l z o (p ∷ l z o) y k far,
        )
        (Chain-same s.pfn_table pushed.pfn_table none (s.free_list_head y k) (l y k)
          (λ q n. other_links y k q far n) (v.chain y k))

  Distinct-at : (y : Zone) (k : ℕ) → Place z o y k → Distinct (with_block l z o p y k)
  Distinct-at y k (here e e') =
      rw (← e, ← e', at_here l z o (p ∷ l z o)) (absent z o, v.distinct z o)
  Distinct-at y k (there far) = rw (at_there l z o (p ∷ l z o) y k far) (v.distinct y k)

  listed_at :
      (y : Zone) (k q : ℕ)
      → Place z o y k
      → mem q (with_block l z o p y k) ≡ true
      → (mark pushed q ≡ some k) × (zone_at q ≡ y)
  listed_at y k q (here e e') n = ground (
    arith,
    mark-list_push s z o p q,
    subst₂ (λ a b. mem q (with_block l z o p a b) ≡ true) (sym e) (sym e') n,
    ap (mem q) (at_here l z o (p ∷ l z o)),
    v.listed z o q,
  )
  listed_at y k q (there far) n = ground (
    arith,
    mark-list_push s z o p q,
    ap (mem q) (at_there l z o (p ∷ l z o) y k far),
    absent y k,
    n,
    v.listed y k q,
  )

  complete_at :
      (q k : ℕ)
      → Place z o (zone_at q) k
      → mark pushed q ≡ some k
      → mem q (with_block l z o p (zone_at q) k) ≡ true
  complete_at q k (here e e') h =
      rw (← e, ← e', at_here l z o (p ∷ l z o))
        (elim (Bool-cases (p == q)) [
          | inl same ↦ ground arith
          | inr ne ↦ ground (arith, h, mark-list_push s z o p q, v.complete q k)
        ])
  complete_at q k (there far) h =
      rw (at_there l z o (p ∷ l z o) (zone_at q) k far) (elim (Bool-cases (p == q)) [
        | inl same ↦
            let pq : p ≡ q = ground arith in
            let ok : o ≡ k = ground (arith, h, same, mark-list_push s z o p q) in
            absurd (not_same_place z o (zone_at q) k far (sym zone ∙ ap zone_at pq) ok)
        | inr ne ↦ ground (arith, h, mark-list_push s z o p q, v.complete q k)
      ])

  -- If the free lists hold exactly the blocks that the table marks, then `list_push` of a frame
  -- that is not marked, to the list of its own zone and any order, puts it at the front of that
  -- list and leaves the other lists, and the lists hold exactly the marked blocks again.
  pub list_push-Holds : Holds pushed (with_block l z o p)
  list_push-Holds = record {
    chain = λ y k. Chain-at y k (place z o y k);
    distinct = λ y k. Distinct-at y k (place z o y k);
    listed = λ y k q n. listed_at y k q (place z o y k) n;
    complete = λ q k h. complete_at q k (place z o (zone_at q) k) h;
  }
