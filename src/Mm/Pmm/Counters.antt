-- ===== src/Mm/Pmm/Counters.antt =====
-- kernel/mm/pmm.c: the page counters under allocation and freeing.
use jnu.Base.{
  ℕ, zero, suc, ◌+◌, ◌-◌, ◌^◌, ◌≤◌, ◌<◌, ◌≡◌, refl, sym, ap, ◌⊎◌, inl, inr, true, false, Option,
  none, some, ltb, leb, add64, done, arith, Bool-cases, Option-cases, subst, min, pow_double,
  pow_order,
}
use native.Mathlib.Nat.{add-suc, add-zero}
use jnu.Mm.Pmm.{
  Pmm, Zone, dma, normal, Stats, max_order, pa_to_pfn, zone_of, list_push, list_remove, list_pop,
  stats_add, stats_sub, set_free,
}
use jnu.Mm.Pmm.Alloc.{
  seek, split, take_block, cut_block, alloc_from, alloc_pages_locked, alloc_pages, is_none, to_pa,
}
use jnu.Mm.Pmm.Free.{
  coalesce, absorb, put_block, can_merge, free_pages_locked, free_pages, buddy_pfn, clear,
  free_validate_locked,
}

stats-list_push : (s : Pmm) (z : Zone) (o p : ℕ) → (list_push s z o p).stats ≡ s.stats
unfolding list_push
stats-list_push s z o p = ground arith

stats-list_remove : (s : Pmm) (p : ℕ) → (list_remove s p).stats ≡ s.stats
unfolding list_remove
stats-list_remove s p = ground arith

abbrev other : Zone → Zone
other dma = normal
other normal = dma

-- The counters `a` show `d` more free pages than `b`, all of them in zone `z`.
pub record More (d : ℕ) (z : Zone) (a b : Stats) : Type 0 where
  pub pages : a.free_pages ≡ add64 b.free_pages d
  pub own : a.zone_free z ≡ add64 (b.zone_free z) d
  pub rest : a.zone_free (other z) ≡ b.zone_free (other z)
  pub totals : a.total_pages ≡ b.total_pages

pub record IsWord (a : Stats) : Type 0 where
  pub pages : a.free_pages < 2 ^ 64
  pub dmas : a.zone_free dma < 2 ^ 64
  pub normals : a.zone_free normal < 2 ^ 64

stats_add-More : (a : Stats) (z : Zone) (o : ℕ) → More (2 ^ o) z (stats_add a z o) a
unfolding stats_add
stats_add-More a dma o = ground arith
stats_add-More a normal o = ground arith

stats_add-IsWord : {a : Stats} (z : Zone) (o : ℕ) → IsWord a → IsWord (stats_add a z o)
unfolding stats_add
stats_add-IsWord dma o w = ground arith
stats_add-IsWord normal o w = ground arith

stats_sub-IsWord : {a : Stats} (z : Zone) (o : ℕ) → IsWord a → IsWord (stats_sub a z o)
unfolding stats_sub
stats_sub-IsWord dma o w = ground arith
stats_sub-IsWord normal o w = ground arith

stats_sub-More :
    {a : Stats} (z : Zone) (o : ℕ) → o < 11 → IsWord a → More (2 ^ o) z a (stats_sub a z o)
unfolding stats_sub
stats_sub-More dma o h w = ground (arith, pow_order o h)
stats_sub-More normal o h w = ground (arith, pow_order o h)

More-trans :
    {d e f : ℕ} (z : Zone) {a b c : Stats} → f ≡ d + e → More d z a b → More e z b c → More f z a c
More-trans dma h m n = ground arith
More-trans normal h m n = ground arith

-- If `a` shows `d + e` more than `b`, and `c` shows `e` more than `b`, then `a` shows `d` more than `c`.
More-between :
    {d e f : ℕ} (z : Zone) {a b c : Stats}
    → f ≡ d + e
    → IsWord a
    → More f z a b
    → More e z c b
    → More d z a c
More-between dma h w m n = ground arith
More-between normal h w m n = ground arith

split-More :
    (z : Zone) (pfn order k : ℕ) (s : Pmm) {a : Stats}
    → IsWord a
    → More (2 ^ (order + k)) z a s.stats
    → More (2 ^ order) z a (split s z pfn order k).stats
unfolding split
split-More z pfn order zero s {a} w m = subst (λ n. More (2 ^ n) z a s.stats) (add-zero order) m
split-More z pfn order (suc k) s {a} w m = split-More z pfn order k _ w (
    More-between z double w m (
      subst (λ st. More (2 ^ (order + k)) z (stats_add st z (order + k)) s.stats)
        (sym (stats-list_push s z (order + k) _)) (stats_add-More s.stats z (order + k))))
  where
    double : 2 ^ (order + suc k) ≡ 2 ^ (order + k) + 2 ^ (order + k)
    double = rw (add-suc order k) (omega (arith, pow_double (order + k)))

pub pop_head :
    (s : Pmm) (z : Zone) (o : ℕ) {p : ℕ}
    → s.free_list_head z o ≡ some p
    → list_pop s z o ≡ (set_free (list_remove s p) p false, some p)
unfolding list_pop
pop_head s z o e = rw (e, list_pop)

pub take_block-eq :
    (s : Pmm) (z : Zone) (order o p : ℕ)
    → s.free_list_head z o ≡ some p
    → take_block s z order o ≡ cut_block z order o (set_free (list_remove s p) p false, some p)
unfolding take_block
take_block-eq s z order o p e = ap (cut_block z order o) (pop_head s z o e)

-- A block of order `o` is taken, and all but `2 ^ order` of its pages come back.
take_block-More :
    (s : Pmm) (z : Zone) (order o p : ℕ)
    → order ≤ o
    → o < 11
    → IsWord s.stats
    → s.free_list_head z o ≡ some p
    → More (2 ^ order) z s.stats (take_block s z order o).0.stats
unfolding cut_block
take_block-More s z order o p h k w e = rw (take_block-eq s z order o p e) (
    split-More z p order (o - order) _ w (
      subst (λ n. More (2 ^ n) z s.stats (stats_sub (list_remove s p).stats z o)) gap
        (rw (stats-list_remove s p) (stats_sub-More z o k w))))
  where
    gap : o ≡ order + (o - order)
    gap = omega arith

-- The search ends at an order that has a block, or at the last order.
pub seek_bounds : (head : ℕ → Option ℕ) (n o : ℕ) → (o ≤ seek head n o) × (seek head n o ≤ o + n)
unfolding seek
seek_bounds head zero o = omega arith
seek_bounds head (suc n) o = ground (arith, seek_bounds head n (suc o))

pub seek_found :
    (head : ℕ → Option ℕ) (n o : ℕ)
    → seek head n o < o + n
    → (p : ℕ) × (head (seek head n o) ≡ some p)
unfolding seek
seek_found head zero o h = absurd (omega arith)
seek_found head (suc n) o h = elim (Option-cases (head o)) [
  | inl e ↦ rw (e, is_none) (seek_found head n (suc o) (ground arith))
  | inr (p, e) ↦ (p, ground arith)
]

-- What a search in one zone gives.
alloc_from-More :
    (s : Pmm) (z : Zone) (order : ℕ) {t : Pmm} {p : Option ℕ}
    → order < 11
    → IsWord s.stats
    → alloc_from s z order ≡ some (t, p)
    → More (2 ^ order) z s.stats t.stats
unfolding alloc_from
alloc_from-More s z order {t} {p} h w e = elim (Bool-cases (ltb o max_order)) [
  | inl e1 ↦
      let (p', found) = seek_found head (max_order - order) order (ground arith) in
      ground (
        arith,
        e1,
        take_block-More s z order o p' (seek_bounds head (max_order - order) order).0 (ground arith)
            w found,
      )
  | inr e1 ↦ ground arith
]
  where
    head : ℕ → Option ℕ
    head = s.free_list_head z

    o : ℕ
    o = seek head (max_order - order) order

state-to_pa : (t : Pmm) (p : Option ℕ) → (to_pa (t, p)).0 ≡ t
state-to_pa t none = refl
state-to_pa t (some p) = refl

-- If the counters of free pages are 64-bit words, `pmm_alloc_pages` lowers those of all pages
-- and of one zone by `2 ^ order`, modulo the word size, and leaves the other zone's; or it
-- returns 0 and changes nothing.
pub alloc_pages-More :
    (s : Pmm) (order : ℕ)
    → IsWord s.stats
    → ((z : Zone) × More (2 ^ order) z s.stats (alloc_pages s order).0.stats)
      ⊎ (alloc_pages s order ≡ (s, 0))
unfolding alloc_pages alloc_pages_locked
alloc_pages-More s order w = elim (Bool-cases (leb max_order order)) [
  | inl big ↦ inr (rw big)
  | inr small ↦ rw small (elim (Option-cases (alloc_from s normal order)) [
    | inl e ↦
        rw (e, alloc_pages_locked)
          (elim (Option-cases (alloc_from s dma order)) [
            | inl e' ↦ inr (rw (e', alloc_pages_locked))
            | inr ((t, p), e') ↦
                rw (e', alloc_pages_locked, state-to_pa t p)
                  (inl (dma, alloc_from-More s dma order (ground arith) w e'))
          ])
    | inr ((t, p), e) ↦
        rw (e, alloc_pages_locked, state-to_pa t p)
          (inl (normal, alloc_from-More s normal order (ground arith) w e))
  ])
]

absorb-More :
    (s : Pmm) (z : Zone) (p o : ℕ)
    → o < 11
    → IsWord s.stats
    → More (2 ^ o) z s.stats (absorb s z p o).stats
unfolding absorb
absorb-More s z p o h w = rw (stats-list_remove s p) (stats_sub-More z o h w)

absorb-IsWord : (s : Pmm) (z : Zone) (p o : ℕ) → IsWord s.stats → IsWord (absorb s z p o).stats
unfolding absorb
absorb-IsWord s z p o w = rw (stats-list_remove s p) (stats_sub-IsWord z o w)

put_block-More :
    (s : Pmm) (z : Zone) (o p : ℕ)
    → IsWord s.stats
    → More (2 ^ o) z (put_block s z o p).stats s.stats × IsWord (put_block s z o p).stats
unfolding put_block
put_block-More s z o p w =
    rw (stats-list_push s z o p) (stats_add-More s.stats z o, stats_add-IsWord z o w)

-- Each merge takes `2 ^ order` pages off, and the rest of the loop puts twice as many back.
coalesce-More :
    (n : ℕ) (s : Pmm) (z : Zone) (o p : ℕ)
    → o + n < 11
    → IsWord s.stats
    → More (2 ^ o) z (coalesce n s z o p).stats s.stats × IsWord (coalesce n s z o p).stats
unfolding coalesce
coalesce-More zero s z o p h w = put_block-More s z o p w
coalesce-More (suc n) s z o p h w = elim (Bool-cases (can_merge s z (buddy_pfn p o) o)) [
  | inl e ↦
      let (more, word) =
        coalesce-More n (absorb s z (buddy_pfn p o) o) z (suc o) (min (buddy_pfn p o) p)
          (omega arith) (absorb-IsWord s z (buddy_pfn p o) o w) in
      rw e (
        More-between z (omega (arith, pow_double o)) word more
            (absorb-More s z (buddy_pfn p o) o (omega arith) w),
        word,
      )
  | inr e ↦ rw e (put_block-More s z o p w)
]

free_validate-lt : (s : Pmm) (pa order : ℕ) → free_validate_locked s pa order ≡ true → order < 11
unfolding free_validate_locked
free_validate-lt s pa order h = ground arith

-- If the counters of free pages are 64-bit words, a `pmm_free_pages` that does not panic raises
-- those of all pages and of the zone of the address by `2 ^ order`, modulo the word size, and
-- leaves the other zone's.
pub free_pages-More :
    (s t : Pmm) (pa order : ℕ)
    → IsWord s.stats
    → free_pages s pa order ≡ done t
    → More (2 ^ order) (zone_of pa) t.stats s.stats
unfolding free_pages free_pages_locked clear
free_pages-More s t pa order w e = elim (Bool-cases (free_validate_locked s pa order)) [
  | inl v ↦
      let same : free_pages_locked cleared pa order ≡ t = ground arith in
      subst {A = Pmm} (λ r. More (2 ^ order) (zone_of pa) r.stats s.stats) same
        (merged (free_validate-lt s pa order v)).0
  | inr v ↦ ground arith
]
  where
    cleared : Pmm
    cleared = clear s pa (2 ^ (12 + order))

    merged :
        order < 11
        → More (2 ^ order) (zone_of pa) (free_pages_locked cleared pa order).stats s.stats
          × IsWord (free_pages_locked cleared pa order).stats
    merged h =
        coalesce-More (max_order - suc order) cleared (zone_of pa) order (pa_to_pfn pa)
          (omega arith) w
