-- ===== src/Mm/Space/Clone/References.antt =====
-- kernel/mm/clone_space.c: the references that a copy takes.
use jnu.Base.{
  ℕ, ◌+◌, ◌≤◌, ◌<◌, ◌≡◌, refl, ap, ◌∙◌, true, false, List, [], ◌∷◌, ◌==◌, if◌then◌else◌, arith,
  done, then_run, mem,
}
use jnu.Mm.Pmm.{Pmm, pa_to_pfn, set_refcount}
use jnu.Mm.Pmm.Refs.{user_page_ok, get_user_page}
use jnu.Mm.Space.Clone.{take_references}

abbrev pub count_of : Pmm → ℕ → ℕ
count_of p f = (p.pfn_table f).refcount

-- How many of the pages are frame `f`.
abbrev pub times : ℕ → List ℕ → ℕ
times f [] = 0
times f (a ∷ pages) = (if pa_to_pfn a == f then 1 else 0) + times f pages

-- Every page is one in use that has a reference, and no count comes to more than fits.
pub record Referable (p : Pmm) (pages : List ℕ) : Type 0 where
  pub used :
      (a : ℕ) → mem a pages ≡ true → (user_page_ok p a ≡ true) × (0 < count_of p (pa_to_pfn a))
  pub fits : (f : ℕ) → 0 < times f pages → count_of p f + times f pages ≤ 0xFFFF

got_one :
    (p : Pmm) (a : ℕ)
    → user_page_ok p a ≡ true
    → 0 < count_of p (pa_to_pfn a)
    → count_of p (pa_to_pfn a) < 0xFFFF
    → get_user_page p a ≡ done (set_refcount p (pa_to_pfn a) (count_of p (pa_to_pfn a) + 1))
unfolding get_user_page
got_one p a k i j =
    let low : (count_of p (pa_to_pfn a) == 0) ≡ false = ground (arith, i) in
    let high : (count_of p (pa_to_pfn a) == 0xFFFF) ≡ false = ground (arith, j) in
    rw (k, low, high) refl

still_ok : (p : Pmm) (f v a : ℕ) → user_page_ok (set_refcount p f v) a ≡ user_page_ok p a
unfolding user_page_ok
still_ok p f v a = ground arith

head-used :
    (p : Pmm) (a : ℕ) (pages : List ℕ)
    → Referable p (a ∷ pages)
    → (user_page_ok p a ≡ true)
      × (0 < count_of p (pa_to_pfn a))
      × (count_of p (pa_to_pfn a) < 0xFFFF)
head-used p a pages r =
    let (k, i) = r.used a (ground arith) in (k, i, ground (arith, r.fits (pa_to_pfn a)))

tail-Referable :
    (p : Pmm) (a : ℕ) (pages : List ℕ)
    → Referable p (a ∷ pages)
    → Referable (set_refcount p (pa_to_pfn a) (count_of p (pa_to_pfn a) + 1)) pages
tail-Referable p a pages r = record {
  used = λ b h.
      let (k, i) = r.used b (ground (arith, h)) in
      (still_ok p (pa_to_pfn a) (count_of p (pa_to_pfn a) + 1) b ∙ k, ground (arith, i));
  fits = λ f h. ground (arith, h, r.fits f);
}

-- The references are taken without a panic, and each frame's count rises by its number.
pub take_references-works :
    (p : Pmm) (pages : List ℕ)
    → Referable p pages
    → (q : Pmm) × (take_references p pages ≡ done q)
      × ((f : ℕ) → count_of q f ≡ count_of p f + times f pages)
unfolding take_references
take_references-works p [] r = (p, refl, λ f. omega arith)
take_references-works p (a ∷ pages) r =
    let (k, i, j) = head-used p a pages r in
    let p' = set_refcount p (pa_to_pfn a) (count_of p (pa_to_pfn a) + 1) in
    let (q, run, counts) = take_references-works p' pages (tail-Referable p a pages r) in
    (
      q,
      ap (λ x. then_run x λ y. take_references y pages) (got_one p a k i j) ∙ run,
      λ f. ground (arith, counts f),
    )
