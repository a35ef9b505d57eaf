-- ===== src/User/Copy/Range.antt =====
-- kernel/user/copy.c: which ranges of user memory are accepted.
use jnu.Base.{
  ℕ, zero, suc, ◌+◌, ◌*◌, ◌/◌, ◌^◌, ◌≤◌, ◌<◌, ◌≡◌, ◌↔◌, ◌⊎◌, inl, inr, refl, Bool, true, false, ltb,
  ◌==◌, if◌then◌else◌, add64, Result, ok, err, arith, Bool-cases, some, Option-cases, subst, efault,
}
use native.Mathlib.Decide.{dec_lt}
use jnu.User.Copy.{
  page_size, user_top, PageFlags, PageTable, range_end, user_range_ok, page_of, page_ok,
  check_pages, user_range_mapped,
}

-- For a 64-bit address and length, `user_range_ok` accepts a non-empty range exactly if it
-- begins above 0 and ends at `USER_TOP` at most, without wrapping, and an empty one exactly if
-- its address is below `USER_TOP`.
pub user_range_ok_iff :
    (a len : ℕ)
    → a < 2 ^ 64
    → len < 2 ^ 64
    → (user_range_ok a len ≡ true)
      ↔ (((len ≡ 0) × (a < user_top)) ⊎ ((0 < len) × (0 < a) × (a + len ≤ user_top)))
unfolding user_range_ok
user_range_ok_iff a len ha hl = (λ h. ground arith, λ h. ground arith)

passed :
    (b : Bool) → (if◌then◌else◌ {A = Result (Unit {0})} b (ok tt) (err efault)) ≡ ok tt → b ≡ true
passed true h = refl
passed false h = cc

module _ (flags : PageTable) where
  abbrev Passes : Bool → ℕ → Type 0
  Passes write a = page_ok flags write (page_of a) ≡ true

  -- With enough rounds, the loop accepts exactly if each page it starts a round at may be accessed.
  check_pages_iff :
      (write : Bool) (n k end : ℕ)
      → end ≤ k * page_size + n * page_size
      → (check_pages flags write n (k * page_size) end ≡ true)
        ↔ ((a : ℕ) → k * page_size ≤ a → a < end → Passes write a)
  unfolding check_pages page_of
  check_pages_iff write zero k end h = (λ _ a i j. absurd (omega arith), λ _. refl)
  check_pages_iff write (suc n) k end h =
      let next : k * page_size + page_size ≡ suc k * page_size = omega arith in
      let later : (check_pages flags write n (suc k * page_size) end ≡ true)
          ↔ ((a : ℕ) → suc k * page_size ≤ a → a < end → Passes write a) =
        check_pages_iff write n (suc k) end (omega arith) in
      elim (Bool-cases (ltb (k * page_size) end)) [
        | inl more ↦
            rw (more, next)
              (
                λ both a i j. elim (dec_lt a (suc k * page_size)) [
                  | yes near ↦
                      let same : k * page_size ≡ a / page_size * page_size = omega arith in
                      subst (λ p. page_ok flags write p ≡ true) same (ground (arith, both))
                  | no far ↦ later.0 (ground (arith, both)) a (omega arith) j
                ],
                λ all.
                    let same : k * page_size / page_size * page_size ≡ k * page_size =
                      omega arith in
                    let first =
                      subst (λ p. page_ok flags write p ≡ true) same
                        (all (k * page_size) (omega arith) (ground arith)) in
                    let rest = later.1 λ a i j. all a (omega arith) j in
                    ground (arith, first, rest),
              )
        | inr past ↦ rw past (λ _ a i j. absurd (ground arith), λ _. refl)
      ]

  range_mapped_iff :
      (a len : ℕ) (write : Bool)
      → a < 2 ^ 64
      → 0 < len
      → len < 2 ^ 64
      → (user_range_mapped flags a len write ≡ ok tt)
        ↔ ((user_range_ok a len ≡ true) × ((b : ℕ) → a ≤ b → b < a + len → Passes write b))
  unfolding user_range_mapped range_end page_of
  range_mapped_iff a len write ha hp hl = elim (Bool-cases (user_range_ok a len)) [
    | inl legal ↦
        let inside : a + len ≤ user_top = ground (arith, (user_range_ok_iff a len ha hl).0 legal) in
        let word : add64 a len ≡ a + len = omega arith in
        let zero_len : (len == 0) ≡ false = ground arith in
        let no_wrap : ltb (a + len) a ≡ false = ground arith in
        let (to, from) = check_pages_iff write (suc len) (a / page_size) (a + len) (omega arith) in
        rw (legal, zero_len, word, no_wrap)
          (
            λ h. (refl, λ b i j. to (passed _ h) b (omega arith) j),
            λ (_, all).
                let start = all a (omega arith) (omega arith) in
                let checked = from λ b i j. elim (dec_lt b a) [
                  | yes early ↦
                      let same : a / page_size ≡ b / page_size = omega arith in
                      subst (λ q. page_ok flags write (q * page_size) ≡ true) same start
                  | no late ↦ all b (omega arith) j
                ] in
                rw checked,
          )
    | inr illegal ↦ rw illegal (λ h. cc, λ (h, _). cc)
  ]

  -- The page that holds address `a` is mapped for user code, and writable if it is to be written.
  abbrev pub MayAccess : Bool → ℕ → Type 0
  MayAccess write a =
      (f : PageFlags) × (flags (page_of a) ≡ some f)
      × (f.user ≡ true)
      × (write ≡ true → f.write ≡ true)

  page_allows : (write : Bool) (a : ℕ) → Passes write a ↔ MayAccess write a
  unfolding page_ok
  page_allows write a = elim (Option-cases (flags (page_of a))) [
    | inl e ↦ rw (e, page_ok) (λ h. cc, λ (f, k, _, _). cc)
    | inr (f, e) ↦
        rw (e, page_ok)
          (
            λ h. (f, refl, ground (arith, h), λ w. ground (arith, h, w)),
            λ (g, k, u, w). ground (arith, k, u, w),
          )
  ]

  -- For a 64-bit address and a length above 0, `user_range_mapped` returns 0 exactly if
  -- `user_range_ok` accepts the range and every byte of it lies on a page that may be accessed,
  -- also written if that is asked.
  pub user_range_mapped_iff :
      (a len : ℕ) (write : Bool)
      → a < 2 ^ 64
      → 0 < len
      → len < 2 ^ 64
      → (user_range_mapped flags a len write ≡ ok tt)
        ↔ ((user_range_ok a len ≡ true) × ((b : ℕ) → a ≤ b → b < a + len → MayAccess write b))
  user_range_mapped_iff a len write ha hp hl =
      let (to, from) = range_mapped_iff a len write ha hp hl in
      (
        λ h. ((to h).0, λ b i j. (page_allows write b).0 ((to h).1 b i j)),
        λ (legal, all). from (legal, λ b i j. (page_allows write b).1 (all b i j)),
      )
