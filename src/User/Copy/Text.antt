-- ===== src/User/Copy/Text.antt =====
-- kernel/user/copy.c: the loop of `copy_string_from_user` over the chunks of a string.
use jnu.Base.{
  ℕ, zero, suc, ◌+◌, ◌-◌, ◌%◌, ◌^◌, ◌≤◌, ◌<◌, ◌≡◌, ◌≢◌, ◌⊎◌, inl, inr, refl, ap, subst, true, false,
  List, [], ◌∷◌, ◌++◌, length, ◌==◌, add64, ok, arith, min, Bool-cases, Result-cases,
}
use jnu.User.Copy.{
  page_size, PageTable, user_range_ok, user_range_mapped, copy_chunk, chunk_size, copy_string,
  copy_string_from_user,
}
use jnu.User.Copy.Range.{user_range_ok_iff}

-- The bytes of memory from `a` to the first 0, which is their last.
abbrev pub IsText : (ℕ → ℕ) → ℕ → List ℕ → Type 0
IsText memory a [] = ⊥
IsText memory a (b ∷ bs) =
    (b ≡ memory a) × (((b ≡ 0) × (bs ≡ [])) ⊎ ((b ≢ 0) × IsText memory (suc a) bs))

module _ (flags : PageTable) (memory : ℕ → ℕ) where
  chunk_found :
      (a n : ℕ)
      → (copy_chunk flags memory a n).1 ≡ true
      → IsText memory a (copy_chunk flags memory a n).0
        × (length (copy_chunk flags memory a n).0 ≤ n)
  unfolding copy_chunk
  chunk_found a zero h = cc
  chunk_found a (suc n) h = elim (Bool-cases (memory a == 0)) [
    | inl end ↦ rw end ((ground arith, inl (refl, refl)), omega arith)
    | inr more ↦
        let (text, short) = chunk_found (suc a) n (ground (arith, h)) in
        rw more ((refl, inr (λ z. ground arith, text)), omega arith)
  ]

  -- A chunk without a terminator is whole, and what follows it continues the text.
  chunk_more :
      (a n : ℕ) (rest : List ℕ)
      → (copy_chunk flags memory a n).1 ≡ false
      → IsText memory (a + n) rest
      → IsText memory a ((copy_chunk flags memory a n).0 ++ rest)
        × (length ((copy_chunk flags memory a n).0 ++ rest) ≡ n + length rest)
  unfolding copy_chunk
  chunk_more a zero rest h t =
      let same : a + 0 ≡ a = omega arith in (subst (λ p. IsText memory p rest) same t, omega arith)
  chunk_more a (suc n) rest h t = elim (Bool-cases (memory a == 0)) [
    | inl end ↦ ground arith
    | inr more ↦
        let same : a + suc n ≡ suc a + n = omega arith in
        let (text, long) =
          chunk_more (suc a) n rest (ground (arith, h))
            (subst (λ p. IsText memory p rest) same t) in
        rw more ((refl, inr (λ z. ground arith, text)), omega (arith, long))
  ]

  mapped_legal :
      (a size : ℕ) → user_range_mapped flags a size false ≡ ok tt → user_range_ok a size ≡ true
  unfolding user_range_mapped
  mapped_legal a size h = ground arith

  -- A chunk that has been checked does not wrap.
  no_wrap :
      (a size : ℕ)
      → a < 2 ^ 64
      → size ≤ page_size
      → user_range_mapped flags a size false ≡ ok tt
      → add64 a size ≡ a + size
  no_wrap a size ha hs h =
      ground (arith, (user_range_ok_iff a size ha (omega arith)).0 (mapped_legal a size h))

  copy_string-IsText :
      (n a room : ℕ) (bytes : List ℕ)
      → a < 2 ^ 64
      → copy_string flags n memory a room ≡ ok bytes
      → IsText memory a bytes × (length bytes ≤ room)
  unfolding copy_string chunk_size
  copy_string-IsText zero a room bytes ha h = cc
  copy_string-IsText (suc n) a room bytes ha h = elim (Bool-cases (room == 0)) [
    | inl full ↦ ground arith
    | inr space ↦ elim (Result-cases (user_range_mapped flags a size false)) [
      | inl (e, bad) ↦ ground arith
      | inr (_, good) ↦ elim (Bool-cases (copy_chunk flags memory a size).1) [
        | inl found ↦
            let same : (copy_chunk flags memory a size).0 ≡ bytes = ground arith in
            let (text, short) = chunk_found a size found in
            (subst (IsText memory a) same text, omega (arith, ap length same))
        | inr more ↦ elim (Result-cases (copy_string flags n memory (add64 a size) (room - size))) [
          | inl (e, bad) ↦ ground arith
          | inr (rest, next) ↦
              let same : (copy_chunk flags memory a size).0 ++ rest ≡ bytes = ground arith in
              let (text, short) =
                copy_string-IsText n (add64 a size) (room - size) rest (omega arith) next in
              let at = no_wrap a size ha (omega arith) good in
              let (whole, long) =
                chunk_more a size rest more (subst (λ p. IsText memory p rest) at text) in
              (subst (IsText memory a) same whole, omega (arith, ap length same))
        ]
      ]
    ]
  ]
    where
      size : ℕ
      size = min room (page_size - a % page_size)

  -- If `copy_string_from_user` from a 64-bit address succeeds, the bytes copied are those of
  -- memory from there up to and including the first terminator, and no more than `max`.
  pub copy_string_from_user-IsText :
      (usrc max : ℕ) (bytes : List ℕ)
      → usrc < 2 ^ 64
      → copy_string_from_user flags memory usrc max ≡ ok bytes
      → IsText memory usrc bytes × (length bytes ≤ max)
  unfolding copy_string_from_user
  copy_string_from_user-IsText usrc max bytes word h = elim (Bool-cases (max == 0)) [
    | inl empty ↦ ground arith
    | inr some_room ↦
        copy_string-IsText (suc max) usrc max bytes word (ground (arith, h, some_room))
  ]
