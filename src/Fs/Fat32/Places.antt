-- ===== src/Fs/Fat32/Places.antt =====
-- kernel/fs/fat32/file.c: where the bytes of a file are, as offsets go on.
use jnu.Base.{ℕ, suc, ◌+◌, ◌/◌, ◌%◌, ◌≤◌, ◌<◌, ◌≡◌, ◌≢◌, sym, subst, ◌⊎◌, inl, inr, arith}

-- The sizes of a cluster that a mount accepts: 1 to 128 sectors of 512 bytes, by powers of two.
abbrev pub IsSize : ℕ → Type 0
IsSize n =
    (n ≡ 512)
    ⊎ ((n ≡ 1024)
        ⊎ ((n ≡ 2048) ⊎ ((n ≡ 4096) ⊎ ((n ≡ 8192) ⊎ ((n ≡ 16384) ⊎ ((n ≡ 32768) ⊎ (n ≡ 65536)))))))

by_size :
    (P : ℕ → Type 0)
    → P 512
    → P 1024
    → P 2048
    → P 4096
    → P 8192
    → P 16384
    → P 32768
    → P 65536
    → (n : ℕ) → IsSize n
    → P n
by_size P a b c d e f g h n (inl q) = subst P (sym q) a
by_size P a b c d e f g h n (inr (inl q)) = subst P (sym q) b
by_size P a b c d e f g h n (inr (inr (inl q))) = subst P (sym q) c
by_size P a b c d e f g h n (inr (inr (inr (inl q)))) = subst P (sym q) d
by_size P a b c d e f g h n (inr (inr (inr (inr (inl q))))) = subst P (sym q) e
by_size P a b c d e f g h n (inr (inr (inr (inr (inr (inl q)))))) = subst P (sym q) f
by_size P a b c d e f g h n (inr (inr (inr (inr (inr (inr (inl q))))))) = subst P (sym q) g
by_size P a b c d e f g h n (inr (inr (inr (inr (inr (inr (inr q))))))) = subst P (sym q) h

abbrev OneSector : ℕ → Type 0
OneSector n =
    (cur j : ℕ)
    → cur % n % 512 + j < 512
    → ((cur + j) / n ≡ cur / n)
      × (((cur + j) % n ≡ cur % n + j)
          × (((cur % n + j) / 512 ≡ cur % n / 512) × ((cur % n + j) % 512 ≡ cur % n % 512 + j)))

-- The rest of a sector is in one cluster.
pub same_sector : (n : ℕ) → IsSize n → OneSector n
same_sector n size =
    by_size OneSector
      (λ cur j h. (omega (arith, h), (omega (arith, h), (omega (arith, h), omega (arith, h)))))
      (λ cur j h. (omega (arith, h), (omega (arith, h), (omega (arith, h), omega (arith, h)))))
      (λ cur j h. (omega (arith, h), (omega (arith, h), (omega (arith, h), omega (arith, h)))))
      (λ cur j h. (omega (arith, h), (omega (arith, h), (omega (arith, h), omega (arith, h)))))
      (λ cur j h. (omega (arith, h), (omega (arith, h), (omega (arith, h), omega (arith, h)))))
      (λ cur j h. (omega (arith, h), (omega (arith, h), (omega (arith, h), omega (arith, h)))))
      (λ cur j h. (omega (arith, h), (omega (arith, h), (omega (arith, h), omega (arith, h)))))
      (λ cur j h. (omega (arith, h), (omega (arith, h), (omega (arith, h), omega (arith, h))))) n
      size

abbrev OneStep : ℕ → Type 0
OneStep n =
    (cur chunk : ℕ)
    → 0 < chunk
    → cur % n % 512 + chunk ≤ 512
    → ((cur + chunk) % n ≡ 0 → (cur + chunk) / n ≡ suc (cur / n))
      × ((cur + chunk) % n ≢ 0 → (cur + chunk) / n ≡ cur / n)

-- The next sector is in the same cluster, or begins the next one.
pub next_sector : (n : ℕ) → IsSize n → OneStep n
next_sector n size =
    by_size OneStep (λ cur chunk i h. ((λ e. omega (arith, i, h, e)), λ e. omega (arith, i, h, e)))
      (λ cur chunk i h. ((λ e. omega (arith, i, h, e)), λ e. omega (arith, i, h, e)))
      (λ cur chunk i h. ((λ e. omega (arith, i, h, e)), λ e. omega (arith, i, h, e)))
      (λ cur chunk i h. ((λ e. omega (arith, i, h, e)), λ e. omega (arith, i, h, e)))
      (λ cur chunk i h. ((λ e. omega (arith, i, h, e)), λ e. omega (arith, i, h, e)))
      (λ cur chunk i h. ((λ e. omega (arith, i, h, e)), λ e. omega (arith, i, h, e)))
      (λ cur chunk i h. ((λ e. omega (arith, i, h, e)), λ e. omega (arith, i, h, e)))
      (λ cur chunk i h. ((λ e. omega (arith, i, h, e)), λ e. omega (arith, i, h, e))) n size
