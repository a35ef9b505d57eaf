-- ===== src/User/Lseek/Laws.antt =====
-- kernel/syscall/sys_lseek.c: which offsets a file can have.
use jnu.Base.{ℕ, ◌≤◌, ◌<◌, ◌^◌, ◌≡◌, ◌≢◌, ◌↔◌, ◌⊎◌, inl, inr, none, some, refl, sym, ◌∙◌, arith, ok}
use jnu.Base.Int.{ℤ, pos, ◌+ℤ◌}
use jnu.User.Fd.{chardev, File}
use jnu.User.Lseek.{
  to_i64, Whence, seek_set, seek_cur, seek_end, other, file_size, seek_base, new_offset, seek,
}

-- Where a file of `size` bytes is to stand after an `lseek`.
abbrev pub Lands : ℕ → File → ℤ → Whence → ℕ → Type 0
Lands size f off seek_set n = off ≡ pos n
Lands size f off seek_cur n = pos f.offset +ℤ off ≡ pos n
Lands size f off seek_end n = pos size +ℤ off ≡ pos n
Lands size f off other n = ⊥

add_zero : (i : ℤ) → pos 0 +ℤ i ≡ i
unfolding ◌+ℤ◌
add_zero i = ground arith

-- What is left to prove of one base.
abbrev At : (ℕ → ℕ) → File → ℤ → Whence → ℕ → ℤ → Type 0
At inode_size f off whence n b =
    (seek_base inode_size f whence ≡ some b)
    × (Lands (file_size inode_size f) f off whence n ↔ (b +ℤ off ≡ pos n))

bases :
    (inode_size : ℕ → ℕ) (f : File) (off : ℤ) (whence : Whence) (n : ℕ)
    → file_size inode_size f < 2 ^ 63
    → f.offset < 2 ^ 63
    → ((b : ℤ) × At inode_size f off whence n b)
      ⊎ ((seek_base inode_size f whence ≡ none)
          × (Lands (file_size inode_size f) f off whence n → ⊥))
unfolding seek_base to_i64
bases inode_size f off seek_set n small low =
    inl (pos 0, (refl, (λ h. add_zero off ∙ h, λ h. sym (add_zero off) ∙ h)))
bases inode_size f off seek_cur n small low =
    inl (pos f.offset, (ground (arith, low), (λ h. h, λ h. h)))
bases inode_size f off seek_end n small low =
    inl (pos (file_size inode_size f), (ground (arith, small), (λ h. h, λ h. h)))
bases inode_size f off other n small low = inr (refl, λ h. h)

module _ (inode_size : ℕ → ℕ) where
  -- For a file whose size and offset are below 2 ^ 63, `lseek` returns `n` and leaves the file
  -- with the offset `n` and otherwise as it was exactly if the file is no character device, `n`
  -- is at most its size, and `n` is the offset asked for, counted from the start, from the
  -- file's offset or from its size as `whence` says.
  pub seek_iff :
      (f : File) (off : ℤ) (whence : Whence) (n : ℕ)
      → file_size inode_size f < 2 ^ 63
      → f.offset < 2 ^ 63
      → (seek inode_size f off whence ≡ (record f { offset = n }, ok n)) ↔ (
          (f.type ≢ chardev)
          × (n ≤ file_size inode_size f)
          × Lands (file_size inode_size f) f off whence n)
  unfolding seek new_offset to_i64
  seek_iff f off whence n small low = elim (bases inode_size f off whence n small low) [
    | inr (e, never) ↦ (λ h. absurd (ground (arith, h, e)), λ (_, _, l). absurd (never l))
    | inl (b, (e, (there, back))) ↦ (
      λ h. (ground (arith, h, e), ground (arith, h, e), back (ground (arith, h, e))),
      λ (nc, le, l). let sum = there l in ground (arith, e, nc, le, sum, small),
    )
  ]

  -- If the size of a file is below 2 ^ 63 and its offset is at most its size, then so it is
  -- after any `lseek`.
  pub seek-offset :
      (f : File) (off : ℤ) (whence : Whence)
      → file_size inode_size f < 2 ^ 63
      → f.offset ≤ file_size inode_size f
      → (seek inode_size f off whence).0.offset
        ≤ file_size inode_size (seek inode_size f off whence).0
  unfolding seek new_offset to_i64 file_size
  seek-offset f off whence small h = ground arith
