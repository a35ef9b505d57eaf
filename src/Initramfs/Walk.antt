-- ===== src/Initramfs/Walk.antt =====
-- kernel/initramfs/initramfs.c: the walks over the whole archive.
use jnu.Base.{
  ℕ, zero, suc, ◌+◌, ◌^◌, ◌≤◌, ◌<◌, ◌≡◌, refl, ap, Bool, true, false, Option, none, some, List,
  length, ◌==◌, arith, Result, ok, err, Errno, einval, enoent, enodev, ◌↔◌, Bool-cases, inl, inr,
}
use jnu.Initramfs.Cpio.{Access, Entry, next}
use jnu.Initramfs.Cpio.Safe.{Ensures, Found, Located, next-Located, same_bytes-safe}
use jnu.Initramfs.{
  Initrd, skip_slash, path_match, count_entries, find_entry, initramfs_init, initramfs_lookup,
  loaded,
}

-- What a call of the parser in the middle of a walk may give.
data Step (base : List ℕ) (off : ℕ) (r : Access (Option Entry)) : Type 0 where
  failed : (e : Errno) → r ≡ some (err e) → Step base off r
  ended : r ≡ some (ok none) → Step base off r
  found : (e : Entry) → r ≡ some (ok (some e)) → Located base off e → Step base off r

step : (base : List ℕ) (off : ℕ) → length base < 2 ^ 63 → Step base off (next base off)
step base off small = go (next base off) (next-Located base off small)
  where
    go : (r : Access (Option Entry)) → Ensures (Found base off) r → Step base off r
    go none h = elim h [ ]
    go (some (err e)) h = failed e refl
    go (some (ok none)) h = ended refl
    go (some (ok (some e))) h = found e refl (h e refl)

-- Each round moves forward, so as many rounds as the archive has bytes are enough.
count_entries-total :
    (n : ℕ) (base : List ℕ) (off files : ℕ)
    → length base < 2 ^ 63
    → off ≤ length base
    → length base < n + off
    → (r : Result ℕ) × (count_entries n base off files ≡ some r)
unfolding count_entries
count_entries-total zero base off files small h k = absurd (omega arith)
count_entries-total (suc n) base off files small h k = elim (step base off small) [
  | failed e eq ↦ (err e, rw (eq, count_entries))
  | ended eq ↦ (ok files, rw (eq, count_entries))
  | found e eq l ↦
      let (r, rest) =
        count_entries-total n base e.next_off (files + 1) small l.within
          (omega (arith, l.name, l.data_behind, l.next_behind)) in
      (r, rw (eq, count_entries) rest)
]

path_match-total :
    (base : List ℕ) (off : ℕ) (e : Entry) (path : List ℕ)
    → Located base off e
    → (b : Bool) × (path_match base e path ≡ some b)
unfolding path_match
path_match-total base off e path l = elim (Bool-cases (length (skip_slash path) == e.name_len)) [
  | inl same ↦
      let (b, eq) =
        same_bytes-safe base e.name_off (skip_slash path)
          (ground (arith, same, l.data_behind, l.next_behind, l.within)) in
      (b, rw (same, path_match) eq)
  | inr other ↦ (false, rw (other, path_match))
]

find_entry-total :
    (n : ℕ) (base : List ℕ) (off : ℕ) (path : List ℕ)
    → length base < 2 ^ 63
    → off ≤ length base
    → length base < n + off
    → (r : Result Entry) × (find_entry n base off path ≡ some r)
unfolding find_entry
find_entry-total zero base off path small h k = absurd (omega arith)
find_entry-total (suc n) base off path small h k = elim (step base off small) [
  | failed e eq ↦ (err e, rw (eq, find_entry))
  | ended eq ↦ (err enoent, rw (eq, find_entry))
  | found e eq l ↦
      let (r, rest) =
        find_entry-total n base e.next_off path small l.within
          (omega (arith, l.name, l.data_behind, l.next_behind)) in
      let (b, m) = path_match-total base off e path l in
      elim (Bool-cases b) [
        | inl hit ↦ (ok e, rw (eq, find_entry, m, hit))
        | inr miss ↦ (r, rw (eq, find_entry, m, miss) rest)
      ]
]

-- What a call leaves: an empty archive is refused and changes nothing, any other is kept, and is
-- ready exactly if the call succeeds.
pub record Loading (i : Initrd) (base : List ℕ) (j : Initrd) (r : Result ℕ) : Type 0 where
  pub refused : length base ≡ 0 → (j ≡ i) × (r ≡ err einval)
  pub kept : 0 < length base → j.bytes ≡ base
  pub marked : 0 < length base → (j.ready ≡ true) ↔ ((files : ℕ) × (r ≡ ok files))

-- From any state and for an archive shorter than 2 ^ 63 bytes, `initramfs_init` reads no byte
-- outside the archive and ends within its fuel; an empty archive is refused with `EINVAL` and
-- the state stays; any other is kept, and is ready exactly if the call succeeds.
pub initramfs_init-total :
    (i : Initrd) (base : List ℕ)
    → length base < 2 ^ 63
    → (j : Initrd) × (r : Result ℕ) × (initramfs_init i base ≡ some (j, r)) × Loading i base j r
unfolding initramfs_init
initramfs_init-total i base small = elim (Bool-cases (length base == 0)) [
  | inl empty ↦ (
    i,
    err einval,
    rw empty refl,
    record {
      refused = λ _. (refl, refl);
      kept = λ full. absurd (ground (arith, full, empty));
      marked = λ full. absurd (ground (arith, full, empty));
    },
  )
  | inr full ↦
      let (r, run) =
        count_entries-total (suc (length base)) base 0 0 small (omega arith) (omega arith) in
      rw full (finish r (λ z. ground (arith, z, full)) run)
]
  where
    finish :
        (r : Result ℕ)
        → (length base ≡ 0 → ⊥)
        → count_entries (suc (length base)) base 0 0 ≡ some r
        → (j : Initrd) × (q : Result ℕ) × (loaded base (count_entries (suc (length base)) base 0 0)
            ≡ some (j, q))
          × Loading i base j q
    finish (err e) full run = (
      record { bytes = base; ready = false },
      err e,
      ap (loaded base) run,
      record {
        refused = λ z. absurd (full z);
        kept = λ _. refl;
        marked = λ _. (λ h. cc, λ (n, h). cc);
      },
    )
    finish (ok n) full run = (
      record { bytes = base; ready = true },
      ok n,
      ap (loaded base) run,
      record {
        refused = λ z. absurd (full z);
        kept = λ _. refl;
        marked = λ _. (λ h. (n, refl), λ h. refl);
      },
    )

-- For an archive shorter than 2 ^ 63 bytes and every path, `initramfs_lookup` reads no byte
-- outside the archive and ends within its fuel.
pub initramfs_lookup-total :
    (i : Initrd) (path : List ℕ)
    → length i.bytes < 2 ^ 63
    → (r : Result Entry) × (initramfs_lookup i path ≡ some r)
unfolding initramfs_lookup
initramfs_lookup-total i path small = elim (Bool-cases i.ready) [
  | inl yes_ready ↦
      rw yes_ready
        (find_entry-total (suc (length i.bytes)) i.bytes 0 path small (omega arith) (omega arith))
  | inr not_ready ↦ rw not_ready (err enodev, refl)
]
