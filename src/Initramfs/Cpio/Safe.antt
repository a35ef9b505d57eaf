-- ===== src/Initramfs/Cpio/Safe.antt =====
-- kernel/initramfs/cpio_newc.c: which bytes of the archive the parser reads, and where an entry lies.
use jnu.Base.{
  ℕ, zero, suc, ◌+◌, ◌-◌, ◌%◌, ◌^◌, ◌≤◌, ◌<◌, ◌≡◌, refl, Bool, true, false, not, Option, none, some,
  List, [], ◌∷◌, length, get_elem?, leb, ltb, ◌==◌, if◌then◌else◌, arith, add64, subst, ok, err,
  Bool-cases, Option-cases, inl, inr, ◌&&◌,
}
use jnu.Initramfs.Cpio.{
  Access, ◌>>=◌, guard, Entry, Header, align4, checked_add, hexval, hex_digits, parse_hex8,
  same_bytes, memcmp, read, header_size, magic, trailer, read_header, locate, check_trailer, next,
}

-- The call reads within the archive, and a value that it returns satisfies `P`.
abbrev pub Ensures : {A : Type 0} → (A → Type 0) → Access A → Type 0
Ensures P none = ⊥
Ensures P (some (err e)) = Unit {0}
Ensures P (some (ok a)) = P a

pub bind :
    {A B : Type 0} (Q : A → Type 0) (P : B → Type 0) (m : Access A) (f : A → Access B)
    → Ensures Q m
    → ((a : A) → Q a → Ensures P (f a))
    → Ensures P (m >>= f)
bind Q P none f h k = h
bind Q P (some (err e)) f h k = tt
bind Q P (some (ok a)) f h k = k a h

get-some : (base : List ℕ) (p : ℕ) → p < length base → (c : ℕ) × (get_elem? base p ≡ some c)
get-some [] p h = absurd (omega arith)
get-some (c ∷ base) zero h = (c, refl)
get-some (c ∷ base) (suc p) h = get-some base p (omega arith)

hexval-lt : (c : ℕ) {d : ℕ} → hexval c ≡ some d → d < 16
unfolding hexval
hexval-lt c h = ground arith

hex_digits-safe :
    (base : List ℕ) (n p v : ℕ)
    → p + n ≤ length base
    → v < 2 ^ 32
    → Ensures (λ x. x < 2 ^ 32) (hex_digits base n p v)
unfolding hex_digits
hex_digits-safe base zero p v h w = w
hex_digits-safe base (suc n) p v h w =
    let (c, e) = get-some base p (omega arith) in
    rw (e, hex_digits)
      (elim (Option-cases (hexval c)) [
        | inl e' ↦ rw (e', hex_digits) tt
        | inr (d, e') ↦
            rw (e', hex_digits)
              (hex_digits-safe base n (suc p) _ (omega arith) (omega (arith, hexval-lt c e')))
      ])

pub same_bytes-safe :
    (base : List ℕ) (p : ℕ) (text : List ℕ)
    → p + length text ≤ length base
    → (b : Bool) × (same_bytes base p text ≡ some b)
unfolding same_bytes
same_bytes-safe base p [] h = (true, refl)
same_bytes-safe base p (c ∷ text) h =
    let (b, e) = get-some base p (omega arith) in
    let (r, e') = same_bytes-safe base (suc p) text (omega arith) in
    ((b == c) && r, rw (e, e', same_bytes) refl)

memcmp-safe :
    (base : List ℕ) (p : ℕ) (text : List ℕ)
    → p + length text ≤ length base
    → Ensures (λ x. Unit {0}) (memcmp base p text)
unfolding memcmp
memcmp-safe base p text h = let (b, e) = same_bytes-safe base p text h in rw (e, memcmp) tt

guard-safe : (b : Bool) → Ensures (λ x. b ≡ true) (guard b)
guard-safe true = refl
guard-safe false = tt

abbrev pub SmallHeader : Header → Type 0
SmallHeader h = (h.filesize < 2 ^ 32) × (h.namesize < 2 ^ 32) × (0 < h.namesize)

read_header-safe :
    (base : List ℕ) (off : ℕ)
    → off + header_size ≤ length base
    → Ensures SmallHeader (read_header base off)
unfolding read_header parse_hex8
read_header-safe base off h =
    bind _ SmallHeader (memcmp base off magic) _ (memcmp-safe base off magic (omega arith))
      λ good _. bind _ SmallHeader (guard good) _ (guard-safe good) λ _ _.
        bind _ SmallHeader (hex_digits base 8 (off + 14) 0) _
          (hex_digits-safe base 8 (off + 14) 0 (omega arith) (omega arith))
          λ mode _.
            bind _ SmallHeader (hex_digits base 8 (off + 54) 0) _
              (hex_digits-safe base 8 (off + 54) 0 (omega arith) (omega arith))
              λ filesize f.
                bind _ SmallHeader (hex_digits base 8 (off + 94) 0) _
                  (hex_digits-safe base 8 (off + 94) 0 (omega arith) (omega arith))
                  λ namesize n.
                    bind _ SmallHeader (guard (not (namesize == 0))) _ (guard-safe _)
                      λ _ g. (f, n, ground (arith, g))

checked_add-safe : (a b : ℕ) → a < 2 ^ 64 → b < 2 ^ 64 → Ensures (λ x. x ≡ a + b) (checked_add a b)
unfolding checked_add
checked_add-safe a b h k = elim (Bool-cases (ltb (add64 a b) a)) [
  | inl e ↦ rw e tt
  | inr e ↦ rw e (ground arith)
]

-- Where an entry at `off` lies: its name behind the header, its data behind the name, the next entry
-- behind the data, and all of it within the archive.
pub record Located (base : List ℕ) (off : ℕ) (e : Entry) : Type 0 where
  pub name : e.name_off ≡ off + header_size
  pub data_behind : e.name_off + e.name_len < e.data_off
  pub next_behind : e.data_off + e.data_len ≤ e.next_off
  pub within : e.next_off ≤ length base
  pub data_aligned : e.data_off % 4 ≡ 0
  pub next_aligned : e.next_off % 4 ≡ 0

read-safe : (base : List ℕ) (p : ℕ) → p < length base → Ensures (λ x. Unit {0}) (read base p)
unfolding read
read-safe base p h = let (c, e) = get-some base p h in rw (e, read) tt

locate-safe :
    (base : List ℕ) (off : ℕ) (h : Header)
    → length base < 2 ^ 63
    → off + header_size ≤ length base
    → SmallHeader h
    → Ensures (Located base off) (locate base off h)
unfolding locate align4
locate-safe base off h small room sh =
    bind _ (Located base off) (checked_add off header_size) _
      (checked_add-safe off header_size (omega arith) (omega arith))
      λ name_off a.
        bind _ (Located base off) (checked_add name_off h.namesize) _
          (checked_add-safe name_off h.namesize (omega arith) (omega arith))
          λ name_end b.
            bind _ (Located base off) (guard (leb name_end (length base))) _ (guard-safe _) λ _ c.
              bind _ (Located base off) (read base (name_end - 1)) _
                (read-safe base (name_end - 1) (ground arith))
                λ last _. bind _ (Located base off) (guard (last == 0)) _ (guard-safe _) λ _ _.
                  bind _ (Located base off) (checked_add (align4 name_end) h.filesize) _
                    (checked_add-safe (align4 name_end) h.filesize (ground arith) (omega arith))
                    λ data_end d.
                      bind _ (Located base off) (guard (leb data_end (length base))) _
                        (guard-safe _)
                        λ _ e.
                          bind _ (Located base off) (guard (leb (align4 data_end) (length base))) _
                            (guard-safe _)
                            λ _ f. record {
                              name = a;
                              data_behind = ground arith;
                              next_behind = ground arith;
                              within = ground arith;
                              data_aligned = omega arith;
                              next_aligned = omega arith;
                            }

abbrev pub Found : List ℕ → ℕ → Option Entry → Type 0
Found base off r = (x : Entry) → r ≡ some x → Located base off x

check_trailer-safe :
    (base : List ℕ) (off : ℕ) (e : Entry)
    → Located base off e
    → Ensures (Found base off) (check_trailer base e)
unfolding check_trailer
check_trailer-safe base off e l = elim (Bool-cases (e.name_len == length trailer)) [
  | inl long ↦ rw long (
      bind (λ _. Unit {0}) (Found base off) (memcmp base e.name_off trailer) _
        (memcmp-safe base e.name_off trailer
          (ground (arith, long, l.data_behind, l.next_behind, l.within)))
        (λ last _. found last))
  | inr short ↦ rw short (found false)
]
  where
    found : (last : Bool) → Found base off (if last then none else some e)
    found true x h = cc
    found false x h = let same : e ≡ x = cc h in subst (Located base off) same l

-- On an archive shorter than 2 ^ 63 bytes, at any offset, `cpio_newc_next` reads no byte
-- outside the archive; and if it returns an entry, its name stands behind the header, its data
-- behind the name and aligned to 4, and the next entry behind the data, aligned to 4 and within
-- the archive.
pub next-Located :
    (base : List ℕ) (off : ℕ) → length base < 2 ^ 63 → Ensures (Found base off) (next base off)
unfolding next
next-Located base off small = elim (Bool-cases (leb (length base) off)) [
  | inl end ↦ rw end (λ x h. cc)
  | inr more ↦ rw more (elim (Bool-cases (ltb (length base - off) header_size)) [
    | inl cut ↦ rw cut tt
    | inr room ↦ rw room (
        bind SmallHeader (Found base off) (read_header base off) _
          (read_header-safe base off (ground arith))
          λ h sh.
            bind (Located base off) (Found base off) (locate base off h) _
              (locate-safe base off h small (ground arith) sh)
              λ e l. check_trailer-safe base off e l)
  ])
]
