-- ===== src/Fs/Fat32/Reads.antt =====
-- kernel/fs/fat32/file.c: the bytes that a read gives, against the chain of clusters.
use jnu.Base.{
  ℕ, zero, suc, ◌+◌, ◌-◌, ◌/◌, ◌%◌, ◌≤◌, ◌<◌, ◌≡◌, refl, sym, ap, ◌∙◌, subst, inl, inr, true, false,
  ◌&&◌, ◌||◌, List, length, take, drop, leb, ltb, ◌==◌, ok, eio, arith, Bool-cases, Option-cases,
  some, refute, returned,
}
use jnu.Fs.Fat32.{
  Fat32, is_eoc, cluster_lba, cluster_valid, next_cluster, smaller, read_from, fat32_read,
}
use jnu.Fs.Fat32.Places.{next_sector}
use jnu.Fs.Fat32.Chain.{
  Ends, EndsBy, Geometry, chunk_at, ended, nth, offset_in, piece_bytes, reached, seek_cluster-Seek,
  split_or,
}
use jnu.Fs.Fat32.Pieces.{Good, chunk_at-positive, go_on, stop_after, stop_here}

-- The chain ends where the loop finds an end mark or has counted all clusters.
Ends-next_cluster :
    (p : Fat32) (first cluster guard q : ℕ)
    → cluster ≡ nth p first q
    → guard ≡ q
    → (is_eoc (next_cluster p cluster) || ltb p.cluster_count (guard + 1)) ≡ true
    → Ends p first (suc q)
Ends-next_cluster p first cluster guard q here steps s = elim (split_or _ _ s) [
  | inl a ↦ inr (inl (subst (λ c. is_eoc (next_cluster p c) ≡ true) here a))
  | inr a ↦ inr (inr (ground (arith, a, steps)))
]

-- Where the loop stands on the chain: at the cluster of the byte it reads next.
abbrev Standing : Fat32 → ℕ → ℕ → ℕ → ℕ → ℕ → Type 0
Standing p first cluster guard cur left =
    0 < left → (cluster ≡ nth p first (cur / p.cluster_bytes)) × (guard ≡ cur / p.cluster_bytes)

-- One sector read: the rest of the loop is right, so the loop is.
after_piece :
    (p : Fat32) (first fuel cluster guard cur left : ℕ) (bytes bs : List ℕ)
    → Geometry p
    → cluster_valid p cluster ≡ true
    → 0 < left
    → Standing p first cluster guard cur left
    → p.sectors (cluster_lba p cluster + cur % p.cluster_bytes / p.bytes_per_sec) ≡ some bytes
    → ((c g : ℕ) (rest : List ℕ)
        → Standing p first c g (cur + chunk_at p cur left) (left - chunk_at p cur left)
        → read_from p fuel c g (cur + chunk_at p cur left) (left - chunk_at p cur left) ≡ ok rest
        → Good p first (cur + chunk_at p cur left) (left - chunk_at p cur left) rest)
    → read_from p (suc fuel) cluster guard cur left ≡ ok bs
    → Good p first cur left bs
unfolding read_from
after_piece p first fuel cluster guard cur left bytes bs g v some_left at f behind e =
    let n = p.cluster_bytes in
    let chunk = chunk_at p cur left in
    let piece = take chunk (drop (offset_in p cur) bytes) in
    let z : (left == 0) ≡ false = ground (arith, some_left) in
    let (here, steps) = at some_left in
    let (long, same) = piece_bytes p first cluster cur left bytes g here f in
    let soff : offset_in p cur ≡ cur % n % 512 = ap (λ b. cur % n % b) g.sector in
    let pos : 0 < chunk = ground (arith, g.sector, soff, some_left) in
    let fits : cur % n % 512 + chunk ≤ 512 = ground (arith, g.sector, soff) in
    let within : chunk ≤ left = ground arith in
    let (crosses, stays) = next_sector n g.cluster cur chunk pos fits in
    let same' = λ (i : ℕ) (h : i < length piece). same i (omega (arith, h, long)) in
    let on = λ (c k : ℕ).
      go_on p first cur left chunk piece bs (read_from p fuel c k (cur + chunk) (left - chunk)) long
        within same' in
    elim (Bool-cases (ltb chunk left && (cur + chunk) % n == 0)) [
      | inr x ↦
          on cluster guard
            (λ rest. behind cluster guard rest (λ h.
              let m = stays (λ q. ground (arith, x, h, q)) in
              (here ∙ ap (λ k. nth p first k) (sym m), steps ∙ sym m)))
            (sym (rw (z, v, f, x, read_from) refl) ∙ e)
      | inl x ↦
          let m = crosses (ground (arith, x)) in
          elim (Bool-cases (is_eoc (next_cluster p cluster) || ltb p.cluster_count (guard + 1))) [
            | inl s ↦
                subst (λ b. Good p first cur left b)
                  (returned e (rw (z, v, f, x, s, read_from) refl))
                  (stop_after p first cur left chunk piece long within same' (
                    suc (cur / n),
                    omega (arith, m),
                    Ends-next_cluster p first cluster guard (cur / n) here steps s,
                  ))
            | inr s ↦
                on (next_cluster p cluster) (guard + 1)
                  (λ rest. behind (next_cluster p cluster) (guard + 1) rest (λ h. (
                    ap (λ c. next_cluster p c) here ∙ ap (λ k. nth p first k) (sym m),
                    omega (arith, steps, m),
                  )))
                  (sym (rw (z, v, f, x, s, read_from) refl) ∙ e)
          ]
    ]

read_from-Good :
    (p : Fat32) (first fuel cluster guard cur left : ℕ) (bs : List ℕ)
    → Geometry p
    → left ≤ fuel
    → Standing p first cluster guard cur left
    → read_from p fuel cluster guard cur left ≡ ok bs
    → Good p first cur left bs
unfolding read_from
read_from-Good p first zero cluster guard cur left bs g enough at e =
    subst (λ b. Good p first cur left b) (returned e refl)
      (stop_here p first cur left (λ h. absurd (omega (arith, h, enough))))
read_from-Good p first (suc fuel) cluster guard cur left bs g enough at e =
    elim (Bool-cases (left == 0)) [
      | inl z ↦
          subst (λ b. Good p first cur left b) (returned e (rw (z, read_from) refl))
            (stop_here p first cur left (λ h. absurd (ground (arith, h, z))))
      | inr z ↦
          let some_left : 0 < left = ground (arith, z) in
          let (here, steps) = at some_left in
          elim (Bool-cases (cluster_valid p cluster)) [
            | inr v ↦
                subst (λ b. Good p first cur left b) (returned e (rw (z, v, read_from) refl))
                  (stop_here p first cur left (λ h. (
                    cur / p.cluster_bytes,
                    omega arith,
                    inl (subst (λ c. cluster_valid p c ≡ false) here v),
                  )))
            | inl v ↦
                elim (Option-cases
                  (p.sectors (cluster_lba p cluster + cur % p.cluster_bytes / p.bytes_per_sec))) [
                    | inl f ↦ absurd (refute eio e (rw (z, v, f, read_from) refl))
                    | inr (bytes, f) ↦
                        let pos : 0 < chunk_at p cur left =
                          chunk_at-positive p cur left g some_left in
                        after_piece p first fuel cluster guard cur left bytes bs g v some_left at f
                          (λ c k rest at' e'.
                            read_from-Good p first fuel c k (cur + chunk_at p cur left)
                              (left - chunk_at p cur left) rest g (omega (arith, enough, pos)) at'
                              e')
                          e
                  ]
          ]
    ]

-- On a volume with sectors of 512 bytes and clusters of a size that a mount accepts: when
-- `fat32_read` of a file returns bytes, each is the byte of its offset on the cluster chain,
-- there are no more of them than asked and than the file has from the offset on, and if there
-- are fewer, the chain ends, at a number that is no cluster or an end mark or after more steps
-- than there are clusters, no later than at the cluster where they end.
pub fat32_read-Good :
    (p : Fat32) (size first offset len : ℕ) (bs : List ℕ)
    → Geometry p
    → fat32_read p false size first offset len ≡ ok bs
    → Good p first offset (smaller len (size - offset)) bs
unfolding fat32_read
fat32_read-Good p size first offset len bs g e =
    let wanted = smaller len (size - offset) in
    elim (Bool-cases (leb size offset || wanted == 0)) [
      | inl z ↦
          subst (λ b. Good p first offset wanted b) (returned e (rw (z, fat32_read) refl))
            (stop_here p first offset wanted (λ h. absurd (ground (arith, h, z))))
      | inr z ↦
          let q = offset / p.cluster_bytes in
          let none_before : 0 + q ≡ q = omega arith in
          elim (seek_cluster-Seek p first 0 q) [
            | ended f d ↦
                subst (λ b. Good p first offset wanted b) (returned e (rw (z, f, fat32_read) refl))
                  (stop_here p first offset wanted
                    (λ h. subst (λ k. EndsBy p first k) none_before d))
            | reached f ↦
                let eq : fat32_read p false size first offset len
                    ≡ read_from p wanted (nth p first (0 + q)) (0 + q) offset wanted =
                  rw (z, f, fat32_read) refl in
                read_from-Good p first wanted (nth p first (0 + q)) (0 + q) offset wanted bs g
                  (omega arith) (λ h. (ap (λ k. nth p first k) none_before, none_before))
                  (sym eq ∙ e)
          ]
    ]
