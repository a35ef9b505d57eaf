-- ===== src/Fs/Fat32/Chain.antt =====
-- kernel/fs/fat32/fat.c and kernel/fs/fat32/file.c: the clusters of a file, and the bytes of one piece.
use jnu.Base.{
  ℕ, zero, suc, ◌+◌, ◌-◌, ◌/◌, ◌%◌, ◌≤◌, ◌<◌, ◌≡◌, refl, sym, ap, ◌∙◌, subst, ◌⊎◌, inl, inr, Bool,
  true, false, not, ◌||◌, Option, none, some, List, [], ◌∷◌, ◌++◌, length, get_elem?, take, drop,
  ltb, arith, Bool-cases, length-take, length-drop, min,
}
use jnu.Fs.Fat32.{Fat32, is_eoc, cluster_lba, cluster_valid, next_cluster, seek_cluster, smaller}
use jnu.Fs.Fat32.Places.{IsSize, same_sector}

-- What a mount has checked.
pub record Geometry (p : Fat32) : Type 0 where
  pub sector : p.bytes_per_sec ≡ 512
  pub cluster : IsSize p.cluster_bytes
  pub full : (l : ℕ) (bytes : List ℕ) → p.sectors l ≡ some bytes → length bytes ≡ 512

-- The clusters of a chain.
abbrev pub nth : Fat32 → ℕ → ℕ → ℕ
nth p first zero = first
nth p first (suc k) = next_cluster p (nth p first k)

-- The byte of a file at an offset.
abbrev pub byte_at : Fat32 → ℕ → ℕ → Option ℕ
byte_at p first x =
    elim (p.sectors
      (cluster_lba p (nth p first (x / p.cluster_bytes)) + x % p.cluster_bytes / 512)) [
        | none ↦ none
        | some bytes ↦ get_elem? bytes (x % p.cluster_bytes % 512)
      ]

-- A chain ends at a cluster that is none, or after more steps than there are clusters.
abbrev pub Ends : Fat32 → ℕ → ℕ → Type 0
Ends p first k =
    (cluster_valid p (nth p first k) ≡ false)
    ⊎ ((is_eoc (nth p first k) ≡ true) ⊎ (p.cluster_count < k))

abbrev pub EndsBy : Fat32 → ℕ → ℕ → Type 0
EndsBy p first k = (j : ℕ) × (j ≤ k) × Ends p first j

pub split_or : (a b : Bool) → (a || b) ≡ true → (a ≡ true) ⊎ (b ≡ true)
split_or true b e = inl refl
split_or false b e = inr e

negated : (a : Bool) → not a ≡ true → a ≡ false
negated true e = cc
negated false e = refl

-- The walk finds the cluster of its number, or the chain ends before.
pub data Seek (p : Fat32) (first i k : ℕ) (o : Option (ℕ × ℕ)) : Type 0 where
  reached : o ≡ some (nth p first (i + k), i + k) → Seek p first i k o
  ended : o ≡ none → EndsBy p first (i + k) → Seek p first i k o

pub seek_cluster-Seek :
    (p : Fat32) (first i k : ℕ) → Seek p first i k (seek_cluster p (nth p first i) i k)
unfolding seek_cluster
seek_cluster-Seek p first i zero =
    let same : i + 0 ≡ i = omega arith in reached (ap (λ n. some (nth p first n, n)) (sym same))
seek_cluster-Seek p first i (suc k) =
    let next = next_cluster p (nth p first i) in
    let one : i + 1 ≡ suc i = omega arith in
    let on : i + suc k ≡ suc i + k = omega arith in
    elim (Bool-cases
      (not (cluster_valid p (nth p first i)) || (is_eoc next || ltb p.cluster_count (i + 1)))) [
        | inl e ↦
            rw (e, seek_cluster)
              (ended refl (elim (split_or _ _ e) [
                | inl a ↦ (i, omega arith, inl (negated _ a))
                | inr a ↦ elim (split_or _ _ a) [
                  | inl b ↦ (suc i, omega arith, inr (inl b))
                  | inr b ↦ (suc i, omega arith, inr (inr (ground (arith, b))))
                ]
              ]))
        | inr e ↦
            rw (e, seek_cluster)
              (elim (seek_cluster-Seek p first (suc i) k) [
                | reached r ↦ reached (rw (one, on) r)
                | ended r d ↦ ended (rw one r) (subst (λ n. EndsBy p first n) (sym on) d)
              ])
      ]

abbrev pub offset_in : Fat32 → ℕ → ℕ
offset_in p cur = cur % p.cluster_bytes % p.bytes_per_sec

abbrev pub chunk_at : Fat32 → ℕ → ℕ → ℕ
chunk_at p cur left = smaller (p.bytes_per_sec - offset_in p cur) left

get_elem?-take :
    {A : Type 0} (n i : ℕ) (xs : List A) → i < n → get_elem? (take n xs) i ≡ get_elem? xs i
get_elem?-take zero i xs h = absurd (omega (arith, h))
get_elem?-take (suc n) i [] h = refl
get_elem?-take (suc n) zero (x ∷ xs) h = refl
get_elem?-take (suc n) (suc i) (x ∷ xs) h = get_elem?-take n i xs (omega (arith, h))

get_elem?-drop :
    {A : Type 0} (n i : ℕ) (xs : List A) → get_elem? (drop n xs) i ≡ get_elem? xs (n + i)
get_elem?-drop zero i xs = let same : 0 + i ≡ i = omega arith in rw same refl
get_elem?-drop (suc n) i [] = refl
get_elem?-drop (suc n) i (x ∷ xs) =
    get_elem?-drop n i xs
    ∙ ap (λ k. get_elem? (x ∷ xs) k) (let same : suc (n + i) ≡ suc n + i = omega arith in same)

pub append_front :
    {A : Type 0} (xs ys : List A) (i : ℕ) → i < length xs → get_elem? (xs ++ ys) i ≡ get_elem? xs i
append_front [] ys i h = absurd (omega (arith, h))
append_front (x ∷ xs) ys zero h = refl
append_front (x ∷ xs) ys (suc i) h = append_front xs ys i (omega (arith, h))

pub append_back :
    {A : Type 0} (xs ys : List A) (k : ℕ) → get_elem? (xs ++ ys) (length xs + k) ≡ get_elem? ys k
append_back [] ys k = let same : 0 + k ≡ k = omega arith in rw same refl
append_back (x ∷ xs) ys k =
    ap (λ i. get_elem? (x ∷ xs ++ ys) i)
      (let same : suc (length xs) + k ≡ suc (length xs + k) = omega arith in same)
    ∙ append_back xs ys k

-- The bytes of a piece are those of the file.
pub piece_bytes :
    (p : Fat32) (first cluster cur left : ℕ) (bytes : List ℕ)
    → Geometry p
    → cluster ≡ nth p first (cur / p.cluster_bytes)
    → p.sectors (cluster_lba p cluster + cur % p.cluster_bytes / p.bytes_per_sec) ≡ some bytes
    → (length (take (chunk_at p cur left) (drop (offset_in p cur) bytes)) ≡ chunk_at p cur left)
      × ((i : ℕ)
          → i < chunk_at p cur left
          → get_elem? (take (chunk_at p cur left) (drop (offset_in p cur) bytes)) i
            ≡ byte_at p first (cur + i))
piece_bytes p first cluster cur left bytes g at found =
    let sector = g.sector in
    let n = p.cluster_bytes in
    let soff : offset_in p cur ≡ cur % n % 512 = ap (λ b. cur % n % b) sector in
    let whole = g.full _ bytes found in
    let found' : p.sectors (cluster_lba p (nth p first (cur / n)) + cur % n / 512) ≡ some bytes =
      subst (λ c. p.sectors (cluster_lba p c + cur % n / 512) ≡ some bytes) at
        (subst (λ b. p.sectors (cluster_lba p cluster + cur % n / b) ≡ some bytes) sector found) in
    let fits : offset_in p cur + chunk_at p cur left ≤ 512 = ground (arith, sector, soff) in
    (
      length-take (chunk_at p cur left) (drop (offset_in p cur) bytes)
          ∙ (ap (λ k. min (chunk_at p cur left) k) (length-drop (offset_in p cur) bytes)
              ∙ omega (arith, whole, fits)),
      λ i h.
          let (a, (b, (c, d))) = same_sector n g.cluster cur i (omega (arith, soff, fits, h)) in
          get_elem?-take _ i _ h
          ∙ (get_elem?-drop (offset_in p cur) i bytes
              ∙ (ap (λ k. get_elem? bytes (k + i)) soff
                  ∙ rw (a, b, c, found', byte_at)
                      (ap (λ k. get_elem? bytes k) (sym (ap (λ k. k % 512) b ∙ d))))),
    )
