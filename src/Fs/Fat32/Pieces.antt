-- ===== src/Fs/Fat32/Pieces.antt =====
-- kernel/fs/fat32/file.c: the bytes of one sector, and what a read gives behind them.
use jnu.Base.{
  ℕ, ◌+◌, ◌-◌, ◌/◌, ◌≤◌, ◌<◌, ◌≡◌, refl, sym, ap, ◌∙◌, subst, inl, inr, List, [], ◌++◌, length,
  get_elem?, ltb, Result, ok, err, ◌>>=◌, arith, Bool-cases, length-append, returned,
}
use jnu.Fs.Fat32.{Fat32}
use jnu.Fs.Fat32.Chain.{EndsBy, Geometry, append_back, append_front, byte_at, chunk_at}

-- What the loop gives: bytes of the file, no more than are left, and all of them unless the chain ends.
pub record Good (p : Fat32) (first cur left : ℕ) (bs : List ℕ) : Type 0 where
  pub bytes : (i : ℕ) → i < length bs → get_elem? bs i ≡ byte_at p first (cur + i)
  pub short : length bs ≤ left
  pub ended : length bs < left → EndsBy p first ((cur + length bs) / p.cluster_bytes)

pub stop_here :
    (p : Fat32) (first cur left : ℕ)
    → (0 < left → EndsBy p first (cur / p.cluster_bytes))
    → Good p first cur left []
stop_here p first cur left e = record {
  bytes = λ i h. absurd (omega (arith, h));
  short = omega arith;
  ended = λ h. let same : cur + 0 ≡ cur = omega arith in rw same (e h);
}

-- A piece and what is read behind it.
join :
    (p : Fat32) (first cur left : ℕ) (piece rest : List ℕ)
    → length piece ≤ left
    → ((i : ℕ) → i < length piece → get_elem? piece i ≡ byte_at p first (cur + i))
    → Good p first (cur + length piece) (left - length piece) rest
    → Good p first cur left (piece ++ rest)
join p first cur left piece rest fits here g = record {
  bytes = λ i h. elim (Bool-cases (ltb i (length piece))) [
    | inl k ↦ append_front piece rest i (ground (arith, k)) ∙ here i (ground (arith, k))
    | inr k ↦
        let split : i ≡ length piece + (i - length piece) = ground (arith, k) in
        let move : cur + length piece + (i - length piece) ≡ cur + i = ground (arith, k) in
        ap (λ j. get_elem? (piece ++ rest) j) split
        ∙ (append_back piece rest (i - length piece)
            ∙ (g.bytes (i - length piece) (ground (arith, k, h, length-append piece rest))
                ∙ ap (λ j. byte_at p first j) move))
  ];
  short = omega (arith, length-append piece rest, g.short, fits);
  ended = λ h.
      let on : cur + length piece + length rest ≡ cur + length (piece ++ rest) =
        omega (arith, length-append piece rest) in
      subst (λ n. EndsBy p first (n / p.cluster_bytes)) on
        (g.ended (omega (arith, h, length-append piece rest)));
}

joined :
    (r : Result (List ℕ)) (piece bs : List ℕ)
    → (r >>= λ rest. ok (piece ++ rest)) ≡ ok bs
    → (rest : List ℕ) × (r ≡ ok rest) × (piece ++ rest ≡ bs)
joined (ok rest) piece bs e = (rest, refl, returned e refl)
joined (err x) piece bs e = cc

pub chunk_at-positive : (p : Fat32) (cur left : ℕ) → Geometry p → 0 < left → 0 < chunk_at p cur left
chunk_at-positive p cur left g some_left =
    let sector = g.sector in ground (arith, sector, some_left)

-- A piece, and what a further call gives behind it.
pub go_on :
    (p : Fat32) (first cur left chunk : ℕ) (piece bs : List ℕ) (r : Result (List ℕ))
    → length piece ≡ chunk
    → chunk ≤ left
    → ((i : ℕ) → i < length piece → get_elem? piece i ≡ byte_at p first (cur + i))
    → ((rest : List ℕ) → r ≡ ok rest → Good p first (cur + chunk) (left - chunk) rest)
    → (r >>= λ rest. ok (piece ++ rest)) ≡ ok bs
    → Good p first cur left bs
go_on p first cur left chunk piece bs r long within same behind e =
    let (rest, e1, whole) = joined r piece bs e in
    subst (λ b. Good p first cur left b) whole
      (join p first cur left piece rest (omega (arith, long, within)) same
        (subst (λ k. Good p first (cur + k) (left - k) rest) (sym long) (behind rest e1)))

-- A piece behind which the chain ends.
pub stop_after :
    (p : Fat32) (first cur left chunk : ℕ) (piece : List ℕ)
    → length piece ≡ chunk
    → chunk ≤ left
    → ((i : ℕ) → i < length piece → get_elem? piece i ≡ byte_at p first (cur + i))
    → EndsBy p first ((cur + chunk) / p.cluster_bytes)
    → Good p first cur left piece
stop_after p first cur left chunk piece long within same ends = record {
  bytes = same;
  short = omega (arith, long, within);
  ended = λ h. subst (λ k. EndsBy p first ((cur + k) / p.cluster_bytes)) (sym long) ends;
}
