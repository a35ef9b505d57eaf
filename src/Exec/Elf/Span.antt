-- ===== src/Exec/Elf/Span.antt =====
-- kernel/exec/elf64.c: the variables of the loop over the program headers, against all the headers.
use jnu.Base.{
  ℕ, ◌+◌, ◌^◌, ◌≤◌, ◌<◌, ◌≡◌, refl, ◌∙◌, subst, inl, inr, Bool, true, false, ◌&&◌, ◌||◌, List, [],
  ◌∷◌, leb, ltb, if◌then◌else◌, arith, Bool-cases, either_false,
}
use jnu.Mm.Space.{has}
use jnu.Exec.Elf.{LoadInfo, Phdr, Scan, start_scan}
use jnu.Exec.Elf.Segments.{is_load, smaller, larger, runs, after, after_all}

-- The least start and the greatest end of the segments to load.
abbrev pub lowest : List Phdr → ℕ
lowest [] = 2 ^ 47
lowest (p ∷ ps) = if is_load p then smaller p.vaddr (lowest ps) else lowest ps

abbrev pub highest : List Phdr → ℕ
highest [] = 0
highest (p ∷ ps) = if is_load p then larger (p.vaddr + p.memsz) (highest ps) else highest ps

abbrev pub any_runs : ℕ → List Phdr → Bool
any_runs entry [] = false
any_runs entry (p ∷ ps) = runs entry p || any_runs entry ps

after_all-low :
    (entry : ℕ) (s : Scan) (ps : List Phdr)
    → s.low ≤ 2 ^ 47
    → (after_all entry s ps).low ≡ smaller s.low (lowest ps)
after_all-low entry s [] h = ground (arith, h)
after_all-low entry s (p ∷ ps) h = after_all-low entry (after entry s p) ps low ∙ swap
  where
    low : (after entry s p).low ≤ 2 ^ 47
    low = elim (Bool-cases (is_load p)) [ inl l ↦ rw l (ground (arith, h)) | inr l ↦ rw l h ]

    swap : smaller (after entry s p).low (lowest ps) ≡ smaller s.low (lowest (p ∷ ps))
    swap = elim (Bool-cases (is_load p)) [ inl l ↦ rw l (ground arith) | inr l ↦ rw l refl ]

after_all-high :
    (entry : ℕ) (s : Scan) (ps : List Phdr)
    → (after_all entry s ps).high ≡ larger s.high (highest ps)
after_all-high entry s [] = ground arith
after_all-high entry s (p ∷ ps) = after_all-high entry (after entry s p) ps ∙ swap
  where
    swap : larger (after entry s p).high (highest ps) ≡ larger s.high (highest (p ∷ ps))
    swap = elim (Bool-cases (is_load p)) [ inl l ↦ rw l (ground arith) | inr l ↦ rw l refl ]

after_all-entry :
    (entry : ℕ) (s : Scan) (ps : List Phdr)
    → (after_all entry s ps).entry_in_exec ≡ (any_runs entry ps || s.entry_in_exec)
after_all-entry entry s [] = refl
after_all-entry entry s (p ∷ ps) = after_all-entry entry (after entry s p) ps ∙ swap
  where
    moved : (a b c : Bool) → (a || (b || c)) ≡ (b || a || c)
    moved true true c = refl
    moved true false c = refl
    moved false true c = refl
    moved false false c = refl

    swap :
        (any_runs entry ps || (after entry s p).entry_in_exec)
        ≡ (any_runs entry (p ∷ ps) || s.entry_in_exec)
    swap = elim (Bool-cases (is_load p)) [
      | inl l ↦ rw l (
          moved (any_runs entry ps)
            (has p.flags 1 && (leb p.vaddr entry && ltb entry (p.vaddr + p.memsz))) s.entry_in_exec)
      | inr l ↦ rw l refl
    ]

pub after_all-loads :
    (entry : ℕ) (s : Scan) (ps : List Phdr)
    → (s.loads ≤ (after_all entry s ps).loads)
      × (any_runs entry ps ≡ true → s.loads < (after_all entry s ps).loads)
after_all-loads entry s [] = (omega arith, λ e. cc)
after_all-loads entry s (p ∷ ps) =
    let (rest, strict) = after_all-loads entry (after entry s p) ps in
    (
      omega (arith, rest, grows),
      λ e. elim (Bool-cases (is_load p)) [
        | inl l ↦ omega (arith, rest, more l)
        | inr l ↦ omega (arith, grows, strict (later l e))
      ],
    )
  where
    grows : s.loads ≤ (after entry s p).loads
    grows = elim (Bool-cases (is_load p)) [
      | inl l ↦ rw l (omega arith)
      | inr l ↦ rw l (omega arith)
    ]

    more : is_load p ≡ true → s.loads < (after entry s p).loads
    more l = rw l (omega arith)

    later : is_load p ≡ false → any_runs entry (p ∷ ps) ≡ true → any_runs entry ps ≡ true
    later l e =
        subst
          (λ b.
            (b && (has p.flags 1 && (leb p.vaddr entry && ltb entry (p.vaddr + p.memsz)))
              || any_runs entry ps)
            ≡ true)
          l e

lowest_bound : (ps : List Phdr) → lowest ps ≤ 2 ^ 47
lowest_bound [] = omega arith
lowest_bound (p ∷ ps) = let below = lowest_bound ps in ground (arith, below)

pub scanned_low : (entry : ℕ) (ps : List Phdr) → (after_all entry start_scan ps).low ≡ lowest ps
scanned_low entry ps =
    after_all-low entry start_scan ps (omega arith)
    ∙ (let below = lowest_bound ps in ground (arith, below))

pub scanned_high : (entry : ℕ) (ps : List Phdr) → (after_all entry start_scan ps).high ≡ highest ps
scanned_high entry ps = after_all-high entry start_scan ps ∙ ground arith

pub scanned_entry :
    (entry : ℕ) (ps : List Phdr) → (after_all entry start_scan ps).entry_in_exec ≡ any_runs entry ps
scanned_entry entry ps = after_all-entry entry start_scan ps ∙ either_false (any_runs entry ps)

pub info_same : (a b : LoadInfo) → a.entry ≡ b.entry → a.low ≡ b.low → a.high ≡ b.high → a ≡ b
info_same a b p q r = rw (p, q, r) refl
