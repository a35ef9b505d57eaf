-- ===== src/User/Fd/Refs.antt =====
-- kernel/user/fd.c: reference counts and the slots that point to a file, over all tables.
use jnu.Base.{
  ℕ, zero, suc, ◌+◌, ◌≤◌, ◌<◌, ◌≡◌, refl, sym, ap, ◌∙◌, inl, inr, Option, none, some, [], ◌∷◌, ◌==◌,
  ◌^◌, ◌↔◌, Result, ok, err, einval, Option-cases, true, false, if◌then◌else◌, length, arith,
  Bool-cases, set, update, leb,
}
use jnu.Base.Int.{ℤ, pos, negsuc}
use jnu.User.Fd.{
  Slots, slot, max_fds, File, Heap, file_get, file_put, file_destroy, fd_close, fd_table_clone,
  fd_get, sys_close, put_closed, with_result, positive, up, down,
}

abbrev pub hits : Option ℕ → ℕ → ℕ
hits none f = 0
hits (some g) f = if g == f then 1 else 0

-- How many slots of a table point to file `f`.
abbrev pub count : Slots → ℕ → ℕ
count [] f = 0
count (x ∷ t) f = hits x f + count t f

-- The files that are alive are those that something points to, each has as many references as there
-- are pointers to it, and those are fewer than 2 ^ 31.
pub record Counted (h : Heap) (pointers : ℕ → ℕ) : Type 0 where
  pub exact : (f : ℕ) (c : File) → h.cell f ≡ some c → c.refcount ≡ pointers f
  pub alive : (f : ℕ) → 0 < pointers f → (c : File) × (h.cell f ≡ some c)
  pub held : (f : ℕ) (c : File) → h.cell f ≡ some c → 0 < pointers f
  pub few : (f : ℕ) → pointers f < 2 ^ 31

pub Counted-cong : {h : Heap} {m n : ℕ → ℕ} → ((f : ℕ) → m f ≡ n f) → Counted h m → Counted h n
Counted-cong same v = record {
  exact = λ f c e. v.exact f c e ∙ same f;
  alive = λ f i. v.alive f (omega (arith, same f));
  held = λ f c e. omega (arith, same f, v.held f c e);
  few = λ f. omega (arith, same f, v.few f);
}

-- One more pointer to a file that has one already.
file_get-Counted :
    {h : Heap} {n : ℕ → ℕ} (x : Option ℕ)
    → Counted h n
    → ((f : ℕ) → hits x f ≤ n f)
    → ((f : ℕ) → n f + hits x f < 2 ^ 31)
    → (h' : Heap) × (file_get h x ≡ some h') × Counted h' (λ f. n f + hits x f)
unfolding file_get
file_get-Counted {h} {n} none v k l = (h, refl, Counted-cong (λ f. omega arith) v)
file_get-Counted {h} {n} (some g) v k l =
    let (c, e) = v.alive g (ground (arith, k g)) in
    let more = record c { refcount = up c.refcount } in
    (
      record h { cell = update h.cell g (some more) },
      rw (e, file_get),
      record {
        exact = λ f d i. ground (arith, i, v.exact f d, v.exact g c e, l g);
        alive = λ f i. elim (Bool-cases (g == f)) [
          | inl same ↦ (more, rw same)
          | inr other ↦ rw other (v.alive f (ground arith))
        ];
        held = λ f d i. ground (arith, i, v.held f d);
        few = l;
      },
    )

cell-file_destroy : (h : Heap) (f : ℕ) (c : File) → (file_destroy h f c).cell ≡ update h.cell f none
unfolding file_destroy
cell-file_destroy h f c = ground arith

file_put_live :
    (h : Heap) (g : ℕ) (c : File)
    → h.cell g ≡ some c
    → (h' : Heap) × (file_put h (some g) ≡ some h')
      × (h'.cell
          ≡ update h.cell g (
              if positive (down c.refcount)
              then some (record c { refcount = down c.refcount })
              else none))
unfolding file_put
file_put_live h g c e = elim (Bool-cases (positive (down c.refcount))) [
  | inl left ↦
      let fewer = record c { refcount = down c.refcount } in
      (record h { cell = update h.cell g (some fewer) }, rw (e, file_put, left), rw left)
  | inr last ↦ (file_destroy h g c, rw (e, file_put, last), rw last (cell-file_destroy h g c))
]

-- One pointer fewer: the call never touches freed memory, and the file dies with its last pointer.
pub file_put-Counted :
    {h : Heap} {n : ℕ → ℕ} (x : Option ℕ)
    → Counted h (λ f. n f + hits x f)
    → (h' : Heap) × (file_put h x ≡ some h') × Counted h' n
unfolding file_put
file_put-Counted {h} none v = (h, refl, Counted-cong (λ f. omega arith) v)
file_put-Counted {h} {n} (some g) v =
    let (c, e) = v.alive g (ground arith) in
    let (h', run, cells) = file_put_live h g c e in
    let after = λ (f : ℕ). ap (λ (m : ℕ → Option File). m f) cells in
    (
      h',
      run,
      record {
        exact = λ f d i. ground (arith, i, after f, v.exact f d, v.exact g c e, v.few g);
        alive = λ f i. elim (Bool-cases (g == f)) [
          | inl same ↦ (
            record c { refcount = down c.refcount },
            ground (arith, i, after f, same, v.exact g c e, v.few g),
          )
          | inr other ↦
              let (d, k) = v.alive f (ground arith) in (d, ground (arith, after f, other, k))
        ];
        held = λ f d i. ground (arith, i, after f, v.held f d, v.exact g c e, v.few g);
        few = λ f. omega (arith, v.few f);
      },
    )

count-set :
    (t : Slots) (fd f : ℕ) (v : Option ℕ)
    → fd < length t
    → count (set t fd v) f + hits (slot t fd) f ≡ count t f + hits v f
count-set [] fd f v h = absurd (omega arith)
count-set (x ∷ t) zero f v h = omega arith
count-set (x ∷ t) (suc fd) f v h = omega (arith, count-set t fd f v (omega arith))

fd_close_negative : (t : Slots) (n : ℕ) → fd_close t (negsuc n) ≡ (t, none)
unfolding fd_close
fd_close_negative t n = refl

fd_close_out : (t : Slots) (fd : ℕ) → leb max_fds fd ≡ true → fd_close t (pos fd) ≡ (t, none)
unfolding fd_close
fd_close_out t fd h = rw h refl

fd_close_in :
    (t : Slots) (fd : ℕ) → leb max_fds fd ≡ false → fd_close t (pos fd) ≡ (set t fd none, slot t fd)
unfolding fd_close
fd_close_in t fd h = rw h refl

-- If the live files are those that something points to, from this table or from elsewhere, and
-- each has as many references as there are pointers to it, fewer than 2 ^ 31, then `sys_close`
-- of any descriptor number on a full-sized table touches no freed file, changes the table as
-- `fd_close` does, succeeds exactly if `fd_get` finds a file there, and keeps that property for
-- the new table; so a file that nothing points to any more is no longer alive.
pub sys_close-Counted :
    {h : Heap} (others : ℕ → ℕ) (t : Slots) (fd : ℤ)
    → length t ≡ max_fds
    → Counted h (λ f. others f + count t f)
    → (h' : Heap) × (t' : Slots) × (r : Result (Unit {0})) × (sys_close h t fd ≡ some (h', t', r))
      × (t' ≡ (fd_close t fd).0)
      × ((r ≡ ok tt) ↔ ((f : ℕ) × (fd_get t fd ≡ some f)))
      × Counted h' (λ f. others f + count t' f)
unfolding sys_close fd_get
sys_close-Counted {h} others t (negsuc n) l v = (
  h,
  t,
  err einval,
  ap (put_closed h) (fd_close_negative t n),
  ap (λ r. r.0) (sym (fd_close_negative t n)),
  (λ e. cc, λ (f, e). cc),
  v,
)
sys_close-Counted {h} others t (pos fd) l v = elim (Bool-cases (leb max_fds fd)) [
  | inl out ↦ (
    h,
    t,
    err einval,
    ap (put_closed h) (fd_close_out t fd out),
    ap (λ r. r.0) (sym (fd_close_out t fd out)),
    rw (out, fd_get) (λ e. cc, λ (f, e). cc),
    v,
  )
  | inr in_range ↦
      let before : (f : ℕ)
          → others f + count t f ≡ others f + count (set t fd none) f + hits (slot t fd) f =
        λ f. omega (arith, count-set t fd f none (ground arith)) in
      let v0 = Counted-cong before v in
      elim (Option-cases (slot t fd)) [
        | inl empty ↦ (
          h,
          set t fd none,
          err einval,
          ap (put_closed h) (fd_close_in t fd in_range ∙ ap (λ o. (set t fd none, o)) empty),
          ap (λ r. r.0) (sym (fd_close_in t fd in_range)),
          rw (in_range, empty, fd_get) (λ e. cc, λ (f, e). cc),
          Counted-cong (λ f. ground (arith, empty)) v0,
        )
        | inr (g, used) ↦
            let (h', run, v') =
              file_put-Counted (some g) (Counted-cong (λ f. ground (arith, used)) v0) in
            (
              h',
              set t fd none,
              ok tt,
              ap (put_closed h) (fd_close_in t fd in_range ∙ ap (λ o. (set t fd none, o)) used)
                  ∙ ap (with_result (set t fd none)) run,
              ap (λ r. r.0) (sym (fd_close_in t fd in_range)),
              rw (in_range, used, fd_get) (λ e. (g, refl), λ e. refl),
              v',
            )
      ]
]

-- If the live files are those that something points to, from this table or from elsewhere, each
-- has as many references as there are pointers to it, and no file comes to 2 ^ 31 pointers with
-- this table counted twice, then copying the table touches no freed file, gives the same
-- pointers, and the property holds with this table counted twice.
pub fd_table_clone-Counted :
    (t : Slots) {h : Heap} (others : ℕ → ℕ)
    → Counted h (λ f. others f + count t f)
    → ((f : ℕ) → others f + count t f + count t f < 2 ^ 31)
    → (h' : Heap) × (fd_table_clone h t ≡ some (h', t))
      × Counted h' (λ f. others f + count t f + count t f)
unfolding fd_table_clone
fd_table_clone-Counted [] {h} others v l = (h, refl, Counted-cong (λ f. omega arith) v)
fd_table_clone-Counted (x ∷ t) {h} others v l =
    let (h', got, v') = file_get-Counted x v (λ f. omega arith) (λ f. omega (arith, l f)) in
    let (h'', rest, v'') =
      fd_table_clone-Counted t (λ f. others f + hits x f + hits x f)
        (Counted-cong (λ f. omega arith) v') (λ f. omega (arith, l f)) in
    (h'', rw (got, fd_table_clone, rest) refl, Counted-cong (λ f. omega arith) v'')
