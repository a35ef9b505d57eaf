-- ===== src/Boot/Cmdline/Laws.antt =====
-- kernel/kernel/cmdline.c: the limits of the table, and how a text of settings is read.
use jnu.Base.{
  ℕ, zero, suc, ◌+◌, ◌≤◌, ◌<◌, ◌≡◌, ◌≢◌, refl, sym, ap, ◌∙◌, ◌⊎◌, inl, inr, Bool, true, false,
  Option, none, some, List, [], ◌∷◌, ◌++◌, length, length-append, length-take, take, leb, ◌==◌,
  ◌||◌, arith, Bool-cases,
}
use mathlib.Core.List.{append-nil, append_assoc}
use jnu.Boot.Cmdline.{
  Entry, is_space, split_at, skip_spaces, store_pair, key_end, read_value, parse_word, parse_words,
  cmdline_parse, cmdline_buf_size, max_entries, max_key, max_value,
}

-- An entry with its terminators is within its fields.
abbrev pub EntryFits : Entry → Type 0
EntryFits e = (0 < length e.key) × (length e.key < max_key) × (length e.value < max_value)

abbrev pub AllFit : List Entry → Type 0
AllFit [] = Unit {0}
AllFit (e ∷ es) = EntryFits e × AllFit es

AllFit-snoc : (es : List Entry) (e : Entry) → AllFit es → EntryFits e → AllFit (es ++ e ∷ [])
AllFit-snoc [] e v f = (f, tt)
AllFit-snoc (x ∷ es) e v f = (v.0, AllFit-snoc es e v.1 f)

TableFits : List Entry → Type 0
TableFits es = AllFit es × (length es ≤ max_entries)

store_pair-Fits : (es : List Entry) (k v : List ℕ) → TableFits es → TableFits (store_pair es k v)
unfolding store_pair TableFits
store_pair-Fits es k v (fit, few) =
    elim (Bool-cases (leb max_entries (length es) || length k == 0)) [
      | inl e ↦ rw e (fit, few)
      | inr e ↦ rw e (
        AllFit-snoc es _ fit (
          ground (arith, length-take 31 k, e),
          ground (arith, length-take 31 k),
          ground (arith, length-take 63 v),
        ),
        ground (arith, e, length-append es (record { key = take 31 k; value = take 63 v } ∷ [])),
      )
    ]

List-cases : (q : List ℕ) → (q ≡ []) ⊎ ((c : ℕ) × (cs : List ℕ) × (q ≡ c ∷ cs))
List-cases [] = inl refl
List-cases (c ∷ cs) = inr (c, cs, refl)

parse_words-Fits :
    (n : ℕ) (es : List Entry) (p : List ℕ) → TableFits es → TableFits (parse_words n es p)
unfolding parse_words parse_word
parse_words-Fits zero es p v = v
parse_words-Fits (suc n) es p v = elim (List-cases (skip_spaces p)) [
  | inl e ↦ rw (e, parse_words) v
  | inr (c, cs, e) ↦
      let word = split_at key_end (c ∷ cs) in
      let value = read_value word.1 in
      rw (e, parse_words)
        (parse_words-Fits n (store_pair es word.0 value.0) value.1
          (store_pair-Fits es word.0 value.0 v))
]

-- For every command line, or none, `cmdline_parse` stores at most 32 entries, each with a key
-- of 1 to 31 bytes and a value of at most 63 bytes.
pub cmdline_parse-Fits :
    (s : Option (List ℕ)) → AllFit (cmdline_parse s) × (length (cmdline_parse s) ≤ max_entries)
unfolding cmdline_parse TableFits
cmdline_parse-Fits none = (tt, omega arith)
cmdline_parse-Fits (some s) =
    parse_words-Fits (length (take 1023 s)) [] (take 1023 s) (tt, omega arith)

-- Text without a byte that is `stop`.
abbrev pub Free : (ℕ → Bool) → List ℕ → Type 0
Free stop [] = Unit {0}
Free stop (c ∷ cs) = (stop c ≡ false) × Free stop cs

-- A setting that the command line can express.
abbrev pub IsSetting : Entry → Type 0
IsSetting e = EntryFits e × Free key_end e.key × Free is_space e.value

abbrev pub AllSettings : List Entry → Type 0
AllSettings [] = Unit {0}
AllSettings (e ∷ es) = IsSetting e × AllSettings es

-- The settings written as `key=value`, a space behind each.
abbrev pub text : List Entry → List ℕ
text [] = []
text (e ∷ es) = e.key ++ (b'=' ∷ (e.value ++ (b' ' ∷ text es)))

split_at-word :
    (stop : ℕ → Bool) (w : List ℕ) (d : ℕ) (rest : List ℕ)
    → Free stop w
    → stop d ≡ true
    → split_at stop (w ++ d ∷ rest) ≡ (w, d ∷ rest)
unfolding split_at
split_at-word stop [] d rest f h = rw h refl
split_at-word stop (c ∷ w) d rest f h = rw (f.0, split_at-word stop w d rest f.1 h) refl

take_all : (n : ℕ) (xs : List ℕ) → length xs ≤ n → take n xs ≡ xs
take_all zero [] h = refl
take_all zero (x ∷ xs) h = absurd (omega arith)
take_all (suc n) [] h = refl
take_all (suc n) (x ∷ xs) h = ap (λ l. x ∷ l) (take_all n xs (omega arith))

store_pair-room :
    (es : List Entry) (e : Entry)
    → length es < max_entries
    → EntryFits e
    → store_pair es e.key e.value ≡ es ++ e ∷ []
unfolding store_pair
store_pair-room es e h f =
    let room : (leb max_entries (length es) || length e.key == 0) ≡ false = ground (arith, f.0) in
    rw (room, take_all 31 e.key (omega (arith, f.1)), take_all 63 e.value (omega (arith, f.2))) refl

skip_spaces-word :
    (w rest : List ℕ) → 0 < length w → Free key_end w → skip_spaces (w ++ rest) ≡ w ++ rest
unfolding skip_spaces
skip_spaces-word [] rest h f = absurd (omega arith)
skip_spaces-word (c ∷ w) rest h f = rw (no_space) refl
  where
    no_space : is_space c ≡ false
    no_space = ground (arith, f.0)

skip_spaces-text : (es : List Entry) → AllSettings es → skip_spaces (text es) ≡ text es
unfolding skip_spaces
skip_spaces-text [] v = refl
skip_spaces-text (e ∷ es) v =
    skip_spaces-word e.key (b'=' ∷ (e.value ++ (b' ' ∷ text es))) v.0.0.0 v.0.1

read_value-text :
    (e : Entry) (rest : List ℕ)
    → Free is_space e.value
    → read_value (b'=' ∷ (e.value ++ (b' ' ∷ rest))) ≡ (e.value, b' ' ∷ rest)
unfolding read_value is_space
read_value-text e rest f = split_at-word is_space e.value b' ' rest f refl

equals_ends : key_end b'=' ≡ true
unfolding is_space
equals_ends = refl

parse_word-text :
    (table : List Entry) (x : Entry) (es : List Entry)
    → IsSetting x
    → length table < max_entries
    → parse_word table (text (x ∷ es)) ≡ (table ++ x ∷ [], b' ' ∷ text es)
unfolding parse_word
parse_word-text table x es v room =
    rw
      (
        split_at-word key_end x.key b'=' (x.value ++ (b' ' ∷ text es)) v.1 equals_ends,
        read_value-text x (text es) v.2,
        store_pair-room table x room v.0,
      )
      refl

no_text : (x : Entry) (es : List Entry) → IsSetting x → text (x ∷ es) ≢ []
no_text x es v e = go x.key v.0.0 e
  where
    go : (w : List ℕ) → 0 < length w → (w ++ (b'=' ∷ (x.value ++ (b' ' ∷ text es)))) ≡ [] → ⊥
    go [] h k = absurd (omega arith)
    go (c ∷ w) h k = cc

skip_blank : (es : List Entry) → AllSettings es → skip_spaces (b' ' ∷ text es) ≡ text es
unfolding skip_spaces is_space
skip_blank es v = skip_spaces-text es v

-- Words that are the text of settings are stored one by one.
parse_words-text :
    (n : ℕ) (table es : List Entry) (p : List ℕ)
    → AllSettings es
    → length table + length es ≤ max_entries
    → length es ≤ n
    → skip_spaces p ≡ text es
    → parse_words n table p ≡ table ++ es
unfolding parse_words
parse_words-text zero table [] p v room fuel e = sym (append-nil table)
parse_words-text zero table (x ∷ es) p v room fuel e = absurd (omega arith)
parse_words-text (suc n) table [] p v room fuel e = rw (e, parse_words) (sym (append-nil table))
parse_words-text (suc n) table (x ∷ es) p v room fuel e = elim (List-cases (skip_spaces p)) [
  | inl e' ↦ absurd (no_text x es v.0 (sym e ∙ e'))
  | inr (c, cs, e') ↦
      let one : parse_word table (c ∷ cs) ≡ (table ++ x ∷ [], b' ' ∷ text es) =
        ap (parse_word table) (sym e' ∙ e) ∙ parse_word-text table x es v.0 (omega arith) in
      let later : parse_words n (table ++ x ∷ []) (b' ' ∷ text es) ≡ (table ++ x ∷ []) ++ es =
        parse_words-text n (table ++ x ∷ []) es (b' ' ∷ text es) v.1
          (omega (arith, length-append table (x ∷ []))) (omega arith) (skip_blank es v.1) in
      rw (e', parse_words, one) (later ∙ append_assoc table (x ∷ []) es)
]

-- If at most 32 settings have keys of 1 to 31 bytes without a space, a tab or `=`, and values
-- of at most 63 bytes without a space or a tab, and their text, `key=value` with a space behind
-- each, is shorter than 1024 bytes, then `cmdline_parse` of that text stores exactly those
-- settings in their order.
pub cmdline_parse-text :
    (es : List Entry)
    → AllSettings es
    → length es ≤ max_entries
    → length (text es) < cmdline_buf_size
    → cmdline_parse (some (text es)) ≡ es
unfolding cmdline_parse
cmdline_parse-text es v few short = rw (take_all 1023 (text es) (omega arith)) (
    parse_words-text (length (text es)) [] es (text es) v (omega arith) (long es v)
      (skip_spaces-text es v))
  where
    long : (fs : List Entry) → AllSettings fs → length fs ≤ length (text fs)
    long [] w = omega arith
    long (f ∷ fs) w = omega (
      arith,
      long fs w.1,
      length-append f.key (b'=' ∷ (f.value ++ (b' ' ∷ text fs))),
      length-append f.value (b' ' ∷ text fs),
    )
