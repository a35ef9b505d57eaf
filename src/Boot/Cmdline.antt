-- ===== src/Boot/Cmdline.antt =====
-- kernel/kernel/cmdline.c: the command line, split into keys and values. Strings are lists of bytes
-- without their terminator. An entry past `entry_count` is never looked at, so the table is a list.
pub mod Laws
use jnu.Base.{
  ℕ, zero, suc, ◌≡◌, Bool, true, false, not, ◌&&◌, ◌||◌, Option, none, some, List, [], ◌∷◌, ◌++◌,
  length, take, leb, ◌==◌, if◌then◌else◌,
}

pub record Entry : Type 0 where
  pub key : List ℕ
  pub value : List ℕ

abbrev pub cmdline_buf_size : ℕ
cmdline_buf_size = 1024

abbrev pub max_entries : ℕ
max_entries = 32

abbrev pub max_key : ℕ
max_key = 32

abbrev pub max_value : ℕ
max_value = 64

unfoldable pub is_space : ℕ → Bool
is_space c = c == b' ' || c == 9

-- The text up to the first byte that is `stop`, and from there on.
unfoldable pub split_at : (ℕ → Bool) → List ℕ → List ℕ × List ℕ
split_at stop [] = ([], [])
split_at stop (c ∷ cs) =
    let (word, rest) = split_at stop cs in if stop c then ([], c ∷ cs) else (c ∷ word, rest)

-- `while (is_space(*p)) p++`
unfoldable pub skip_spaces : List ℕ → List ℕ
skip_spaces [] = []
skip_spaces (c ∷ cs) = let rest = skip_spaces cs in if is_space c then rest else c ∷ cs

-- Nothing is stored in a full table or under an empty key; what is too long is cut.
unfoldable pub store_pair : List Entry → List ℕ → List ℕ → List Entry
store_pair table k v =
    if leb max_entries (length table) || length k == 0
    then table
    else table ++ record { key = take 31 k; value = take 63 v } ∷ []

abbrev pub key_end : ℕ → Bool
key_end c = is_space c || c == b'='

-- The value behind a key, "1" if there is none, and the text that is left.
unfoldable pub read_value : List ℕ → List ℕ × List ℕ
read_value [] = (b'1' ∷ [], [])
read_value (c ∷ cs) = if c == b'=' then split_at is_space cs else (b'1' ∷ [], c ∷ cs)

-- One word, from its first byte on: the table with its pair, and the text behind it.
unfoldable pub parse_word : List Entry → List ℕ → List Entry × List ℕ
parse_word table p =
    let (key, behind) = split_at key_end p in
    let (value, rest) = read_value behind in (store_pair table key value, rest)

-- The loop over the words, with `n` rounds left.
unfoldable pub parse_words : ℕ → List Entry → List ℕ → List Entry
parse_words zero table p = table
parse_words (suc n) table p = elim (skip_spaces p) [
  | [] ↦ table
  | c ∷ cs ↦ let (t, rest) = parse_word table (c ∷ cs) in parse_words n t rest
]

-- A null pointer is `none`.
unfoldable pub cmdline_parse : Option (List ℕ) → List Entry
cmdline_parse none = []
cmdline_parse (some s) = let raw = take 1023 s in parse_words (length raw) [] raw

-- `strcmp(a, b) == 0`
unfoldable pub same_text : List ℕ → List ℕ → Bool
same_text [] [] = true
same_text [] (c ∷ cs) = false
same_text (c ∷ cs) [] = false
same_text (c ∷ cs) (d ∷ ds) = c == d && same_text cs ds

unfoldable pub cmdline_get : List Entry → List ℕ → Option (List ℕ)
cmdline_get [] key = none
cmdline_get (e ∷ table) key = if same_text e.key key then some e.value else cmdline_get table key

unfoldable pub cmdline_bool : List Entry → List ℕ → Bool
cmdline_bool table key = elim (cmdline_get table key) [
  | none ↦ false
  | some v ↦ not (same_text v (b'0' ∷ []))
]
