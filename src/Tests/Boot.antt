-- ===== src/Tests/Boot.antt =====
-- kernel/kernel/cmdline.c at two settings.
use jnu.Base.{◌≡◌, refl, List, [], ◌∷◌, false, some, arith}
use jnu.Boot.Cmdline.{Entry, cmdline_parse, cmdline_bool, cmdline_get, same_text, is_space}
use jnu.Boot.Cmdline.Laws.{AllSettings, text, cmdline_parse-text}

-- "a=0 b=xy "
abbrev settings : List Entry
settings =
    record { key = b'a' ∷ []; value = b'0' ∷ [] }
    ∷ record { key = b'b' ∷ []; value = b'x' ∷ b'y' ∷ [] }
    ∷ []

settings_fit : AllSettings settings
unfolding is_space
settings_fit = (
  ((omega arith, omega arith, omega arith), (refl, tt), (refl, tt)),
  (((omega arith, omega arith, omega arith), (refl, tt), (refl, (refl, tt))), tt),
)

cmdline_parse-text_example : cmdline_parse (some (text settings)) ≡ settings
cmdline_parse-text_example = cmdline_parse-text settings settings_fit (omega arith) (omega arith)

off : cmdline_bool settings (b'a' ∷ []) ≡ false
unfolding cmdline_bool cmdline_get same_text
off = refl
