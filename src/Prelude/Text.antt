-- ===== src/Prelude/Text.antt =====
-- Texts as lists of code points, for code that looks at characters.
use Prim.Native.Char.{code}
use Prim.Native.String.{◌++◌ as append_text}
use vlog.Prelude.{ℕ, zero, suc, String, List, [], ◌∷◌}

abbrev pub Text : Type 0
Text = List ℕ

abbrev pub codes : String → Text
codes String.[] = []
codes (String.◌∷◌ c s) = code c ∷ codes s

-- `s[:n]`: the first n characters.
unfoldable pub take_chars : ℕ → String → String
take_chars zero s = String.[]
take_chars (suc n) String.[] = String.[]
take_chars (suc n) (String.◌∷◌ c s) = String.◌∷◌ c (take_chars n s)

-- `s + t`.
abbrev pub append : String → String → String
append s t = append_text s t
