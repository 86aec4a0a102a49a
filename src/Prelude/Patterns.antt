-- ===== src/Prelude/Patterns.antt =====
-- Texts as lists of code units, and the searches that case-insensitive patterns of literals make.
use Prim.Native.Nat.{ℕ, ◌+◌, ◌-◌}
use Prim.Native.Char.{code}
use Prim.Native.String.{String}
use mathlib.Core.Bool.{Bool, true, false, ◌&&◌, ◌||◌}
use mathlib.Core.List.{List, [], ◌∷◌}
use trust_gate.Prelude.Tests.{leb, ◌=?◌, if◌then◌else◌}

-- A JavaScript string of which the code is read, as its code units.
abbrev pub Text : Type 0
Text = List ℕ

abbrev pub codes : String → Text
codes String.[] = []
codes (String.◌∷◌ c s) = code c ∷ codes s

-- The code unit in lower case; the patterns are ASCII.
abbrev pub to_lower : ℕ → ℕ
to_lower c = if leb b'A' c && leb c b'Z' then c + 32 else c

-- The code unit in upper case.
abbrev pub to_upper : ℕ → ℕ
to_upper c = if leb b'a' c && leb c b'z' then c - 32 else c

-- `text` begins with the literal, whatever the case
unfoldable pub begins : Text → Text → Bool
begins [] text = true
begins (p ∷ literal) [] = false
begins (p ∷ literal) (c ∷ text) = (p =? to_lower c) && begins literal text

-- `/literal/i.test(text)`
unfoldable pub contains : Text → Text → Bool
unfolding begins
contains literal [] = begins literal []
contains literal (c ∷ text) = begins literal (c ∷ text) || contains literal text

-- `/literal|…/i.test(text)`
unfoldable pub contains_any : List String → Text → Bool
unfolding contains
contains_any [] text = false
contains_any (literal ∷ literals) text = contains (codes literal) text || contains_any literals text

-- `${a}${b}`
unfoldable pub concat : String → String → String
concat String.[] b = b
concat (String.◌∷◌ c a) b = String.◌∷◌ c (concat a b)

-- whether two texts are the same
abbrev pub text_eq : Text → Text → Bool
text_eq [] [] = true
text_eq [] (c ∷ t) = false
text_eq (c ∷ s) [] = false
text_eq (c ∷ s) (d ∷ t) = (c =? d) && text_eq s t
