-- ===== src/Core/Text.antt =====
-- Texts in ASCII, as lists of code points, and the classes of characters that the patterns name.
use swift.Prelude.{
  ℕ, ◌-◌, Bool, true, false, ◌&&◌, ◌||◌, List, [], ◌∷◌, leb, ◌==◌, if◌then◌else◌, Option, none,
  some,
}

abbrev pub between : ℕ → ℕ → ℕ → Bool
between low high c = leb low c && leb c high

abbrev pub is_upper : ℕ → Bool
is_upper = between 65 90

abbrev pub is_lower : ℕ → Bool
is_lower = between 97 122

abbrev pub is_digit : ℕ → Bool
is_digit = between 48 57

abbrev pub is_alnum : ℕ → Bool
is_alnum c = is_upper c || is_digit c

-- `str.upper()` of one character.
abbrev pub upper : ℕ → ℕ
upper c = if is_lower c then c - 32 else c

abbrev pub newline : ℕ
newline = 10

-- `$` of a pattern: the end, or a newline at the end.
abbrev pub at_end : List ℕ → Bool
at_end [] = true
at_end (c ∷ []) = c == newline
at_end (c ∷ d ∷ rest) = false

abbrev pub is_empty : List ℕ → Bool
is_empty [] = true
is_empty (c ∷ rest) = false

-- The characters that a pattern asks for, one class after the other, and what is left of the text.
unfoldable pub expect : List (ℕ → Bool) → List ℕ → Option (List ℕ)
expect [] text = some text
expect (p ∷ ps) [] = none
expect (p ∷ ps) (c ∷ rest) = let after = expect ps rest in if p c then after else none
