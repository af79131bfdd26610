-- ===== src/Core/Bic.antt =====
-- backend/core/bic.py: the two patterns of a BIC.
pub mod Patterns
use swift.Prelude.{
  ℕ, zero, suc, ◌+◌, ◌≡◌, refl, Bool, true, false, not, ◌&&◌, ◌||◌, List, [], ◌∷◌, map, ◌==◌,
  if◌then◌else◌, arith, length, ◌⊎◌, inl, inr, Bool-cases, Option, none, some,
}
use swift.Core.Text.{
  expect, between, is_upper, is_lower, is_digit, is_alnum, upper, newline, at_end, is_empty,
}

-- [a-z]{6,6}[a-z2-9][a-np-z0-9]
abbrev pub header_classes : List (ℕ → Bool)
header_classes =
    is_lower
    ∷ is_lower
    ∷ is_lower
    ∷ is_lower
    ∷ is_lower
    ∷ is_lower
    ∷ (λ c. is_lower c || between 50 57 c)
    ∷ (λ c. between 97 110 c || between 112 122 c || is_digit c)
    ∷ []

-- [A-Z]{6}[A-Z2-9][A-NP-Z0-9]
abbrev pub data_classes : List (ℕ → Bool)
data_classes =
    is_upper
    ∷ is_upper
    ∷ is_upper
    ∷ is_upper
    ∷ is_upper
    ∷ is_upper
    ∷ (λ c. is_upper c || between 50 57 c)
    ∷ (λ c. between 65 78 c || between 80 90 c || is_digit c)
    ∷ []

abbrev pub branch_classes : List (ℕ → Bool)
branch_classes = is_alnum ∷ is_alnum ∷ is_alnum ∷ []

abbrev pub ends_there : Option (List ℕ) → Bool
ends_there none = false
ends_there (some rest) = at_end rest

-- `HEADER_BIC_RE.match`
unfoldable pub matches_header : List ℕ → Bool
matches_header text = ends_there (expect header_classes text)

abbrev pub branch_or_end : Option (List ℕ) → Bool
branch_or_end none = false
branch_or_end (some rest) = at_end rest || ends_there (expect branch_classes rest)

-- `DATA_BIC_RE.match`
unfoldable pub matches_data : List ℕ → Bool
matches_data text = branch_or_end (expect data_classes text)

pub data BicMode : Type 0 where
  header data_ : BicMode

unfoldable pub validate_bic : List ℕ → BicMode → Bool
validate_bic bic header = not (is_empty bic) && matches_header bic
validate_bic bic data_ = not (is_empty bic) && matches_data bic

unfoldable pub normalize_bic : List ℕ → List ℕ
normalize_bic bic = map upper bic
