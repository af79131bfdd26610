-- ===== src/Nextgen/Programs/Templates.antt =====
-- backend/nextgen/cbdc.py, `ProgrammableMoneyService._validate_conditions` and `_allows`: what a
-- template needs of the conditions of an instrument, and when they let an amount go.
use swift.Prelude.{
  ℕ, Bool, true, false, ◌&&◌, Option, none, some, List, [], ◌∷◌, count, is_some, leb, ◌==◌,
  if◌then◌else◌,
}
use swift.Prelude.Int.{ℤ, pos, leb_ℤ}

-- The keys of `PROGRAM_TEMPLATES`, and any other name.
pub data Template : Type 0 where
  conditional_refund directed_subsidy escrow_release expiry merchant_category multi_approval
        staged_payment :
      Template
  unsupported : ℕ → Template

abbrev pub is_supported : Template → Bool
is_supported (unsupported name) = false
is_supported _ = true

-- The dictionary of the conditions: the keys that the templates read.
pub record Conditions : Type 0 where
  pub condition_key : Option ℕ
  pub merchant_categories : Option (List ℕ)
  pub approval_key : Option ℕ
  pub expires_at : Option ℕ
  pub approvers : Option (List ℕ)
  pub threshold : Option ℤ
  pub max_release : Option ℤ

-- The dictionary of the context: `holds` is the truth of the value at a key.
pub record Context : Type 0 where
  pub merchant_category : Option ℕ
  pub approvals : List ℕ
  pub holds : ℕ → Bool

-- `_validate_conditions`: no key is missing.
unfoldable pub validate_conditions : Template → Conditions → Bool
validate_conditions conditional_refund c = is_some c.condition_key
validate_conditions directed_subsidy c = is_some c.merchant_categories
validate_conditions escrow_release c = is_some c.approval_key
validate_conditions expiry c = is_some c.expires_at
validate_conditions merchant_category c = is_some c.merchant_categories
validate_conditions multi_approval c = is_some c.approvers && is_some c.threshold
validate_conditions staged_payment c = is_some c.max_release
validate_conditions (unsupported name) c = false

abbrev pub member : ℕ → List ℕ → Bool
member x [] = false
member x (y ∷ ys) = if x == y then true else member x ys

-- `set(...)`
abbrev pub distinct : List ℕ → List ℕ
distinct [] = []
distinct (x ∷ xs) = let rest = distinct xs in if member x rest then rest else x ∷ rest

abbrev pub is_in : Option ℕ → List ℕ → Bool
is_in none xs = false
is_in (some x) xs = member x xs

-- `len(set(approvals) & set(approvers))`
abbrev pub common : List ℕ → List ℕ → ℕ
common approvals approvers = count (λ a. member a approvers) (distinct approvals)

infixl 5 ◌>>=◌
abbrev ◌>>=◌ : {A B : Type 0} → Option A → (A → Option B) → Option B
none >>= f = none
(some a) >>= f = f a

-- `none` where a key is missing.
unfoldable pub allows : Template → Conditions → ℤ → Context → ℕ → Option Bool
allows conditional_refund c amount context now = do key ← c.condition_key; some (context.holds key)
allows directed_subsidy c amount context now = do
  categories ← c.merchant_categories
  some (is_in context.merchant_category categories)
allows escrow_release c amount context now = do key ← c.approval_key; some (context.holds key)
allows expiry c amount context now = do expires_at ← c.expires_at; some (leb now expires_at)
allows merchant_category c amount context now = do
  categories ← c.merchant_categories
  some (is_in context.merchant_category categories)
allows multi_approval c amount context now = do
  approvers ← c.approvers
  threshold ← c.threshold
  some (leb_ℤ threshold (pos (common context.approvals approvers)))
allows staged_payment c amount context now = do
  max_release ← c.max_release
  some (leb_ℤ amount max_release)
allows (unsupported name) c amount context now = some false
