-- ===== src/Core/Iban/Parsing.antt =====
-- What is parsed of a valid IBAN.
use swift.Prelude.{
  ℕ, ◌+◌, ◌%◌, ◌≤◌, ◌≡◌, refl, sym, ap, ◌∙◌, Bool, true, false, not, ◌||◌, List, [], ◌∷◌, ◌++◌,
  take, drop, length, arith, Option, none, some, Bool-cases, Option-cases, inl, inr, ◌==◌,
}
use mathlib.Core.List.{append-nil}
use mathlib.Core.Option.{some-injective}
use mathlib.Core.Bool.{true≢false}
use Prim.{absurd}
use std.Path.{subst}
use swift.Core.Text.{is_empty}
use swift.Core.Iban.{
  CharClass, IbanStructure, iban_structure, country_of, matches_iban, cleaned, segments_ok, fits,
  checked, check_digits, validate_iban, IbanComponents, split_bban, components, parse_iban,
}
use swift.Core.Iban.Splitting.{
  concat, widths, last_width, filled, segments-first, split-Ending, length-drop,
}

structure-total :
    (country : ℕ) (s : IbanStructure)
    → iban_structure country ≡ some s
    → s.total ≡ 4 + widths s.positions
unfolding iban_structure
structure-total country s h = ground arith

prefix :
    (text : List ℕ) → 4 ≤ length text → take 2 text ++ (drop 2 (take 4 text) ++ drop 4 text) ≡ text
prefix (a ∷ b ∷ c ∷ d ∷ rest) h = refl
prefix [] h = ground arith
prefix (a ∷ []) h = ground arith
prefix (a ∷ b ∷ []) h = ground arith
prefix (a ∷ b ∷ c ∷ []) h = ground arith

-- What is parsed where a branch follows the bank, and the account stands at the end.
pub record WithBranch (a b : ℕ) (rest : List (ℕ × CharClass)) (c : IbanComponents) (bban : List ℕ)
    : Type 0 where
  pub branch : List ℕ
  pub between : List ℕ
  pub bank_width : length c.bank_id ≡ a
  pub branch_there : c.branch_id ≡ some branch
  pub branch_width : length branch ≡ b
  pub account_width : length c.account_number ≡ last_width rest
  pub all_parts : c.bank_id ++ (branch ++ (between ++ c.account_number)) ≡ bban

-- The parts of a national number with these positions.
abbrev pub Parts : List (ℕ × CharClass) → IbanComponents → List ℕ → Type 0
Parts ((a, x) ∷ (b, y) ∷ []) c bban =
    (length c.bank_id ≡ a)
    × (c.branch_id ≡ none)
    × (length c.account_number ≡ b)
    × (c.bank_id ++ c.account_number ≡ bban)
Parts ((a, x) ∷ (b, y) ∷ p ∷ rest) c bban = WithBranch a b (p ∷ rest) c bban
Parts positions c bban = ⊥

abbrev pub StructuredAs : Option IbanStructure → IbanComponents → List ℕ → Type 0
StructuredAs none c text = ⊥
StructuredAs (some s) c text = Parts s.positions c (drop 4 text)

-- What `parse_iban` returns for the text.
abbrev pub Parsed : Option IbanComponents → List ℕ → Type 0
Parsed none text = ⊥
Parsed (some c) text =
    (c.is_iso ≡ true)
    × (c.iban ≡ text)
    × (c.length_ ≡ length text)
    × (length c.country_code ≡ 2)
    × (length c.checksum ≡ 2)
    × (c.country_code ++ (c.checksum ++ drop 4 text) ≡ text)
    × StructuredAs (iban_structure (country_of text)) c text

abbrev is_long : List (ℕ × CharClass) → Bool
is_long (p ∷ q ∷ rest) = true
is_long positions = false

structure-is_long :
    (country : ℕ) (s : IbanStructure) → iban_structure country ≡ some s → is_long s.positions ≡ true
unfolding iban_structure
structure-is_long country s h = ground arith

components-Parts :
    (s : IbanStructure) (text : List ℕ)
    → is_long s.positions ≡ true
    → segments_ok s.positions (drop 4 text) ≡ true
    → length (drop 4 text) ≡ widths s.positions
    → Parts s.positions (components (some s) text) (drop 4 text)
unfolding split_bban concat
components-Parts s text long ok full =
    parts s.positions long ok (filled s.positions (drop 4 text) ok full)
  where
    parts :
        (ps : List (ℕ × CharClass))
        → is_long ps ≡ true
        → segments_ok ps (drop 4 text) ≡ true
        → concat (split_bban ps (drop 4 text)) ≡ drop 4 text
        → Parts ps
            (components (some (record { total = s.total; positions = ps })) text)
            (drop 4 text)
    parts ((a, x) ∷ (b, y) ∷ []) long ok whole =
        let later = segments-first a x ((b, y) ∷ []) (drop 4 text) ok in
        (
          later.0,
          refl,
          (segments-first b y [] (drop a (drop 4 text)) later.1).0,
          ap (λ t. take a (drop 4 text) ++ t) (sym (append-nil (take b (drop a (drop 4 text)))))
              ∙ whole,
        )
    parts ((a, x) ∷ (b, y) ∷ p ∷ ps) long ok whole =
        let later = segments-first a x ((b, y) ∷ p ∷ ps) (drop 4 text) ok in
        let final = segments-first b y (p ∷ ps) (drop a (drop 4 text)) later.1 in
        let after = split-Ending p ps (drop b (drop a (drop 4 text))) final.1 in
        record {
          branch = take b (drop a (drop 4 text));
          between = after.between;
          bank_width = later.0;
          branch_there = refl;
          branch_width = final.0;
          account_width = after.width;
          all_parts =
              ap (λ t. take a (drop 4 text) ++ (take b (drop a (drop 4 text)) ++ t))
                (sym after.ends)
              ∙ whole;
        }
    parts (p ∷ []) long ok whole = absurd (true≢false (sym long))
    parts [] long ok whole = absurd (true≢false (sym long))

checked-fits :
    (value : Option ℕ) (text : List ℕ)
    → checked value text ≡ some true
    → fits (iban_structure (country_of text)) text ≡ true
checked-fits none text h = cc
checked-fits (some v) text h = elim (Bool-cases ((v % 97) == 1)) [
  | inl e ↦ some-injective _ _ (rw e at h)
  | inr e ↦ cc (rw e at h)
]

head_widths :
    (text : List ℕ)
    → 4 ≤ length text
    → (length (take 2 text) ≡ 2) × (length (drop 2 (take 4 text)) ≡ 2)
head_widths (a ∷ b ∷ c ∷ d ∷ rest) h = (refl, refl)
head_widths [] h = ground arith
head_widths (a ∷ []) h = ground arith
head_widths (a ∷ b ∷ []) h = ground arith
head_widths (a ∷ b ∷ c ∷ []) h = ground arith

fits-Parsed :
    (s : IbanStructure) (text : List ℕ)
    → iban_structure (country_of text) ≡ some s
    → fits (some s) text ≡ true
    → Parsed (some (components (some s) text)) text
fits-Parsed s text there h = elim (Bool-cases (segments_ok s.positions (drop 4 text))) [
  | inr e ↦ ground arith
  | inl e ↦
      let total = structure-total (country_of text) s there in
      let exact : length text ≡ s.total = ground arith in
      let full : length (drop 4 text) ≡ widths s.positions =
        omega (arith, exact, total, length-drop 4 text) in
      let four : 4 ≤ length text = omega (arith, exact, total) in
      let heads = head_widths text four in
      rw there (
        refl,
        refl,
        refl,
        heads.0,
        heads.1,
        prefix text four,
        components-Parts s text (structure-is_long (country_of text) s there) e full,
      )
]

-- What is parsed of a valid IBAN: the result is there and is marked as of a known structure, with
-- the cleaned text and its length, and a country code and a checksum of two characters each that
-- begin the text. In the rest of the text bank_id is what stands first, with the width of the
-- first position of the structure, and account_number what stands last, with the width of the
-- last; with two positions these make up the rest and there is no branch, and with more of them
-- branch_id follows bank_id, with the width of the second position.
pub parse-validate :
    (iban : List ℕ) → validate_iban iban ≡ some true → Parsed (parse_iban iban) (cleaned iban)
unfolding validate_iban parse_iban
parse-validate iban h = elim (Bool-cases (is_empty iban || not (matches_iban (cleaned iban)))) [
  | inl e ↦ cc (rw e at h)
  | inr e ↦
      let text = cleaned iban in
      let fit = checked-fits (check_digits text) text (rw e at h) in
      elim (Option-cases (iban_structure (country_of text))) [
        | inl none_there ↦ cc (rw none_there at fit)
        | inr (s, there) ↦
            let parsed = fits-Parsed s text there (rw there at fit) in
            rw e (subst (λ o. Parsed (some (components o text)) text) (sym there) parsed)
      ]
]
