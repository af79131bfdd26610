-- ===== src/Core/Iban.antt =====
-- backend/core/iban.py: the check digits and the national structure of an IBAN, on texts in ASCII.
pub mod Splitting
pub mod Parsing
use swift.Prelude.{
  ℕ, zero, suc, ◌+◌, ◌-◌, ◌*◌, ◌%◌, Bool, true, false, not, ◌&&◌, ◌||◌, List, [], ◌∷◌, map, select,
  take, drop, length, ltb, ◌==◌, if◌then◌else◌, Option, none, some, is_some,
}
use swift.Core.Text.{is_upper, is_digit, is_alnum, upper, at_end, is_empty, expect}

-- The characters of a position: `"n"` and `"c"`.
pub data CharClass : Type 0 where
  digits alphanumeric : CharClass

pub record IbanStructure : Type 0 where
  pub total : ℕ
  pub positions : List (ℕ × CharClass)

-- Two letters as one number.
abbrev pub letters : ℕ → ℕ → ℕ
letters a b = a * 256 + b

abbrev pub country_of : List ℕ → ℕ
country_of [] = 0
country_of (a ∷ []) = 0
country_of (a ∷ b ∷ rest) = letters a b

abbrev n : ℕ → ℕ × CharClass
n k = (k, digits)

abbrev c : ℕ → ℕ × CharClass
c k = (k, alphanumeric)

abbrev structure : ℕ → List (ℕ × CharClass) → IbanStructure
structure total positions = record { total = total; positions = positions }

-- `_IBAN_STRUCTURES.get(country)`: DE FR IT GB BE NL ES CH AT. US and CN are in the table without a
-- structure.
unfoldable pub iban_structure : ℕ → Option IbanStructure
iban_structure country =
    if country == letters 68 69
    then some (structure 22 (n 8 ∷ n 10 ∷ []))
    else if country == letters 70 82
    then some (structure 27 (n 5 ∷ n 5 ∷ c 11 ∷ n 2 ∷ []))
    else if country == letters 73 84
    then some (structure 27 (c 1 ∷ n 5 ∷ n 5 ∷ c 12 ∷ []))
    else if country == letters 71 66
    then some (structure 22 (c 4 ∷ n 6 ∷ n 8 ∷ []))
    else if country == letters 66 69
    then some (structure 16 (n 3 ∷ n 7 ∷ n 2 ∷ []))
    else if country == letters 78 76
    then some (structure 18 (c 4 ∷ n 10 ∷ []))
    else if country == letters 69 83
    then some (structure 24 (n 4 ∷ n 4 ∷ n 2 ∷ n 10 ∷ []))
    else if country == letters 67 72
    then some (structure 21 (n 5 ∷ c 12 ∷ []))
    else if country == letters 65 84
    then some (structure 20 (n 5 ∷ n 11 ∷ []))
    else none

unfoldable pub all_digits : List ℕ → Bool
all_digits [] = true
all_digits (d ∷ rest) = is_digit d && all_digits rest

-- What follows the first character of `^[A-Z0-9]+$`.
unfoldable pub alnum_to_end : List ℕ → Bool
alnum_to_end [] = true
alnum_to_end (d ∷ rest) = at_end (d ∷ rest) || (is_alnum d && alnum_to_end rest)

-- `_char_class_ok`
unfoldable pub char_class_ok : List ℕ → CharClass → Bool
char_class_ok segment digits = not (is_empty segment) && all_digits segment
char_class_ok [] alphanumeric = false
char_class_ok (d ∷ rest) alphanumeric = is_alnum d && alnum_to_end rest

-- At most `k` characters of [A-Z0-9], and the end.
unfoldable pub alnum_at_most : ℕ → List ℕ → Bool
alnum_at_most zero text = at_end text
alnum_at_most (suc k) [] = true
alnum_at_most (suc k) (d ∷ rest) = at_end (d ∷ rest) || (is_alnum d && alnum_at_most k rest)

abbrev one_to_thirty : Option (List ℕ) → Bool
one_to_thirty none = false
one_to_thirty (some []) = false
one_to_thirty (some (d ∷ rest)) = is_alnum d && alnum_at_most 29 rest

-- `IBAN_RE.match`
unfoldable pub matches_iban : List ℕ → Bool
matches_iban text = one_to_thirty (expect (is_upper ∷ is_upper ∷ is_digit ∷ is_digit ∷ []) text)

unfoldable pub cleaned : List ℕ → List ℕ
cleaned iban = map upper (select (λ d. not (d == 32)) iban)

-- The decimal digits so far with those of `int(ch, 36)`, which raises for any other character.
abbrev with_digit : ℕ → ℕ → Option ℕ
with_digit value d =
    if is_digit d
    then some (value * 10 + (d - 48))
    else if is_upper d
    then some (value * 100 + (d - 55))
    else none

abbrev go_on : Option ℕ → (ℕ → Option ℕ) → Option ℕ
go_on none f = none
go_on (some v) f = f v

unfoldable pub expanded : List ℕ → ℕ → Option ℕ
expanded [] value = some value
expanded (d ∷ rest) value = go_on (with_digit value d) (expanded rest)

-- The loop over the positions in `validate_iban`.
unfoldable pub segments_ok : List (ℕ × CharClass) → List ℕ → Bool
segments_ok [] bban = true
segments_ok ((k, kind) ∷ rest) bban =
    length (take k bban) == k && char_class_ok (take k bban) kind && segments_ok rest (drop k bban)

abbrev pub fits : Option IbanStructure → List ℕ → Bool
fits none text = false
fits (some s) text = length text == s.total && segments_ok s.positions (drop 4 text)

abbrev pub checked : Option ℕ → List ℕ → Option Bool
checked none text = none
checked (some v) text =
    if v % 97 == 1 then some (fits (iban_structure (country_of text)) text) else some false

abbrev pub check_digits : List ℕ → Option ℕ
check_digits text = go_on (expanded (drop 4 text) 0) (expanded (take 4 text))

-- The result is `none` where `int(ch, 36)` raises.
unfoldable pub validate_iban : List ℕ → Option Bool
validate_iban iban =
    if is_empty iban || not (matches_iban (cleaned iban))
    then some false
    else checked (check_digits (cleaned iban)) (cleaned iban)

pub record IbanComponents : Type 0 where
  pub iban : List ℕ
  pub country_code : List ℕ
  pub checksum : List ℕ
  pub bank_id : List ℕ
  pub branch_id : Option (List ℕ)
  pub account_number : List ℕ
  pub length_ : ℕ
  pub is_iso : Bool

-- `parts`
unfoldable pub split_bban : List (ℕ × CharClass) → List ℕ → List (List ℕ)
split_bban [] bban = []
split_bban ((k, kind) ∷ rest) bban = take k bban ∷ split_bban rest (drop k bban)

abbrev pub first : List (List ℕ) → List ℕ
first [] = []
first (p ∷ rest) = p

abbrev pub last : List (List ℕ) → List ℕ
last [] = []
last (p ∷ []) = p
last (p ∷ q ∷ rest) = last (q ∷ rest)

-- With two parts there is no branch; with one, which no structure has, it is empty.
abbrev pub branch : List (List ℕ) → Option (List ℕ)
branch (p ∷ q ∷ r ∷ rest) = some q
branch (p ∷ q ∷ []) = none
branch _ = some []

abbrev pub parts_of : Option IbanStructure → List ℕ → List (List ℕ)
parts_of none text = []
parts_of (some s) text = split_bban s.positions (drop 4 text)

abbrev pub components : Option IbanStructure → List ℕ → IbanComponents
components s text = record {
  iban = text;
  country_code = take 2 text;
  checksum = drop 2 (take 4 text);
  bank_id = first (parts_of s text);
  branch_id = branch (parts_of s text);
  account_number = last (parts_of s text);
  length_ = length text;
  is_iso = is_some s;
}

unfoldable pub parse_iban : List ℕ → Option IbanComponents
parse_iban iban =
    if is_empty iban || not (matches_iban (cleaned iban))
    then none
    else some (components (iban_structure (country_of (cleaned iban))) (cleaned iban))
