-- ===== src/Core/Tests.antt =====
-- The theorems on the BICs swhqbebb and DEUTDEFF500, and on two IBANs.
use swift.Prelude.{ℕ, ◌≡◌, refl, true, Option, none, some, List, [], ◌∷◌, ◌++◌}
use swift.Core.Text.{expect, newline}
use swift.Core.Iban.{
  validate_iban, parse_iban, IbanComponents, split_bban, matches_iban, alnum_at_most, cleaned,
  expanded, iban_structure, segments_ok, char_class_ok, all_digits, alnum_to_end,
}
use swift.Core.Iban.Parsing.{Parsed, parse-validate}
use swift.Core.Bic.{data_, validate_bic, normalize_bic, matches_header, matches_data}
use swift.Core.Bic.Patterns.{normalize-header}

abbrev swhqbebb : List ℕ
swhqbebb = 115 ∷ 119 ∷ 104 ∷ 113 ∷ 98 ∷ 101 ∷ 98 ∷ 98 ∷ []

abbrev deutdeff500 : List ℕ
deutdeff500 = 68 ∷ 69 ∷ 85 ∷ 84 ∷ 68 ∷ 69 ∷ 70 ∷ 70 ∷ 53 ∷ 48 ∷ 48 ∷ []

normalize-header_example : validate_bic (normalize_bic swhqbebb) data_ ≡ true
unfolding validate_bic matches_header expect
normalize-header_example = normalize-header swhqbebb refl

-- A newline after a BIC is let through.
validate_bic-newline : validate_bic (deutdeff500 ++ newline ∷ []) data_ ≡ true
unfolding validate_bic matches_data expect
validate_bic-newline = refl

-- de89 3704 0044 0532 0130 00
abbrev german : List ℕ
german =
    100 ∷ 101 ∷ 56 ∷ 57 ∷ 32 ∷ 51 ∷ 55 ∷ 48 ∷ 52 ∷ 32 ∷ 48 ∷ 48 ∷ 52 ∷ 52 ∷ 32 ∷ 48 ∷ 53 ∷ 51 ∷ 50
    ∷ 32 ∷ 48 ∷ 49 ∷ 51 ∷ 48 ∷ 32 ∷ 48 ∷ 48 ∷ []

validate_iban-german : validate_iban german ≡ some true
unfolding validate_iban matches_iban expect alnum_at_most cleaned expanded iban_structure
    segments_ok char_class_ok all_digits alnum_to_end
validate_iban-german = refl

parse-validate_example : Parsed (parse_iban german) (cleaned german)
parse-validate_example = parse-validate german validate_iban-german

-- A newline after an IBAN passes the pattern, and `int(ch, 36)` then raises.
validate_iban-newline : validate_iban (german ++ newline ∷ []) ≡ none
unfolding validate_iban matches_iban expect alnum_at_most cleaned expanded
validate_iban-newline = refl

-- FR14 20041 01005 0500013M026 06: what is taken for the account is the last part, 06.
abbrev french : List ℕ
french =
    70 ∷ 82 ∷ 49 ∷ 52 ∷ 50 ∷ 48 ∷ 48 ∷ 52 ∷ 49 ∷ 48 ∷ 49 ∷ 48 ∷ 48 ∷ 53 ∷ 48 ∷ 53 ∷ 48 ∷ 48 ∷ 48
    ∷ 49 ∷ 51 ∷ 77 ∷ 48 ∷ 50 ∷ 54 ∷ 48 ∷ 54 ∷ []

abbrev account_of : Option IbanComponents → List ℕ
account_of none = []
account_of (some c) = c.account_number

parse_iban-french :
    (validate_iban french ≡ some true) × (account_of (parse_iban french) ≡ 48 ∷ 54 ∷ [])
unfolding validate_iban parse_iban matches_iban expect alnum_at_most cleaned expanded iban_structure
    segments_ok char_class_ok all_digits alnum_to_end split_bban
parse_iban-french = (refl, refl)
