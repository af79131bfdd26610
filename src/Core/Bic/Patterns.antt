-- ===== src/Core/Bic/Patterns.antt =====
-- The two patterns of a BIC, and normalization between them.
use swift.Prelude.{
  ℕ, ◌≡◌, refl, Bool, true, List, [], ◌∷◌, map, arith, inl, inr, Bool-cases, Option-cases, some,
}
use swift.Core.Text.{expect, is_upper, is_lower, upper, at_end}
use swift.Core.Bic.{
  header_classes, data_classes, matches_header, matches_data, header, data_, validate_bic,
  normalize_bic,
}

-- A class of the one pattern, and the class of the other that takes its capitals.
abbrev Raises : (ℕ → Bool) → (ℕ → Bool) → Type 0
Raises p q = (c : ℕ) → p c ≡ true → q (upper c) ≡ true

abbrev RaisesAll : List (ℕ → Bool) → List (ℕ → Bool) → Type 0
RaisesAll [] [] = Unit
RaisesAll [] (q ∷ qs) = ⊥
RaisesAll (p ∷ ps) [] = ⊥
RaisesAll (p ∷ ps) (q ∷ qs) = Raises p q × RaisesAll ps qs

expect-upper :
    (ps qs : List (ℕ → Bool)) (text rest : List ℕ)
    → RaisesAll ps qs
    → expect ps text ≡ some rest
    → expect qs (map upper text) ≡ some (map upper rest)
unfolding expect
expect-upper [] [] text rest r h = cc
expect-upper [] (q ∷ qs) text rest r h = elim r [ ]
expect-upper (p ∷ ps) [] text rest r h = elim r [ ]
expect-upper (p ∷ ps) (q ∷ qs) [] rest r h = cc
expect-upper (p ∷ ps) (q ∷ qs) (c ∷ text) rest r h = elim (Bool-cases (p c)) [
  | inl e ↦ rw (r.0 c e) (expect-upper ps qs text rest r.1 (rw e at h))
  | inr e ↦ cc (rw e at h)
]

at_end-upper : (text : List ℕ) → at_end text ≡ true → at_end (map upper text) ≡ true
at_end-upper [] h = refl
at_end-upper (c ∷ []) h = ground arith
at_end-upper (c ∷ d ∷ text) h = cc

headers_raise : RaisesAll header_classes data_classes
headers_raise =
    let letter : Raises is_lower is_upper = λ c h. ground arith in
    (
      letter,
      (
        letter,
        (
          letter,
          (letter, (letter, (letter, ((λ c h. ground arith), ((λ c h. ground arith), tt))))),
        ),
      ),
    )

-- A text that the header pattern takes is a BIC in the data pattern too, once it is normalized.
pub normalize-header :
    (bic : List ℕ) → validate_bic bic header ≡ true → validate_bic (normalize_bic bic) data_ ≡ true
unfolding validate_bic matches_header matches_data normalize_bic
normalize-header [] h = cc
normalize-header (c ∷ text) h = elim (Option-cases (expect header_classes (c ∷ text))) [
  | inl e ↦ cc (rw e at h)
  | inr (rest, e) ↦
      let left = expect-upper header_classes data_classes (c ∷ text) rest headers_raise e in
      let ends : at_end (map upper rest) ≡ true = at_end-upper rest (rw e at h) in
      rw (left, ends) refl
]
