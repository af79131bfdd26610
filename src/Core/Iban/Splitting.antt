-- ===== src/Core/Iban/Splitting.antt =====
-- The parts that the positions of a structure cut a text into.
use swift.Prelude.{
  ℕ, zero, suc, ◌+◌, ◌-◌, ◌≡◌, refl, sym, ap, ◌∙◌, true, List, [], ◌∷◌, ◌++◌, take, drop, length,
  arith, Bool-cases, inl, inr,
}
use mathlib.Core.List.{append-nil}
use swift.Core.Iban.{CharClass, segments_ok, split_bban, last}

unfoldable pub concat : List (List ℕ) → List ℕ
concat [] = []
concat (p ∷ rest) = p ++ concat rest

-- What the positions leave of a text, and how much they take.
unfoldable pub beyond : List (ℕ × CharClass) → List ℕ → List ℕ
beyond [] bban = bban
beyond ((k, kind) ∷ rest) bban = beyond rest (drop k bban)

abbrev pub widths : List (ℕ × CharClass) → ℕ
widths [] = 0
widths ((k, kind) ∷ rest) = k + widths rest

take-drop : (k : ℕ) (text : List ℕ) → take k text ++ drop k text ≡ text
take-drop zero text = refl
take-drop (suc k) [] = refl
take-drop (suc k) (d ∷ text) = ap (λ t. d ∷ t) (take-drop k text)

append_assoc : (a b c : List ℕ) → (a ++ b) ++ c ≡ a ++ (b ++ c)
append_assoc [] b c = refl
append_assoc (d ∷ a) b c = ap (λ t. d ∷ t) (append_assoc a b c)

length-split : (k : ℕ) (text : List ℕ) → length (take k text) + length (drop k text) ≡ length text
length-split zero text = omega arith
length-split (suc k) [] = omega arith
length-split (suc k) (d ∷ text) = omega (arith, length-split k text)

split-beyond :
    (ps : List (ℕ × CharClass)) (bban : List ℕ)
    → concat (split_bban ps bban) ++ beyond ps bban ≡ bban
unfolding concat split_bban beyond
split-beyond [] bban = refl
split-beyond ((k, kind) ∷ rest) bban =
    append_assoc (take k bban) (concat (split_bban rest (drop k bban))) (beyond rest (drop k bban))
    ∙ ap (λ t. take k bban ++ t) (split-beyond rest (drop k bban))
    ∙ take-drop k bban

segments-length :
    (ps : List (ℕ × CharClass)) (bban : List ℕ)
    → segments_ok ps bban ≡ true
    → length bban ≡ widths ps + length (beyond ps bban)
unfolding segments_ok beyond
segments-length [] bban h = omega arith
segments-length ((k, kind) ∷ rest) bban h = elim (Bool-cases (segments_ok rest (drop k bban))) [
  | inl e ↦
      let taken : length (take k bban) ≡ k = ground arith in
      omega (arith, segments-length rest (drop k bban) e, length-split k bban, taken)
  | inr e ↦ ground arith
]

empty-length : (text : List ℕ) → length text ≡ 0 → text ≡ []
empty-length [] h = refl
empty-length (d ∷ text) h = ground arith

-- Positions that take a whole text leave nothing of it.
pub filled :
    (ps : List (ℕ × CharClass)) (bban : List ℕ)
    → segments_ok ps bban ≡ true
    → length bban ≡ widths ps
    → concat (split_bban ps bban) ≡ bban
filled ps bban ok full =
    let nothing : beyond ps bban ≡ [] =
      empty-length (beyond ps bban) (omega (arith, segments-length ps bban ok, full)) in
    sym (append-nil (concat (split_bban ps bban)))
    ∙ ap (λ t. concat (split_bban ps bban) ++ t) (sym nothing)
    ∙ split-beyond ps bban

-- The width of the last position.
abbrev pub last_width : List (ℕ × CharClass) → ℕ
last_width [] = 0
last_width ((k, kind) ∷ []) = k
last_width (p ∷ q ∷ rest) = last_width (q ∷ rest)

pub segments-first :
    (k : ℕ) (x : CharClass) (ps : List (ℕ × CharClass)) (bban : List ℕ)
    → segments_ok ((k, x) ∷ ps) bban ≡ true
    → (length (take k bban) ≡ k) × (segments_ok ps (drop k bban) ≡ true)
unfolding segments_ok
segments-first k x ps bban h = (ground arith, ground arith)

-- The last part stands at the end, and fills the last position.
pub record Ending (p : ℕ × CharClass) (ps : List (ℕ × CharClass)) (bban : List ℕ) : Type 0 where
  pub between : List ℕ
  pub width : length (last (split_bban (p ∷ ps) bban)) ≡ last_width (p ∷ ps)
  pub ends : concat (split_bban (p ∷ ps) bban) ≡ between ++ last (split_bban (p ∷ ps) bban)

pub split-Ending :
    (p : ℕ × CharClass) (ps : List (ℕ × CharClass)) (bban : List ℕ)
    → segments_ok (p ∷ ps) bban ≡ true
    → Ending p ps bban
unfolding split_bban concat
split-Ending (k, x) [] bban h = record {
  between = [];
  width = (segments-first k x [] bban h).0;
  ends = append-nil (take k bban);
}
split-Ending (k, x) (q ∷ ps) bban h =
    let after = split-Ending q ps (drop k bban) (segments-first k x (q ∷ ps) bban h).1 in
    record {
      between = take k bban ++ after.between;
      width = after.width;
      ends =
          ap (λ t. take k bban ++ t) after.ends
          ∙ sym
              (append_assoc (take k bban) after.between (last (split_bban (q ∷ ps) (drop k bban))));
    }

pub length-drop : (k : ℕ) (t : List ℕ) → length (drop k t) ≡ length t - k
length-drop zero t = omega arith
length-drop (suc k) [] = omega arith
length-drop (suc k) (d ∷ t) = omega (arith, length-drop k t)
