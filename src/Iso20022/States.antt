-- ===== src/Iso20022/States.antt =====
-- backend/iso20022/states.py: the status codes of a tracked payment and their transitions.
use swift.Prelude.{ℕ, suc, ◌+◌, ◌<◌, ◌≤◌, ◌≡◌, Bool, true, false, List, [], ◌∷◌, arith, ◌==◌, ◌||◌}

pub data State : Type 0 where
  pdng accp acsp acsc accc rjct canc part : State

-- The position in the list of the constants above.
abbrev code : State → ℕ
code pdng = 0
code accp = 1
code acsp = 2
code acsc = 3
code accc = 4
code rjct = 5
code canc = 6
code part = 7

-- `VALID_TRANSITIONS`
unfoldable pub valid_transitions : State → List State
valid_transitions pdng = accp ∷ acsp ∷ rjct ∷ canc ∷ []
valid_transitions accp = acsp ∷ acsc ∷ rjct ∷ canc ∷ []
valid_transitions acsp = acsc ∷ accc ∷ part ∷ rjct ∷ canc ∷ []
valid_transitions part = acsc ∷ accc ∷ rjct ∷ []
valid_transitions acsc = []
valid_transitions accc = []
valid_transitions rjct = []
valid_transitions canc = []

-- `state in states`
abbrev member : State → List State → Bool
member s [] = false
member s (t ∷ rest) = code t == code s || member s rest

unfoldable pub is_valid_transition : State → State → Bool
is_valid_transition from_state to_state = member to_state (valid_transitions from_state)

-- `TERMINAL_STATES`
unfoldable pub is_terminal : State → Bool
is_terminal acsc = true
is_terminal accc = true
is_terminal rjct = true
is_terminal canc = true
is_terminal _ = false

-- `n` valid transitions in a row.
pub data Run : ℕ → State → State → Type 0 where
  here : {s : State} → Run 0 s s
  then : {n : ℕ} {s t u : State} → is_valid_transition s t ≡ true → Run n t u → Run (suc n) s u

-- How many transitions a payment can still make.
abbrev rank : State → ℕ
rank pdng = 4
rank accp = 3
rank acsp = 2
rank part = 1
rank _ = 0

falls : (s t : State) → is_valid_transition s t ≡ true → rank t < rank s
unfolding is_valid_transition valid_transitions
falls s t h = ground arith

runs_fall : (n : ℕ) (s t : State) → Run n s t → n + rank t ≤ rank s
runs_fall n s t here = omega arith
runs_fall n s u (then {n = m} {t = t} v r) = omega (arith, falls s t v, runs_fall m t u r)

four : (s : State) → rank s ≤ 4
four s = ground arith

-- A payment makes at most four transitions, whatever its states are.
pub runs_end : (n : ℕ) (s t : State) → Run n s t → n ≤ 4
runs_end n s t r = omega (arith, runs_fall n s t r, four s)
