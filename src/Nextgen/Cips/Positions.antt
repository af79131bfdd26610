-- ===== src/Nextgen/Cips/Positions.antt =====
-- The net positions of a batch.
use swift.Prelude.{
  ℕ, ◌≡◌, refl, ap, ◌∙◌, Bool, true, false, List, [], ◌∷◌, arith, All, Bool-cases, inl, inr, ◌==◌,
  if◌then◌else◌,
}
use swift.Prelude.Int.{ℤ, pos, pos_part, neg_part, ◌+ℤ◌, ◌-ℤ◌, int_laws}
use swift.Nextgen.Store.{Settlement}
use swift.Nextgen.Cips.Netting.{bump, net_positions}

abbrev pub Others : ℕ → List (ℕ × ℤ) → Type 0
Others p net = All (λ e. (p == e.0) ≡ false) net

abbrev pub Distinct : List (ℕ × ℤ) → Type 0
Distinct [] = Unit
Distinct ((p, x) ∷ rest) = Others p rest × Distinct rest

unfoldable pub sum_positions : List (ℕ × ℤ) → ℤ
sum_positions [] = pos 0
sum_positions ((p, x) ∷ rest) = x +ℤ sum_positions rest

abbrev pub position_of : ℕ → List (ℕ × ℤ) → ℤ
position_of p [] = pos 0
position_of p ((q, x) ∷ rest) = if q == p then x else position_of p rest

bump-Others :
    (p q : ℕ) (f : ℤ → ℤ) (net : List (ℕ × ℤ))
    → (p == q) ≡ false
    → Others p net
    → Others p (bump q f net)
unfolding bump
bump-Others p q f [] d o = (d, tt)
bump-Others p q f ((r, x) ∷ rest) d o = elim (Bool-cases (r == q)) [
  | inl e ↦ rw e (o.0, o.1)
  | inr e ↦ rw e (o.0, bump-Others p q f rest d o.1)
]

bump-Distinct : (q : ℕ) (f : ℤ → ℤ) (net : List (ℕ × ℤ)) → Distinct net → Distinct (bump q f net)
unfolding bump
bump-Distinct q f [] d = (tt, tt)
bump-Distinct q f ((r, x) ∷ rest) d = elim (Bool-cases (r == q)) [
  | inl e ↦ rw e (d.0, d.1)
  | inr e ↦ rw e (bump-Others r q f rest e d.0, bump-Distinct q f rest d.1)
]

pub net_positions-Distinct :
    (ss : List Settlement) (net : List (ℕ × ℤ)) → Distinct net → Distinct (net_positions ss net)
unfolding net_positions
net_positions-Distinct [] net d = d
net_positions-Distinct (s ∷ rest) net d =
    net_positions-Distinct rest _ (bump-Distinct _ _ _ (bump-Distinct _ _ _ d))

-- A bump by `d` adds it to the sum and to the position of its participant.
module _ (q : ℕ) (f : ℤ → ℤ) (d : ℤ) (adds : (x : ℤ) → f x ≡ x +ℤ d) where
  sum-cons : (x y : ℤ) (s : ℤ) → y ≡ x +ℤ d → y +ℤ s ≡ (x +ℤ s) +ℤ d
  sum-cons x y s h = omega (int_laws, ap pos_part h, ap neg_part h)

  sum-tail : (x s t : ℤ) → t ≡ s +ℤ d → x +ℤ t ≡ (x +ℤ s) +ℤ d
  sum-tail x s t h = omega (int_laws, ap pos_part h, ap neg_part h)

  sum-bump : (net : List (ℕ × ℤ)) → sum_positions (bump q f net) ≡ sum_positions net +ℤ d
  unfolding bump sum_positions
  sum-bump [] = sum-cons (pos 0) (f (pos 0)) (pos 0) (adds (pos 0)) ∙ omega int_laws
  sum-bump ((r, x) ∷ rest) = elim (Bool-cases (r == q)) [
    | inl e ↦ rw e (sum-cons x (f x) (sum_positions rest) (adds x))
    | inr e ↦ rw e (sum-tail x (sum_positions rest) (sum_positions (bump q f rest)) (sum-bump rest))
  ]

  pub position-bump :
      (p : ℕ) (net : List (ℕ × ℤ))
      → position_of p (bump q f net)
        ≡ (if q == p then position_of p net +ℤ d else position_of p net)
  unfolding bump
  position-bump p [] = rw (adds (pos 0)) refl
  position-bump p ((r, x) ∷ rest) = elim (Bool-cases (r == q)) [
    | inl e ↦ let same : r ≡ q = ground arith in rw (e, same, adds x) (ground arith)
    | inr e ↦ elim (Bool-cases (r == p)) [
      | inl h ↦ let other : (q == p) ≡ false = ground arith in rw (e, h, other) refl
      | inr h ↦ rw (e, h) (position-bump p rest)
    ]
  ]

adds_itself : (d x : ℤ) → x +ℤ d ≡ x +ℤ d
adds_itself d x = refl

sub-adds : (d x : ℤ) → x -ℤ d ≡ x +ℤ (pos 0 -ℤ d)
sub-adds d x = omega int_laws

cancel : (s d : ℤ) → s +ℤ (pos 0 -ℤ d) +ℤ d ≡ s
cancel s d = omega int_laws

sum-net_positions :
    (ss : List Settlement) (net : List (ℕ × ℤ))
    → sum_positions (net_positions ss net) ≡ sum_positions net
unfolding net_positions
sum-net_positions [] net = refl
sum-net_positions (s ∷ rest) net =
    sum-net_positions rest _
    ∙ sum-bump s.creditor_participant (λ x. x +ℤ s.amount) s.amount (adds_itself s.amount) _
    ∙ ap (λ x. x +ℤ s.amount)
        (sum-bump s.debtor_participant (λ x. x -ℤ s.amount) (pos 0 -ℤ s.amount) (sub-adds s.amount)
          net)
    ∙ cancel (sum_positions net) s.amount

-- What the settlements of a list bring a participant, and what they cost it.
unfoldable pub received : ℕ → List Settlement → ℤ
received p [] = pos 0
received p (s ∷ rest) = (if s.creditor_participant == p then s.amount else pos 0) +ℤ received p rest

unfoldable pub paid : ℕ → List Settlement → ℤ
paid p [] = pos 0
paid p (s ∷ rest) = (if s.debtor_participant == p then s.amount else pos 0) +ℤ paid p rest

step_position :
    (old new in_ out more less : ℤ)
    → new +ℤ less ≡ (old -ℤ out +ℤ in_) +ℤ more
    → new +ℤ (out +ℤ less) ≡ old +ℤ (in_ +ℤ more)
step_position old new in_ out more less h = omega (int_laws, ap pos_part h, ap neg_part h)

-- The two bumps for one settlement.
bump_both :
    (p : ℕ) (s : Settlement) (net : List (ℕ × ℤ))
    → position_of p (
        bump s.creditor_participant
          (λ x. x +ℤ s.amount)
          (bump s.debtor_participant (λ x. x -ℤ s.amount) net))
      ≡ position_of p net
        -ℤ (if s.debtor_participant == p then s.amount else pos 0)
        +ℤ (if s.creditor_participant == p then s.amount else pos 0)
bump_both p s net =
    position-bump s.creditor_participant (λ x. x +ℤ s.amount) s.amount (adds_itself s.amount) p _
    ∙ both (s.creditor_participant == p) (s.debtor_participant == p) (position_of p net) s.amount _
        (position-bump s.debtor_participant (λ x. x -ℤ s.amount) (pos 0 -ℤ s.amount)
          (sub-adds s.amount) p net)
  where
    both :
        (c d : Bool) (old amount mid : ℤ)
        → mid ≡ (if d then old +ℤ (pos 0 -ℤ amount) else old)
        → (if c then mid +ℤ amount else mid)
          ≡ old -ℤ (if d then amount else pos 0) +ℤ (if c then amount else pos 0)
    both true true old amount mid h = omega (int_laws, ap pos_part h, ap neg_part h)
    both true false old amount mid h = omega (int_laws, ap pos_part h, ap neg_part h)
    both false true old amount mid h = omega (int_laws, ap pos_part h, ap neg_part h)
    both false false old amount mid h = omega (int_laws, ap pos_part h, ap neg_part h)

position-net_positions :
    (p : ℕ) (ss : List Settlement) (net : List (ℕ × ℤ))
    → position_of p (net_positions ss net) +ℤ paid p ss ≡ position_of p net +ℤ received p ss
unfolding net_positions received paid
position-net_positions p [] net = refl
position-net_positions p (s ∷ rest) net =
    step_position (position_of p net) _ _ _ (received p rest) (paid p rest)
      (position-net_positions p rest _ ∙ ap (λ x. x +ℤ received p rest) (bump_both p s net))

-- The net of a batch has each participant at most once, its positions add up to zero, and the
-- position of a participant with what its payments of the batch cost it is what they bring it.
pub net_positions_exact :
    (ss : List Settlement)
    → Distinct (net_positions ss [])
      × (sum_positions (net_positions ss []) ≡ pos 0)
      × ((p : ℕ) → position_of p (net_positions ss []) +ℤ paid p ss ≡ received p ss)
unfolding sum_positions
net_positions_exact ss = (
  net_positions-Distinct ss [] tt,
  sum-net_positions ss [],
  λ p. position-net_positions p ss [] ∙ zero_left (received p ss),
)
  where
    zero_left : (x : ℤ) → pos 0 +ℤ x ≡ x
    zero_left x = omega int_laws
