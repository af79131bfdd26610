-- ===== src/Nextgen/Pvp/Legs.antt =====
-- What the legs of a settlement do to the ledger, and how a commit that holds them ends.
use swift.Prelude.{
  ℕ, ◌≡◌, refl, ◌∙◌, ap, ◌⊎◌, not, ◌||◌, Option, none, some, List, [], ◌∷◌, find, update_found,
  Bool-cases, inl, inr, ◌==◌, ltb,
}
use mathlib.Core.Path.{subst}
use swift.Prelude.Int.{ℤ, pos, leb_ℤ, ltb_ℤ}
use swift.Prelude.Exec.{Result, ok, err, map_error, continue, lift, ◌>>=◌, ◌>>◌}
use swift.Prelude.Exec.Keeps.{OnOk}
use swift.Prelude.Exec.Returns.{
  OnOk-map, OnOk-bind, Ends, Ends-map, Ends-bind, Ends-atomic, Ends-raise_if, Ends-or_raise,
}
use swift.Ecny.Store.{Db as Ledger, Error as LedgerError}
use swift.Ecny.Ledger.{transfer}
use swift.Ecny.Ledger.Posting.{Transferred, Outcome, transfer-Outcome}
use swift.Nextgen.Runtime.{enqueue}
use swift.Nextgen.Pvp.{
  Desk, FxQuote, Pvp, PvpState, Leg, PvpError, raised, PvpSession, ledger_raised, moved_to,
  is_caught, active_quote, sources, note_lease, take_leases, release_leases, move_leg, move_legs,
  settle_legs, unless_failed, handle, commit_locked,
}

-- The legs of a settlement, moved one after the other.
pub record BothMoved (pvp : Pvp) (before after : Ledger) : Type 0 where
  pub between : Ledger
  pub debit :
      Transferred pvp.debit_leg.from_account pvp.debit_leg.to_account pvp.debit_leg.amount before
        between
  pub credit :
      Transferred pvp.credit_leg.from_account pvp.credit_leg.to_account pvp.credit_leg.amount
        between after

abbrev pub Rows : Type 1
Rows = Ledger → List Pvp → Type 0

abbrev pub On : Rows → Desk → Type 0
On P s = P s.ledger s.pvps

on_ok : {A : Type 0} (P : Rows) (r : Result PvpError A) (t : Desk) → On P t → OnOk (On P) (r, t)
on_ok P (ok a) t h = h
on_ok P (err e) t h = tt

bind-On :
    {A B : Type 0} (P : Rows) (m : PvpSession A) (f : A → PvpSession B) (s : Desk)
    → On P (m s).1
    → ((a : A) (t : Desk) → On P t → On P (f a t).1)
    → On P ((m >>= f) s).1
bind-On {A} {B} P m f s h k = next (m s).0 (m s).1 h
  where
    next : (r : Result PvpError A) (t : Desk) → On P t → On P (continue r f t).1
    next (ok a) t q = k a t q
    next (err e) t q = q

module _ (lease_of owner_of : ℕ → ℕ) (P : Rows) where
  note_lease-On :
      (resource : ℕ) (others : PvpSession (List (ℕ × ℕ) × Option PvpError)) (r : Result PvpError ℕ)
      (s : Desk)
      → ((t : Desk) → On P t → On P (others t).1)
      → On P s
      → On P (note_lease lease_of owner_of resource others r s).1
  note_lease-On resource others (err e) s k h = h
  note_lease-On resource others (ok token) s k h = bind-On P others _ s (k s h) λ a t q. q

  take_leases-On :
      (owner : ℕ) (resources : List ℕ) (s : Desk)
      → On P s
      → On P (take_leases lease_of owner_of owner resources s).1
  unfolding take_leases
  take_leases-On owner [] s h = h
  take_leases-On owner (r ∷ rest) s h =
      note_lease-On r (take_leases lease_of owner_of owner rest) _ _ (take_leases-On owner rest) h

  release_leases-On :
      (locks : List (ℕ × ℕ)) (s : Desk) → On P s → On P (release_leases lease_of owner_of locks s).1
  unfolding release_leases
  release_leases-On [] s h = h
  release_leases-On ((resource, token) ∷ rest) s h =
      bind-On P (release_leases lease_of owner_of rest) _ s (release_leases-On rest s h) λ a t q. q

-- What `settle_legs` has done, from a desk with the ledger and the settlements given.
abbrev pub Done : Pvp → Ledger → List Pvp → Rows
Done pvp ledger pvps l ps =
    BothMoved pvp ledger l
    × (ps
        ≡ update_found (λ p. p.pvp_id == pvp.pvp_id)
            (moved_to PvpState.committed pvp.failure_reason) pvps)

abbrev pub Same : Ledger → List Pvp → Rows
Same ledger pvps l ps = (l ≡ ledger) × (ps ≡ pvps)

move_leg-Moves :
    (lease_of owner_of : ℕ → ℕ) (leg : Leg) (s : Desk)
    → OnOk
        (λ t.
          Transferred leg.from_account leg.to_account leg.amount s.ledger t.ledger
          × (t.pvps ≡ s.pvps))
        (move_leg lease_of owner_of leg s)
unfolding move_leg
move_leg-Moves lease_of owner_of leg s =
    lifted (transfer leg.from_account leg.to_account leg.amount s.ledger).0
      (transfer leg.from_account leg.to_account leg.amount s.ledger).1
      (transfer-Outcome leg.from_account leg.to_account leg.amount s.ledger)
  where
    lifted :
        (r : Result LedgerError ℕ) (l : Ledger)
        → Outcome (Transferred leg.from_account leg.to_account leg.amount s.ledger) s.ledger (r, l)
        → OnOk
            (λ (t : Desk).
              Transferred leg.from_account leg.to_account leg.amount s.ledger t.ledger
              × (t.pvps ≡ s.pvps))
            (map_error ledger_raised r, record s { ledger = l })
    lifted (ok a) l m = (m, refl)
    lifted (err e) l m = tt

module _ (lease_of owner_of : ℕ → ℕ) (pvp : Pvp) where
  move_legs-Ends :
      (s : Desk)
      → Ends
          (λ t. BothMoved pvp s.ledger t.ledger × (t.pvps ≡ s.pvps))
          (λ t. t ≡ s)
          (move_legs lease_of owner_of pvp s)
  unfolding move_legs
  move_legs-Ends s =
      let Q : Desk → Type 0 = λ t. BothMoved pvp s.ledger t.ledger × (t.pvps ≡ s.pvps) in
      Ends-atomic Q (λ t. t ≡ s)
        (move_leg lease_of owner_of pvp.debit_leg >> move_leg lease_of owner_of pvp.credit_leg) s
        (OnOk-bind _ Q (move_leg lease_of owner_of pvp.debit_leg) _ s
          (move_leg-Moves lease_of owner_of pvp.debit_leg s)
          λ a t d.
            OnOk-map (move_leg lease_of owner_of pvp.credit_leg t)
              (λ u c. (record { between = t.ledger; debit = d.0; credit = c.0 }, c.1 ∙ d.1))
              (move_leg-Moves lease_of owner_of pvp.credit_leg t))

  active_quote-Ends :
      (id : ℕ) (x : ℤ) (s : Desk) → Ends (λ t. t ≡ s) (λ t. t ≡ s) (active_quote id x s)
  unfolding active_quote
  active_quote-Ends id x s =
      let P : Desk → Type 0 = λ t. t ≡ s in
      Ends-or_raise P P (find (λ (q : FxQuote). q.quote_id == id) s.quotes) _ _ s refl λ q found.
        Ends-raise_if P P (not q.active || ltb q.expires_at s.platform.now) _ _ s refl λ open_still.
          Ends-raise_if P P (leb_ℤ x (pos 0) || ltb_ℤ q.max_amount x) _ _ s refl λ fits. refl

  settle_legs-Ends :
      (s : Desk)
      → Ends
          (On (Done pvp s.ledger s.pvps))
          (On (Same s.ledger s.pvps))
          (settle_legs lease_of owner_of pvp s)
  unfolding settle_legs enqueue
  settle_legs-Ends s =
      let Q : Desk → Type 0 = On (Done pvp s.ledger s.pvps) in
      let R : Desk → Type 0 = On (Same s.ledger s.pvps) in
      let unmoved : (t : Desk) → t ≡ s → R t = λ t e. (ap Desk.ledger e, ap Desk.pvps e) in
      Ends-bind (λ t. t ≡ s) Q R (active_quote pvp.quote_id pvp.debit_leg.amount) _ s
        (Ends-map (active_quote pvp.quote_id pvp.debit_leg.amount s) (λ t e. e) unmoved
          (active_quote-Ends pvp.quote_id pvp.debit_leg.amount s))
        λ q t same.
          Ends-bind (λ u. BothMoved pvp s.ledger u.ledger × (u.pvps ≡ s.pvps)) Q R
            (move_legs lease_of owner_of pvp) _ t
            (Ends-map (move_legs lease_of owner_of pvp t)
              (λ u m.
                (subst (λ d. BothMoved pvp d.ledger u.ledger) same m.0, m.1 ∙ ap Desk.pvps same))
              (λ u e. unmoved u (e ∙ same)) (move_legs-Ends t))
            λ a u m. (m.0, rw m.1 refl)

  -- Both legs and the mark, or neither leg and the reason.
  abbrev pub Closed : Ledger → List Pvp → Rows
  Closed ledger pvps l ps =
      Done pvp ledger pvps l ps
      ⊎ ((reason : PvpError) × (l ≡ ledger)
          × (ps
              ≡ update_found (λ p. p.pvp_id == pvp.pvp_id)
                  (moved_to PvpState.aborted (some (raised reason))) pvps))

  -- The body of the `try` statement, as a call whose error is looked at.
  handled_result :
      (ledger : Ledger) (pvps : List Pvp) (r : Result PvpError Unit) (t : Desk)
      → Ends (On (Done pvp ledger pvps)) (On (Same ledger pvps)) (r, t)
      → OnOk (On (Closed ledger pvps)) (handle lease_of owner_of pvp r t)
  handled_result ledger pvps (ok u) t h = inl h
  handled_result ledger pvps (err e) t h = elim (Bool-cases (is_caught e)) [
    | inl c ↦ rw c (inr (e, h.0, rw h.1 refl))
    | inr c ↦ rw c tt
  ]

  tried :
      (failure : Option PvpError) (s : Desk)
      → Ends
          (On (Done pvp s.ledger s.pvps))
          (On (Same s.ledger s.pvps))
          (unless_failed lease_of owner_of failure (settle_legs lease_of owner_of pvp) s)
  tried none s = settle_legs-Ends s
  tried (some e) s = (refl, refl)

  tried_from :
      (ledger : Ledger) (pvps : List Pvp) (failure : Option PvpError) (s : Desk)
      → On (Same ledger pvps) s
      → Ends
          (On (Done pvp ledger pvps))
          (On (Same ledger pvps))
          (unless_failed lease_of owner_of failure (settle_legs lease_of owner_of pvp) s)
  tried_from ledger pvps failure s h =
      let call : Result PvpError Unit × Desk =
        unless_failed lease_of owner_of failure (settle_legs lease_of owner_of pvp) s in
      subst (λ l. Ends (On (Done pvp l pvps)) (On (Same l pvps)) call) h.0
        (subst (λ ps. Ends (On (Done pvp s.ledger ps)) (On (Same s.ledger ps)) call) h.1
          (tried failure s))

  -- The `finally` block changes neither the outcome nor, if it raises, the session.
  finish :
      (P : Rows) (locks : List (ℕ × ℕ)) (r : Result PvpError Unit) (t : Desk)
      → OnOk (On P) (r, t)
      → OnOk (On P) ((release_leases lease_of owner_of locks >> lift r) t)
  finish P locks (err e) t h =
      none_left (release_leases lease_of owner_of locks t).0
        (release_leases lease_of owner_of locks t).1
    where
      none_left :
          (q : Result PvpError Unit) (u : Desk)
          → OnOk {A = Unit} (On P) (continue q (λ _. lift (err e)) u)
      none_left (ok v) u = tt
      none_left (err f) u = tt
  finish P locks (ok v) t h =
      passed (release_leases lease_of owner_of locks t).0
        (release_leases lease_of owner_of locks t).1
        (release_leases-On lease_of owner_of P locks t h)
    where
      passed :
          (q : Result PvpError Unit) (u : Desk)
          → On P u
          → OnOk {A = Unit} (On P) (continue q (λ _. lift (ok v)) u)
      passed (ok w) u k = k
      passed (err f) u k = tt

  pub commit_locked-Closes :
      (s : Desk) → OnOk (On (Closed s.ledger s.pvps)) (commit_locked lease_of owner_of pvp s)
  unfolding commit_locked
  commit_locked-Closes s =
      OnOk-bind (On (Same s.ledger s.pvps)) (On (Closed s.ledger s.pvps))
        (take_leases lease_of owner_of (owner_of pvp.pvp_id) (sources pvp)) _ s
        (on_ok (Same s.ledger s.pvps) _ _ (
          take_leases-On lease_of owner_of (Same s.ledger s.pvps) (owner_of pvp.pvp_id)
            (sources pvp) s (refl, refl)))
        λ taken t same.
          let m = unless_failed lease_of owner_of taken.1 (settle_legs lease_of owner_of pvp) in
          finish (Closed s.ledger s.pvps) taken.0 (handle lease_of owner_of pvp (m t).0 (m t).1).0
            (handle lease_of owner_of pvp (m t).0 (m t).1).1
            (handled_result s.ledger s.pvps (m t).0 (m t).1
              (tried_from s.ledger s.pvps taken.1 t same))
