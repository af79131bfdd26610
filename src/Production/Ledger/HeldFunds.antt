-- ===== src/Production/Ledger/HeldFunds.antt =====
-- Holds and the reserved amounts.
use swift.Prelude.{
  ℕ, ◌+◌, ◌≡◌, refl, ◌∙◌, ap, Bool, true, false, not, ◌&&◌, Option, none, some, List, [], ◌∷◌, All,
  All-append, All-update_found, arith, update_found, Bool-cases, Option-cases, inl, inr, ◌==◌,
  is_some, if◌then◌else◌,
}
use mathlib.Core.Path.{subst}
use swift.Prelude.Int.{ℤ, pos, pos_part, neg_part, ◌+ℤ◌, ◌-ℤ◌, ◌≤ℤ◌, ltb_ℤ, leb_ℤ, int_laws}
use swift.Prelude.Exec.Keeps.{Keeps, Keeps-bind, Keeps-pure, keeps_rules}
use swift.Prelude.Exec.Returns.{OnOk-raise_if, OnOk-or_raise}
use swift.Production.Ledger.{Account, Hold, HoldState, Books, find_account, find_active, set_aside}
use swift.Production.Ledger.Holds.{
  find_hold, is_held, is_target, frees, in_currency, create, set_free, free_funds, transition,
  expiry_state, expire_each, expire_due,
}
use swift.Production.Ledger.Rows.{sum, sum-append, sum-update_found}
use swift.Production.Ledger.Posting.{found_active}
use swift.Production.Ledger.Reserving.{
  open_reservation, open_hold, is_open, reserved_at, IsReserved, reserved_at-by,
}
use swift.Production.Ledger.ReservedFunds.{more, less, and_true, and_false}

swap : (x r h : ℤ) → x ≡ r +ℤ h → x ≡ h +ℤ r
swap x r h e = omega (int_laws, ap pos_part e, ap neg_part e)

in_currency_found :
    (c : ℕ) (o : Option Account) (a : Account) → in_currency c o ≡ some a → o ≡ some a
in_currency_found c none a h = cc
in_currency_found c (some b) a h = ground arith

pub create-IsReserved :
    (id account_id : ℕ) (x : ℤ) (c : ℕ) (t : Option ℕ)
    → Keeps IsReserved (create id account_id x c t)
unfolding create sum
create-IsReserved id account_id x c t = record {
  at = λ db h. OnOk-raise_if IsReserved (leb_ℤ x (pos 0)) _ _ db λ positive.
      OnOk-or_raise IsReserved (in_currency c (find_active account_id db.accounts)) _ _ db
        λ a active. OnOk-raise_if IsReserved (ltb_ℤ (a.balance -ℤ a.reserved) x) _ _ db λ room.
          OnOk-raise_if IsReserved (is_some (find_hold id db.holds)) _ _ db λ new.
            let found =
              found_active account_id db.accounts a
                (in_currency_found c (find_active account_id db.accounts) a active) in
            let nonneg : pos 0 ≤ℤ x = ground arith in
            record {
              exact = λ j.
                  swap _ _ _ (
                    more (account_id == j) (reserved_at j db.accounts) _
                      (sum (open_hold j) db.holds) (sum (open_reservation j) db.reservations) x
                      (swap _ _ _ (h.exact j))
                      (reserved_at-by account_id (set_aside x) (λ b. refl) db.accounts a found
                        (λ r. r +ℤ x) refl j))
                  ∙ rw (sum-append (open_hold j) db.holds _, and_true) refl;
              amounts = h.amounts;
              hold_amounts =
                  All-append (λ q. pos 0 ≤ℤ q.amount) db.holds _ h.hold_amounts (nonneg, tt);
            };
}

-- What the last step of a transition writes.
abbrev moved : HoldState → Hold → Hold
moved state h = record h { state = state; version = h.version + 1 }

abbrev with_state : ℕ → HoldState → Books → Books
with_state id state db = record db {
  holds = update_found (λ h. h.hold_id == id) (moved state) db.holds;
}

module _ (id : ℕ) (db : Books) (hold : Hold) (state : HoldState)
    (recorded : find_hold id db.holds ≡ some hold) (is_held_row : is_held hold.state ≡ true) where
  was_open : is_open hold.state ≡ true
  was_open = stays hold.state is_held_row
    where
      stays : (s : HoldState) → is_held s ≡ true → is_open s ≡ true
      stays HoldState.held e = refl
      stays HoldState.consumed e = cc
      stays HoldState.released e = cc
      stays HoldState.expired e = cc
      stays HoldState.unknown e = cc

  new_sum :
      (j : ℕ)
      → sum (open_hold j) (with_state id state db).holds
          +ℤ (if hold.account_id == j then hold.amount else pos 0)
        ≡ sum (open_hold j) db.holds +ℤ open_hold j (moved state hold)
  new_sum j =
      let own : open_hold j hold ≡ (if hold.account_id == j then hold.amount else pos 0) =
        rw (was_open, and_true) refl in
      subst
        (λ w.
          sum (open_hold j) (with_state id state db).holds +ℤ w
          ≡ sum (open_hold j) db.holds +ℤ open_hold j (moved state hold))
        own
        (sum-update_found (open_hold j) (λ h. h.hold_id == id) (moved state) db.holds hold recorded)

  amounts_kept : IsReserved db → All (λ h. pos 0 ≤ℤ h.amount) (with_state id state db).holds
  amounts_kept h =
      All-update_found (λ q. pos 0 ≤ℤ q.amount) (λ q. q.hold_id == id) (moved state) db.holds
        (λ q e k. k) h.hold_amounts

  -- Funds that stay: the outcome is unknown.
  kept-IsReserved : is_open state ≡ true → IsReserved db → IsReserved (with_state id state db)
  kept-IsReserved stays h = record {
    exact = λ j.
        h.exact j
        ∙ same (hold.account_id == j) _ _ hold.amount _ _ (new_sum j) (rw (stays, and_true) refl);
    amounts = h.amounts;
    hold_amounts = amounts_kept h;
  }
    where
      same :
          (b : Bool) (s s' x w r : ℤ)
          → s' +ℤ (if b then x else pos 0) ≡ s +ℤ w
          → w ≡ (if b then x else pos 0)
          → r +ℤ s ≡ r +ℤ s'
      same true s s' x w r e f =
          omega (int_laws, ap pos_part e, ap neg_part e, ap pos_part f, ap neg_part f)
      same false s s' x w r e f =
          omega (int_laws, ap pos_part e, ap neg_part e, ap pos_part f, ap neg_part f)

  -- Funds that are freed.
  freed-IsReserved :
      (a : Account)
      → find_account hold.account_id db.accounts ≡ some a
      → is_open state ≡ false
      → IsReserved db
      → IsReserved (record (with_state id state db) {
        accounts =
            update_found (λ b. b.account_id == hold.account_id) (set_free hold.amount) db.accounts;
      })
  freed-IsReserved a found shuts h = record {
    exact = λ j. swap _ _ _ (
        less (hold.account_id == j) (reserved_at j db.accounts) _ (sum (open_hold j) db.holds)
          (sum (open_hold j) (with_state id state db).holds)
          (sum (open_reservation j) db.reservations) hold.amount (open_hold j (moved state hold))
          (swap _ _ _ (h.exact j)) (new_sum j) (rw (shuts, and_false) refl)
          (reserved_at-by hold.account_id (set_free hold.amount) (λ b. refl) db.accounts a found
            (λ r. r -ℤ hold.amount) refl j));
    amounts = h.amounts;
    hold_amounts = amounts_kept h;
  }

frees_shuts : (s : HoldState) → frees s ≡ true → is_open s ≡ false
frees_shuts HoldState.held e = cc
frees_shuts HoldState.consumed e = refl
frees_shuts HoldState.released e = refl
frees_shuts HoldState.expired e = refl
frees_shuts HoldState.unknown e = cc

keeps_open : (s : HoldState) → is_target s ≡ true → frees s ≡ false → is_open s ≡ true
keeps_open HoldState.held t e = refl
keeps_open HoldState.consumed t e = cc
keeps_open HoldState.released t e = cc
keeps_open HoldState.expired t e = cc
keeps_open HoldState.unknown t e = refl

both_true : (b c : Bool) → not (b && c) ≡ false → (b ≡ true) × (c ≡ true)
both_true b c h = (ground arith, ground arith)

pub transition-IsReserved :
    (id : ℕ) (state : HoldState) (v : ℕ) → Keeps IsReserved (transition id state v)
unfolding transition free_funds
transition-IsReserved id state v = record {
  at = λ db h. OnOk-or_raise IsReserved (find_hold id db.holds) _ _ db λ hold recorded.
      OnOk-raise_if IsReserved (not (hold.version == v)) _ _ db λ current.
        OnOk-raise_if IsReserved (not (is_target state && is_held hold.state)) _ _ db λ allowed.
          let (target, row) = both_true (is_target state) (is_held hold.state) allowed in
          elim (Bool-cases (frees state)) [
            | inl e ↦ elim (Option-cases (find_account hold.account_id db.accounts)) [
              | inl n ↦ rw (e, n) tt
              | inr (a, found) ↦
                  rw (e, found)
                    (freed-IsReserved id db hold state recorded row a found (frees_shuts state e) h)
            ]
            | inr e ↦
                rw e (kept-IsReserved id db hold state recorded row (keeps_open state target e) h)
          ];
}

pub expire_each-IsReserved : (hs : List Hold) → Keeps IsReserved (expire_each hs)
unfolding expire_each
expire_each-IsReserved [] = record { at = λ db h. h }
expire_each-IsReserved (h ∷ rest) =
    Keeps-bind (transition h.hold_id (expiry_state h.external_reference) h.version) _
      (transition-IsReserved h.hold_id _ h.version)
      λ id. Keeps-bind (expire_each rest) _ (expire_each-IsReserved rest) λ ids. Keeps-pure _

pub expire_due-IsReserved : (now : ℕ) → Keeps IsReserved (expire_due now)
unfolding expire_due
expire_due-IsReserved now = search (keeps_rules, expire_each-IsReserved) depth 20
