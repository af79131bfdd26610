-- ===== src/Nextgen/Programs/Accounting.antt =====
-- An instrument and its escrow account, over any requests.
use swift.Prelude.{
  ℕ, ◌≡◌, refl, sym, ◌∙◌, Bool, true, false, ◌||◌, ◌&&◌, List, [], ◌∷◌, arith, find-update_found,
  find-eq_some, Bool-cases, Option-cases, inl, inr, ◌==◌,
}
use std.Path.{subst}
use swift.Prelude.Int.{ℤ, pos, ◌-ℤ◌, ◌≤ℤ◌, leb_ℤ, ltb_ℤ, int_laws}
use swift.Prelude.Exec.Keeps.{OnOk, Keeps-atomic}
use swift.Prelude.Exec.Returns.{OnOk-bind, OnOk-or_raise, OnOk-atomic}
use swift.Ecny.Store.{Account}
use swift.Ecny.Ledger.{transfer}
use swift.Nextgen.Programs.Templates.{Context, allows}
use swift.Nextgen.Programs.{
  InstrumentStatus, Programs, create, pay_out, execute, refund, is_active, escrow_account,
  wallet_account, on_ledger, is_program_escrow,
}
use swift.Nextgen.Programs.Escrow.{only-All, IsRow}
use swift.Nextgen.Programs.Payouts.{
  Request, created, executed, refunded, wait, perform, perform_all, Backed, Side, wallet-other,
  paid-Backed, create-Backed, execute-other, refund-other,
}

module _ (id escrow : ℕ) (top : ℤ) where
  pay_out-Backed :
      (d : ℕ) (x left : ℤ) (status : InstrumentStatus) (programs : Programs)
      (h : Backed id escrow top programs)
      → h.instrument.amount -ℤ x ≡ left
      → (pos 0 ≤ℤ left) × (left ≤ℤ top)
      → OnOk (Backed id escrow top) (pay_out id d x left status programs)
  unfolding pay_out escrow_account wallet_account
  pay_out-Backed d x left status programs h rest bounds =
      let Q : Programs → Type 0 = Backed id escrow top in
      let b = h.instrument.amount in
      let is_escrow : Account → Bool = λ a. is_program_escrow a.owner_type && a.owner_ref == id in
      OnOk-or_raise Q _ _ _ programs (λ source e. OnOk-or_raise Q _ _ _ programs (λ target e'.
        let row =
          only-All (IsRow id escrow) is_escrow programs.ledger.accounts source h.owned.framed.0 e in
        let own : (source.account_id == escrow) ≡ true = sym row.1 ∙ row.0 in
        let move = transfer source.account_id target.account_id x in
        OnOk-bind (Side id escrow programs.instruments left) Q (on_ledger move) _ programs
          (subst (λ y. OnOk (Side id escrow programs.instruments y) (on_ledger move programs))
            (rw own rest)
            (paid-Backed id escrow source.account_id target.account_id x b programs
              (wallet-other id escrow d b programs.ledger target h.owned e') h.owned))
          (λ tx s side. record {
            instrument = record h.instrument { amount = left; status = status };
            stored = rw side.0 (
                find-update_found (λ p. p.instrument_id == id)
                  (λ p. record p { amount = left; status = status }) programs.instruments
                  h.instrument h.stored
                  (find-eq_some (λ p. p.instrument_id == id) programs.instruments h.instrument
                    h.stored));
            nonnegative = bounds.0;
            at_most = bounds.1;
            owned = side.1;
          })))

  enough_left :
      (b x : ℤ)
      → (leb_ℤ x (pos 0) || ltb_ℤ b x) ≡ false
      → b ≤ℤ top
      → (pos 0 ≤ℤ b -ℤ x) × (b -ℤ x ≤ℤ top)
  enough_left b x h k = (grind int_laws, grind int_laws)

  nothing_left : (x : ℤ) → x -ℤ x ≡ pos 0
  nothing_left x = omega int_laws

  execute-Backed :
      (d : ℕ) (x : ℤ) (c : Context) (programs : Programs)
      → Backed id escrow top programs
      → OnOk (Backed id escrow top) (execute id d x c programs)
  unfolding execute
  execute-Backed d x c programs h =
      let p = h.instrument in
      elim (Bool-cases (is_active p.status)) [
        | inr over ↦ rw (h.stored, over) tt
        | inl running ↦ elim (Bool-cases (leb_ℤ x (pos 0) || ltb_ℤ p.amount x)) [
          | inl bad ↦ rw (h.stored, running, bad) tt
          | inr valid ↦
              elim (Option-cases (allows p.template p.conditions x c programs.ledger.now)) [
                | inl e ↦ rw (h.stored, running, valid, e) tt
                | inr (true, e) ↦
                    rw (h.stored, running, valid, e)
                      (pay_out-Backed d x (p.amount -ℤ x) _ programs h refl
                        (enough_left p.amount x valid h.at_most))
                | inr (false, e) ↦ rw (h.stored, running, valid, e) tt
              ]
        ]
      ]

  refund-Backed :
      (programs : Programs)
      → Backed id escrow top programs
      → OnOk (Backed id escrow top) (refund id programs)
  unfolding refund
  refund-Backed programs h =
      let p = h.instrument in
      elim (Bool-cases (is_active p.status)) [
        | inr over ↦ rw (h.stored, over) tt
        | inl running ↦
            rw (h.stored, running)
              (pay_out-Backed p.owner_wallet p.amount (pos 0) _ programs h (nothing_left p.amount)
                (omega arith, positive_top p.amount h.nonnegative h.at_most))
      ]
    where
      positive_top : (b : ℤ) → pos 0 ≤ℤ b → b ≤ℤ top → pos 0 ≤ℤ top
      positive_top b h k = grind int_laws

  perform-Backed :
      (r : Request) (programs : Programs)
      → Backed id escrow top programs
      → Backed id escrow top (perform r programs)
  perform-Backed (created w x t c) programs h =
      OnOk-atomic (Backed id escrow top) (create w x t c) programs h
        (create-Backed id escrow top w x t c programs h)
  perform-Backed (executed i d x c) programs h = elim (Bool-cases (i == id)) [
    | inr o ↦ Keeps-atomic _ (execute-other id escrow top i d x c o) programs h
    | inl e ↦
        let same : i ≡ id = ground arith in
        rw same (
          OnOk-atomic (Backed id escrow top) (execute id d x c) programs h
            (execute-Backed d x c programs h))
  ]
  perform-Backed (refunded i) programs h = elim (Bool-cases (i == id)) [
    | inr o ↦ Keeps-atomic _ (refund-other id escrow top i o) programs h
    | inl e ↦
        let same : i ≡ id = ground arith in
        rw same
          (OnOk-atomic (Backed id escrow top) (refund id) programs h (refund-Backed programs h))
  ]
  perform-Backed (wait t) programs h = record {
    instrument = h.instrument;
    stored = h.stored;
    nonnegative = h.nonnegative;
    at_most = h.at_most;
    owned = record { framed = h.owned.framed; balance = h.owned.balance };
  }

-- Where an instrument is on record with an amount that is not negative and at most a bound, the
-- balance of its escrow account in the ledger is just that amount, the rows of the ledger that are
-- escrow accounts of the instrument are those with the identifier of this account, and no
-- identifier that is still to be drawn is that of the account or of the instrument: then all this,
-- with the same bound, stays so under any requests to create, to execute and to refund instruments
-- and any passing of time, in any order, and whether they return or raise. So what has left the
-- escrow account is what the amount has lost.
pub payouts_bounded :
    (rs : List Request) (id escrow : ℕ) (top : ℤ) (programs : Programs)
    → Backed id escrow top programs
    → Backed id escrow top (perform_all rs programs)
payouts_bounded [] id escrow top programs h = h
payouts_bounded (r ∷ rs) id escrow top programs h =
    payouts_bounded rs id escrow top (perform r programs)
      (perform-Backed id escrow top r programs h)
