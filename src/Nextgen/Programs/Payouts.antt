-- ===== src/Nextgen/Programs/Payouts.antt =====
-- Requests to the instruments, and what stands behind one of them.
use swift.Prelude.{
  ℕ, ◌+◌, ◌≡◌, refl, ◌∙◌, Bool, true, false, not, ◌&&◌, some, List, [], ◌∷◌, ◌++◌, arith, find,
  find-append_some, find-update_found_other, Bool-cases, inl, inr, ◌==◌, if◌then◌else◌, All-find,
  find-eq_some,
}
use std.Path.{subst}
use swift.Prelude.Int.{ℤ, pos, ◌-ℤ◌, ◌≤ℤ◌, leb_ℤ, int_laws}
use swift.Prelude.Exec.{Exec, Result, ok, err, atomic, map_error}
use swift.Prelude.Exec.Keeps.{OnOk, Keeps, keeps_rules}
use swift.Prelude.Exec.Returns.{OnOk-bind, OnOk-or_raise, Yields, Yields-bind}
use swift.Ecny.Store.{Db as Ledger, Error as LedgerError, Account, OwnerType, cny, is_wallet}
use swift.Ecny.Ledger.{get_or_create_account, transfer}
use swift.Nextgen.Programs.Templates.{
  Template, Conditions, Context, is_supported, validate_conditions,
}
use swift.Nextgen.Programs.{
  InstrumentStatus, Instrument, Programs, ProgramError, on_ledger, find_instrument, wallet_account,
  escrow_account, create, pay_out, execute, refund, is_program_escrow,
}
use swift.Nextgen.Programs.Escrow.{
  only-All, IsRow, Owned, transfer-Owned, get_or_create_account-Owned,
}

pub data Request : Type 0 where
  created : ℕ → ℤ → Template → Conditions → Request
  executed : ℕ → ℕ → ℤ → Context → Request
  refunded : ℕ → Request
  wait : ℕ → Request

abbrev pub perform : Request → Programs → Programs
perform (created w x t c) programs = (atomic (create w x t c) programs).1
perform (executed id d x c) programs = (atomic (execute id d x c) programs).1
perform (refunded id) programs = (atomic (refund id) programs).1
perform (wait t) programs = record programs {
  ledger = record programs.ledger { now = programs.ledger.now + t };
}

abbrev pub perform_all : List Request → Programs → Programs
perform_all [] programs = programs
perform_all (r ∷ rs) programs = perform_all rs (perform r programs)

-- The instrument is on record with an amount that is not negative and not more than `top`, and its
-- escrow account has just that amount.
pub record Backed (id escrow : ℕ) (top : ℤ) (programs : Programs) : Type 0 where
  pub instrument : Instrument
  pub stored : find_instrument id programs.instruments ≡ some instrument
  pub nonnegative : pos 0 ≤ℤ instrument.amount
  pub at_most : instrument.amount ≤ℤ top
  pub owned : Owned id escrow instrument.amount programs.ledger

module _ (id escrow : ℕ) where
  -- The same instruments, and `b` in the escrow account.
  abbrev pub Side : List Instrument → ℤ → Programs → Type 0
  Side is b programs = (programs.instruments ≡ is) × Owned id escrow b programs.ledger

  on_ledger-Side :
      {A : Type 0} (m : Exec Ledger LedgerError A) (b : ℤ) (programs : Programs)
      → OnOk (Owned id escrow b) (m programs.ledger)
      → OnOk (Side programs.instruments b) (on_ledger m programs)
  on_ledger-Side {A = A} m b programs h = part (m programs.ledger).0 (m programs.ledger).1 h
    where
      part :
          (r : Result LedgerError A) (l : Ledger)
          → OnOk (Owned id escrow b) (r, l)
          → OnOk
              (Side programs.instruments b)
              (map_error ProgramError.ledger_raised r, record programs { ledger = l })
      part (ok a) l o = (refl, o)
      part (err e) l o = tt

  on_ledger-Yields :
      {A : Type 0} (P : A → Type 0) (m : Exec Ledger LedgerError A) (b : ℤ) (programs : Programs)
      → Yields (λ a l. P a × Owned id escrow b l) (m programs.ledger)
      → Yields (λ a s. P a × Side programs.instruments b s) (on_ledger m programs)
  on_ledger-Yields {A = A} P m b programs h = part (m programs.ledger).0 (m programs.ledger).1 h
    where
      part :
          (r : Result LedgerError A) (l : Ledger)
          → Yields (λ a l'. P a × Owned id escrow b l') (r, l)
          → Yields
              (λ a s. P a × Side programs.instruments b s)
              (map_error ProgramError.ledger_raised r, record programs { ledger = l })
      part (ok a) l o = (o.0, (refl, o.1))
      part (err e) l o = tt

  abbrev pub is_account_of : ℕ → Account → Bool
  is_account_of w a = is_wallet a.owner_type && a.owner_ref == w && a.currency == cny

  -- A wallet's account is not the escrow account.
  pub wallet-other :
      (w : ℕ) (b : ℤ) (l : Ledger) (a : Account)
      → Owned id escrow b l
      → find (is_account_of w) l.accounts ≡ some a
      → (a.account_id == escrow) ≡ false
  wallet-other w b l a o e =
      wallet_row a.owner_type a.owner_ref (a.account_id == escrow)
        (find-eq_some (is_account_of w) l.accounts a e)
        (All-find (IsRow id escrow) (is_account_of w) l.accounts a o.framed.0 e)
    where
      wallet_row :
          (kind : OwnerType) (ref : ℕ) (same : Bool)
          → (is_wallet kind && ref == w && a.currency == cny) ≡ true
          → (is_program_escrow kind && ref == id) ≡ same
          → same ≡ false
      wallet_row kind ref same t row = ground arith

  -- A transfer out of any account to a wallet's, and what is written after it.
  pub paid-Backed :
      (f t : ℕ) (x b : ℤ) (programs : Programs)
      → (t == escrow) ≡ false
      → Owned id escrow b programs.ledger
      → OnOk
          (Side programs.instruments (b -ℤ (if f == escrow then x else pos 0)))
          (on_ledger (transfer f t x) programs)
  paid-Backed f t x b programs other o =
      on_ledger-Side (transfer f t x) _ programs
        (transfer-Owned id escrow f t x b programs.ledger other o)

pub less_nothing : (x : ℤ) → x -ℤ pos 0 ≡ x
less_nothing x = omega int_laws

module _ (id escrow : ℕ) (top : ℤ) where
  added-Backed :
      (programs s : Programs) (h : Backed id escrow top programs) (new : Instrument)
      → Side id escrow programs.instruments h.instrument.amount s
      → Backed id escrow top (record s { instruments = s.instruments ++ new ∷ [] })
  added-Backed programs s h new side = record {
    instrument = h.instrument;
    stored = rw side.0 (
        find-append_some (λ p. p.instrument_id == id) programs.instruments (new ∷ []) h.instrument
          h.stored);
    nonnegative = h.nonnegative;
    at_most = h.at_most;
    owned = side.1;
  }

  -- A new instrument has an account of its own.
  pub create-Backed :
      (w : ℕ) (x : ℤ) (t : Template) (c : Conditions) (programs : Programs)
      → Backed id escrow top programs
      → OnOk (Backed id escrow top) (create w x t c programs)
  unfolding create wallet_account
  create-Backed w x t c programs h =
      let Q : Programs → Type 0 = Backed id escrow top in
      let l = programs.ledger in
      let b = h.instrument.amount in
      let drawn : Ledger = record l { drawn = l.drawn + 1 + 1 } in
      let s2 : Programs = record programs { ledger = drawn } in
      let fresh = h.owned.framed.1 in
      let o : Owned id escrow b drawn = record {
        framed = (h.owned.framed.0, λ n k. fresh n (omega (arith, k)));
        balance = h.owned.balance;
      } in
      let Other : Account → Type 0 = λ a. (a.account_id == escrow) ≡ false in
      let Same : Programs → Type 0 = Side id escrow programs.instruments b in
      let account_id = l.uuids (l.drawn + 1) in
      let ref = l.uuids l.drawn in
      let get = get_or_create_account account_id OwnerType.program_escrow ref cny in
      elim (Bool-cases (not (is_supported t))) [
        | inl g ↦ rw g tt
        | inr g ↦ elim (Bool-cases (leb_ℤ x (pos 0))) [
          | inl g₁ ↦ rw (g, g₁) tt
          | inr g₁ ↦ elim (Bool-cases (not (validate_conditions t c))) [
            | inl g₂ ↦ rw (g, g₁, g₂) tt
            | inr g₂ ↦
                rw (g, g₁, g₂)
                  (Yields-bind (λ a s. Other a × Same s) Q (on_ledger get) _ s2
                    (on_ledger-Yields id escrow Other get b s2 (
                      get_or_create_account-Owned id escrow account_id ref b drawn
                        (fresh (l.drawn + 1) (omega arith)).0 (fresh l.drawn (omega arith)).1 o))
                    (λ a s3 k. OnOk-or_raise Q _ _ _ s3 (λ source e.
                      let move = transfer source.account_id a.account_id x in
                      let out = wallet-other id escrow w b s3.ledger source k.1.1 e in
                      OnOk-bind (Side id escrow s3.instruments b) Q (on_ledger move) _ s3
                        (subst (λ y. OnOk (Side id escrow s3.instruments y) (on_ledger move s3))
                          (rw out (less_nothing b))
                          (paid-Backed id escrow source.account_id a.account_id x b s3 k.0 k.1.1))
                        (λ tx s4 m. added-Backed programs s4 h _ (m.0 ∙ k.1.0, m.1)))))
          ]
        ]
      ]

  -- What another instrument pays does not come out of this escrow account.
  pay_out-other :
      (i d : ℕ) (x left : ℤ) (status : InstrumentStatus)
      → (i == id) ≡ false
      → Keeps (Backed id escrow top) (pay_out i d x left status)
  unfolding pay_out escrow_account wallet_account
  pay_out-other i d x left status o = record {
    at = λ programs h.
        let Q : Programs → Type 0 = Backed id escrow top in
        let b = h.instrument.amount in
        let is_escrow : Account → Bool = λ a. is_program_escrow a.owner_type && a.owner_ref == i in
        OnOk-or_raise Q _ _ _ programs (λ source e. OnOk-or_raise Q _ _ _ programs (λ target e'.
          let row =
            only-All (IsRow id escrow) is_escrow programs.ledger.accounts source h.owned.framed.0
              e in
          let out : (source.account_id == escrow) ≡ false =
            other_row source.owner_type source.owner_ref _ row.0 row.1 in
          let move = transfer source.account_id target.account_id x in
          OnOk-bind (Side id escrow programs.instruments b) Q (on_ledger move) _ programs
            (subst (λ y. OnOk (Side id escrow programs.instruments y) (on_ledger move programs))
              (rw out (less_nothing b))
              (paid-Backed id escrow source.account_id target.account_id x b programs
                (wallet-other id escrow d b programs.ledger target h.owned e') h.owned))
            (λ tx s side. record {
              instrument = h.instrument;
              stored =
                  find-update_found_other (λ p. p.instrument_id == id) (λ p. p.instrument_id == i)
                    (λ p. record p { amount = left; status = status }) s.instruments
                    (λ p k. ground arith) (λ p. refl)
                  ∙ rw side.0 h.stored;
              nonnegative = h.nonnegative;
              at_most = h.at_most;
              owned = side.1;
            })));
  }
    where
      other_row :
          (kind : OwnerType) (ref : ℕ) (same : Bool)
          → (is_program_escrow kind && ref == i) ≡ true
          → (is_program_escrow kind && ref == id) ≡ same
          → same ≡ false
      other_row kind ref same t row = ground arith

  pub execute-other :
      (i d : ℕ) (x : ℤ) (c : Context)
      → (i == id) ≡ false
      → Keeps (Backed id escrow top) (execute i d x c)
  unfolding execute
  execute-other i d x c o = search (keeps_rules, pay_out-other) depth 50

  pub refund-other : (i : ℕ) → (i == id) ≡ false → Keeps (Backed id escrow top) (refund i)
  unfolding refund
  refund-other i o = search (keeps_rules, pay_out-other) depth 40
