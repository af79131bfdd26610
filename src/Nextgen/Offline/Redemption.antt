-- ===== src/Nextgen/Offline/Redemption.antt =====
-- Requests to the vouchers, and the redemption of one that is no longer issued.
use swift.Prelude.{
  ℕ, ◌+◌, ◌≡◌, refl, sym, ap, ◌∙◌, true, false, Option, some, List, [], ◌∷◌, ◌++◌, arith,
  find-append_some, find-update_found_other, find-eq_some, Option-cases, Bool-cases, inl, inr, ◌==◌,
}
use mathlib.Core.Option.{some-injective}
use mathlib.Core.Bool.{true≢false}
use Prim.{absurd}
use swift.Prelude.Int.{ℤ}
use swift.Prelude.Exec.{Exec, Result, ok, err, atomic, modify}
use swift.Prelude.Exec.Keeps.{OnOk, Keeps, Keeps-bind, Keeps-atomic, Keeps-zoom, keeps_rules}
use swift.Ecny.Store.{Db as Ledger, Error as LedgerError}
use swift.Nextgen.Offline.{
  VoucherStatus, Voucher, OfflineEvent, offline_invalidated, Vault, OfflineError, consumed,
  on_ledger, ledger_raised, is_issued, find_voucher, wallet_account, escrow_account, issue,
  set_status, enqueue, expire, pay_out, redeem_issued, redeem, invalidate,
}

-- The voucher `v` is on record, and is no longer issued.
pub record Spent (v : Voucher) (vault : Vault) : Type 0 where
  pub stored : find_voucher v.voucher_id vault.vouchers ≡ some v
  pub over : is_issued v.status ≡ false

pub anything : {A : Type 0} (m : Exec Ledger LedgerError A) → Keeps (λ l. Unit {0}) m
anything {A = A} m = record { at = λ s h. any_result (m s) }
  where
    any_result : (r : Result LedgerError A × Ledger) → OnOk (λ l. Unit {0}) r
    any_result (ok a, s) = tt
    any_result (err e, s) = tt

module _ {v : Voucher} where
  on_ledger-Spent : {A : Type 0} (m : Exec Ledger LedgerError A) → Keeps (Spent v) (on_ledger m)
  on_ledger-Spent m =
      Keeps-zoom (Spent v) (λ l. Unit {0}) Vault.ledger (λ l vault. record vault { ledger = l })
        ledger_raised m (anything m) (λ s h. tt)
        (λ s t h q. record { stored = h.stored; over = h.over })

  wallet_account-Spent : (w : ℕ) → Keeps (Spent v) (wallet_account w)
  unfolding wallet_account
  wallet_account-Spent w = search keeps_rules depth 10

  escrow_account-Spent : (id : ℕ) → Keeps (Spent v) (escrow_account id)
  unfolding escrow_account
  escrow_account-Spent id = search keeps_rules depth 10

  enqueue-Spent : (e : OfflineEvent) → Keeps {E = OfflineError} (Spent v) (enqueue e)
  enqueue-Spent e = record { at = λ vault h. record { stored = h.stored; over = h.over } }

  set_status-Spent :
      (id : ℕ) (s : VoucherStatus) (by : Option ℕ)
      → (id == v.voucher_id) ≡ false
      → Keeps {E = OfflineError} (Spent v) (set_status id s by)
  set_status-Spent id s by d = record {
    at = λ vault h. record {
      stored =
          find-update_found_other (λ q. q.voucher_id == v.voucher_id) (λ q. q.voucher_id == id)
            (λ q. record q { status = s; redeemed_by = by }) vault.vouchers (λ q e. ground arith)
            (λ q. refl)
          ∙ h.stored;
      over = h.over;
    };
  }

  add-Spent :
      (new : Vault → Voucher)
      → Keeps {E = OfflineError}
          (Spent v)
          (modify (λ vault. record vault { vouchers = vault.vouchers ++ new vault ∷ [] }))
  add-Spent new = record {
    at = λ vault h. record {
      stored =
          find-append_some (λ q. q.voucher_id == v.voucher_id) vault.vouchers (new vault ∷ []) v
            h.stored;
      over = h.over;
    };
  }

  issue-Spent : (w d : ℕ) (x : ℤ) (ttl : ℕ) → Keeps (Spent v) (issue w d x ttl)
  unfolding issue
  issue-Spent w d x ttl =
      search (keeps_rules, on_ledger-Spent, wallet_account-Spent, add-Spent) depth 40

  expire-Spent : (u : Voucher) → (u.voucher_id == v.voucher_id) ≡ false → Keeps (Spent v) (expire u)
  unfolding expire
  expire-Spent u d = search (keeps_rules, set_status-Spent) depth 20

  pay_out-Spent :
      (u : Voucher) (m : ℕ) → (u.voucher_id == v.voucher_id) ≡ false → Keeps (Spent v) (pay_out u m)
  unfolding pay_out
  pay_out-Spent u m d =
      search
        (
          keeps_rules, on_ledger-Spent, wallet_account-Spent, escrow_account-Spent,
          set_status-Spent, enqueue-Spent,
        )
        depth 40

  redeem_issued-Spent :
      (u : Voucher) (n m : ℕ)
      → (u.voucher_id == v.voucher_id) ≡ false
      → Keeps (Spent v) (redeem_issued u n m)
  unfolding redeem_issued
  redeem_issued-Spent u n m d = search (keeps_rules, expire-Spent, pay_out-Spent) depth 40

  -- Another voucher than `v`, which is no longer issued.
  other_voucher :
      (id : ℕ) (u : Voucher) (vault : Vault)
      → Spent v vault
      → find_voucher id vault.vouchers ≡ some u
      → is_issued u.status ≡ true
      → ((u.voucher_id == v.voucher_id) ≡ false) × ((id == v.voucher_id) ≡ false)
  other_voucher id u vault h found i = elim (Bool-cases (id == v.voucher_id)) [
    | inl e ↦
        let same : id ≡ v.voucher_id = ground arith in
        let row : some u ≡ some v =
          sym found ∙ ap (λ k. find_voucher k vault.vouchers) same ∙ h.stored in
        absurd (true≢false (sym i ∙ ap (λ q. is_issued q.status) (some-injective u v row) ∙ h.over))
    | inr e ↦
        let named : (u.voucher_id == id) ≡ true =
          find-eq_some (λ q. q.voucher_id == id) vault.vouchers u found in
        (ground arith, e)
  ]

  redeem-Spent : (id n m : ℕ) → Keeps (Spent v) (redeem id n m)
  unfolding redeem
  redeem-Spent id n m = record {
    at = λ vault h. elim (Option-cases (find_voucher id vault.vouchers)) [
      | inl e ↦ rw e tt
      | inr (u, e) ↦ elim (Bool-cases (is_issued u.status)) [
        | inr i ↦ rw (e, i) tt
        | inl i ↦
            rw (e, i) ((redeem_issued-Spent u n m (other_voucher id u vault h e i).0).at vault h)
      ]
    ];
  }

  invalidate-Spent : (id : ℕ) → Keeps (Spent v) (invalidate id)
  unfolding invalidate
  invalidate-Spent id = record {
    at = λ vault h. elim (Option-cases (find_voucher id vault.vouchers)) [
      | inl e ↦ rw e tt
      | inr (u, e) ↦ elim (Bool-cases (is_issued u.status)) [
        | inr i ↦ rw (e, i) tt
        | inl i ↦
            rw (e, i)
              ((Keeps-bind (set_status id VoucherStatus.invalidated u.redeemed_by)
                  (λ _. enqueue (offline_invalidated id))
                  (set_status-Spent id VoucherStatus.invalidated u.redeemed_by
                    (other_voucher id u vault h e i).1)
                  (λ _. enqueue-Spent (offline_invalidated id))).at
                vault h)
      ]
    ];
  }

pub data Request : Type 0 where
  issued : ℕ → ℕ → ℤ → ℕ → Request
  redeemed : ℕ → ℕ → ℕ → Request
  invalidated : ℕ → Request
  wait : ℕ → Request

abbrev pub perform : Request → Vault → Vault
perform (issued w d x ttl) vault = (atomic (issue w d x ttl) vault).1
perform (redeemed id n m) vault = (atomic (redeem id n m) vault).1
perform (invalidated id) vault = (atomic (invalidate id) vault).1
perform (wait t) vault = record vault {
  ledger = record vault.ledger { now = vault.ledger.now + t };
}

abbrev pub perform_all : List Request → Vault → Vault
perform_all [] vault = vault
perform_all (r ∷ rs) vault = perform_all rs (perform r vault)

perform-Spent :
    (v : Voucher) (r : Request) (vault : Vault) → Spent v vault → Spent v (perform r vault)
perform-Spent v (issued w d x ttl) vault h = Keeps-atomic _ (issue-Spent w d x ttl) vault h
perform-Spent v (redeemed id n m) vault h = Keeps-atomic _ (redeem-Spent id n m) vault h
perform-Spent v (invalidated id) vault h = Keeps-atomic _ (invalidate-Spent id) vault h
perform-Spent v (wait t) vault h = record { stored = h.stored; over = h.over }

perform_all-Spent :
    (v : Voucher) (rs : List Request) (vault : Vault)
    → Spent v vault
    → Spent v (perform_all rs vault)
perform_all-Spent v [] vault h = h
perform_all-Spent v (r ∷ rs) vault h =
    perform_all-Spent v rs (perform r vault) (perform-Spent v r vault h)

refused :
    (v : Voucher) (n m : ℕ) (vault : Vault)
    → Spent v vault
    → redeem v.voucher_id n m vault ≡ (err consumed, vault)
unfolding redeem
refused v n m vault h = rw (h.stored, h.over) refl

-- A voucher that is on record and no longer issued is not redeemed again: after any requests and
-- any passing of time, to redeem it raises and changes nothing, whatever the nonce and the
-- merchant are.
pub redeem-spent :
    (v : Voucher) (rs : List Request) (n m : ℕ) (vault : Vault)
    → find_voucher v.voucher_id vault.vouchers ≡ some v
    → is_issued v.status ≡ false
    → redeem v.voucher_id n m (perform_all rs vault) ≡ (err consumed, perform_all rs vault)
redeem-spent v rs n m vault stored over =
    refused v n m (perform_all rs vault)
      (perform_all-Spent v rs vault (record { stored = stored; over = over }))
