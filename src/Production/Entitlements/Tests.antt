-- ===== src/Production/Entitlements/Tests.antt =====
-- The theorems on an entitlement for one currency and a newer one for all of them.
use swift.Prelude.{ℕ, ◌≡◌, refl, true, false, none, some, List, [], ◌∷◌}
use swift.Prelude.Int.{ℤ, pos}
use swift.Prelude.Exec.{Result, ok, err}
use swift.Prelude.Sorting.{sort, insert}
use swift.Production.Entitlements.{
  Entitlement, Store, Terms, Query, not_found, create_pending, activate, in_effect, fits, star_text,
  match,
}
use swift.Production.Entitlements.Matching.{Answers, match_exact}
use swift.Production.Entitlements.Approval.{
  AllValid, Request, created, activation, perform_all, perform_all-AllValid,
}

-- "eur" and "EUR"
abbrev eur : List ℕ
eur = 101 ∷ 117 ∷ 114 ∷ []

abbrev terms : List ℕ → ℤ → ℕ → Terms
terms currency version until = record {
  participant_id = 1;
  counterparty_id = 2;
  direction = 3;
  service = 4;
  message_type = 5;
  corridor = 6;
  currency = currency;
  min_amount_minor = pos 10;
  max_amount_minor = pos 90;
  effective_from = 40;
  effective_to = some until;
  version = version;
  evidence_ref = some (7 ∷ []);
}

-- The window of the third ends before it starts, and the second activation has one maker and
-- checker.
abbrev requests : List Request
requests =
    created (terms eur (pos 1) 80)
    ∷ created (terms star_text (pos 2) 80)
    ∷ created (terms eur (pos 3) 30)
    ∷ activation 1 8 9 (65 ∷ [])
    ∷ activation 2 8 8 (65 ∷ [])
    ∷ activation 2 8 9 (65 ∷ [])
    ∷ []

abbrev no_entitlements : Store
no_entitlements = record { entitlements = []; clock = 50 }

abbrev store : Store
store = perform_all requests no_entitlements

abbrev query : ℤ → Query
query amount_minor = record {
  participant_id = 1;
  counterparty_id = 2;
  direction = 3;
  service = 4;
  message_type = 5;
  corridor = 6;
  currency = eur;
  amount_minor = amount_minor;
  allow_approved_wildcard = false;
}

abbrev version_of : {E : Type 0} → Result E Entitlement → Result E ℤ
version_of (ok e) = ok e.version
version_of (err x) = err x

-- The wildcard is found only if it may be.
answers :
    (version_of (match (query (pos 20)) none store).0 ≡ ok (pos 1))
    × (version_of (match (record (query (pos 20)) { allow_approved_wildcard = true }) none store).0
        ≡ ok (pos 2))
    × (version_of (match (query (pos 91)) none store).0 ≡ err not_found)
    × (version_of (match (query (pos 20)) (some 81) store).0 ≡ err not_found)
unfolding create_pending activate match in_effect fits sort insert
answers = (refl, refl, refl, refl)

match_exact_example :
    Answers (query (pos 20)) 50 store.entitlements (match (query (pos 20)) none store).0
    × ((match (query (pos 20)) none store).1 ≡ store)
unfolding create_pending activate
match_exact_example = match_exact (query (pos 20)) none store

perform_all-AllValid_example : AllValid store
perform_all-AllValid_example =
    perform_all-AllValid requests no_entitlements (record { entitlements = tt })
