-- ===== src/Production/Entitlements.antt =====
-- backend/production/entitlement_service.py, `EntitlementService`: what a participant may send to
-- whom. The identifier of a row is its `id`; a currency is a text, as the code puts it in upper case.
pub mod Matching
pub mod Approval
mod Tests
use swift.Prelude.{
  ℕ, suc, Bool, true, false, not, ◌&&◌, ◌||◌, Option, none, some, List, [], ◌∷◌, ◌++◌, find, select,
  update_found, length, is_some, map, ltb, leb, ◌==◌, if◌then◌else◌,
}
use swift.Prelude.Int.{ℤ, pos, leb_ℤ, ltb_ℤ}
use swift.Prelude.Exec.{Exec, pure, gets, raise_if, or_raise, modify, ◌>>=◌, ◌>>◌}
use swift.Prelude.Sorting.{sort}
use swift.Core.Text.{between, upper, is_empty}

pub data EntitlementStatus : Type 0 where
  pending active suspended expired revoked : EntitlementStatus

pub record Entitlement : Type 0 where
  pub id : ℕ
  pub participant_id : ℕ
  pub counterparty_id : ℕ
  pub direction : ℕ
  pub service : ℕ
  pub message_type : ℕ
  pub corridor : ℕ
  pub currency : List ℕ
  pub min_amount_minor : ℤ
  pub max_amount_minor : ℤ
  pub version : ℤ
  pub status : EntitlementStatus
  pub effective_from : ℕ
  pub effective_to : Option ℕ
  pub approved_by : Option (List ℕ)
  pub evidence_ref : Option (List ℕ)

pub record Store : Type 0 where
  pub entitlements : List Entitlement
  pub clock : ℕ

pub data EntitlementError : Type 0 where
  invalid_amount_band invalid_window not_activable not_revocable not_found no_row : EntitlementError

abbrev pub is_active : EntitlementStatus → Bool
is_active EntitlementStatus.active = true
is_active _ = false

abbrev pub is_pending : EntitlementStatus → Bool
is_pending EntitlementStatus.pending = true
is_pending _ = false

abbrev pub is_space : ℕ → Bool
is_space c = between 9 13 c || between 28 32 c

-- `not text.strip()`
abbrev pub is_blank : List ℕ → Bool
is_blank [] = true
is_blank (c ∷ rest) = is_space c && is_blank rest

abbrev pub same_text : List ℕ → List ℕ → Bool
same_text [] [] = true
same_text (c ∷ s) (d ∷ t) = c == d && same_text s t
same_text _ _ = false

-- The truth of a text or None.
abbrev pub is_given : Option (List ℕ) → Bool
is_given none = false
is_given (some text) = not (is_empty text)

-- The arguments of `create_pending`.
pub record Terms : Type 0 where
  pub participant_id : ℕ
  pub counterparty_id : ℕ
  pub direction : ℕ
  pub service : ℕ
  pub message_type : ℕ
  pub corridor : ℕ
  pub currency : List ℕ
  pub min_amount_minor : ℤ
  pub max_amount_minor : ℤ
  pub effective_from : ℕ
  pub effective_to : Option ℕ
  pub version : ℤ
  pub evidence_ref : Option (List ℕ)

abbrev pub ends_by : ℕ → Option ℕ → Bool
ends_by start none = false
ends_by start (some end) = leb end start

unfoldable pub create_pending : Terms → Exec Store EntitlementError ℕ
create_pending t = do
  raise_if (ltb_ℤ t.min_amount_minor (pos 0) || ltb_ℤ t.max_amount_minor t.min_amount_minor)
      invalid_amount_band
  raise_if (ends_by t.effective_from t.effective_to) invalid_window
  id ← gets (λ store. suc (length store.entitlements))
  modify (λ store. record store {
    entitlements =
        store.entitlements
        ++ record {
          id = id;
          participant_id = t.participant_id;
          counterparty_id = t.counterparty_id;
          direction = t.direction;
          service = t.service;
          message_type = t.message_type;
          corridor = t.corridor;
          currency = map upper t.currency;
          min_amount_minor = t.min_amount_minor;
          max_amount_minor = t.max_amount_minor;
          version = t.version;
          status = EntitlementStatus.pending;
          effective_from = t.effective_from;
          effective_to = t.effective_to;
          approved_by = none;
          evidence_ref = t.evidence_ref;
        }
          ∷ [];
  })
  pure id

abbrev pub find_entitlement : ℕ → List Entitlement → Option Entitlement
find_entitlement id rows = find (λ e. e.id == id) rows

-- Assignments to the row that the caller holds.
abbrev pub write : ℕ → (Entitlement → Entitlement) → Exec Store EntitlementError Unit
write id f =
    modify
      (λ store. record store { entitlements = update_found (λ e. e.id == id) f store.entitlements })

abbrev pub activated : List ℕ → Entitlement → Entitlement
activated approved_by e = record e {
  status = EntitlementStatus.active;
  approved_by = some approved_by;
}

unfoldable pub activate : ℕ → ℕ → ℕ → List ℕ → Exec Store EntitlementError Unit
activate id maker checker approved_by = do
  found ← gets (λ store. find_entitlement id store.entitlements)
  e ← or_raise found no_row
  raise_if (not (is_pending e.status) || maker == checker || is_blank approved_by) not_activable
  write id (activated approved_by)

unfoldable pub revoke : ℕ → ℕ → ℕ → Exec Store EntitlementError Unit
revoke id maker checker = do
  found ← gets (λ store. find_entitlement id store.entitlements)
  e ← or_raise found no_row
  raise_if (not (is_active e.status) || maker == checker) not_revocable
  write id (λ e. record e { status = EntitlementStatus.revoked })

-- The arguments of `match`.
pub record Query : Type 0 where
  pub participant_id : ℕ
  pub counterparty_id : ℕ
  pub direction : ℕ
  pub service : ℕ
  pub message_type : ℕ
  pub corridor : ℕ
  pub currency : List ℕ
  pub amount_minor : ℤ
  pub allow_approved_wildcard : Bool

abbrev pub lasts : Option ℕ → ℕ → Bool
lasts none current = true
lasts (some end) current = leb current end

-- The filter of the query over the table.
unfoldable pub in_effect : Query → ℕ → Entitlement → Bool
in_effect q current e =
    e.participant_id == q.participant_id
    && e.service == q.service
    && is_active e.status
    && leb e.effective_from current
    && lasts e.effective_to current
    && leb_ℤ e.min_amount_minor q.amount_minor
    && leb_ℤ q.amount_minor e.max_amount_minor

-- `"*"`, in a column and in the currency.
abbrev pub star : ℕ
star = 0

abbrev pub star_text : List ℕ
star_text = 42 ∷ []

abbrev pub is_wildcard : Entitlement → Bool
is_wildcard e =
    e.counterparty_id == star
    || e.direction == star
    || e.message_type == star
    || e.corridor == star
    || same_text e.currency star_text

abbrev pub covers : ℕ → ℕ → Bool
covers column value = column == star || column == value

-- What the loop asks of a row.
unfoldable pub fits : Query → Entitlement → Bool
fits q e =
    not (is_wildcard e && not q.allow_approved_wildcard)
    && (covers e.counterparty_id q.counterparty_id
        && covers e.direction q.direction
        && covers e.message_type q.message_type
        && covers e.corridor q.corridor
        && (same_text e.currency star_text || same_text e.currency (map upper q.currency)))
    && not (is_wildcard e && not (is_given e.approved_by && is_given e.evidence_ref))

-- `order_by(version.desc(), id.desc())`
abbrev pub goes_first : Entitlement → Entitlement → Bool
goes_first a b = ltb_ℤ b.version a.version || (not (ltb_ℤ a.version b.version) && leb b.id a.id)

abbrev pub newest_first : List Entitlement → List Entitlement
newest_first rows = sort goes_first rows

abbrev pub current_at : Option ℕ → ℕ → ℕ
current_at none clock = clock
current_at (some now) clock = now

unfoldable pub match : Query → Option ℕ → Exec Store EntitlementError Entitlement
match q now = do
  rows ←
      gets (λ store.
        newest_first (select (in_effect q (current_at now store.clock)) store.entitlements))
  or_raise (find (fits q) rows) not_found
