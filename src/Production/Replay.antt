-- ===== src/Production/Replay.antt =====
-- backend/production/replay.py, `NonceReplayStore`: the rows of the nonces that signed requests
-- have used, of which the table keeps one for each trust domain, key and nonce.
pub mod Refinement
mod Tests
use swift.Prelude.{
  ℕ, Bool, true, false, not, ◌&&◌, Option, none, some, List, [], ◌∷◌, ◌++◌, find, is_some, leb,
  ◌==◌, if◌then◌else◌,
}
use swift.Prelude.Exec.{
  Exec, Result, ok, err, atomic, attempt, pure, raise, gets, raise_if, modify, ◌>>=◌, ◌>>◌,
}

pub record RequestNonce : Type 0 where
  pub trust_domain : ℕ
  pub key_id : ℕ
  pub nonce : ℕ
  pub request_digest : ℕ
  pub expires_at : ℕ
  pub first_used_at : ℕ

pub record Store : Type 0 where
  pub nonces : List RequestNonce
  pub clock : ℕ

pub data ReplayError : Type 0 where
  nonce_expired digest_differs replay_detected : ReplayError

pub data IntegrityError : Type 0 where
  not_unique : IntegrityError

-- The columns of the unique constraint.
abbrev pub has_identity : ℕ → ℕ → ℕ → RequestNonce → Bool
has_identity trust_domain key_id nonce row =
    row.trust_domain == trust_domain && row.key_id == key_id && row.nonce == nonce

-- `now or utcnow()`
abbrev pub current : Option ℕ → ℕ → ℕ
current none clock = clock
current (some now) clock = now

-- `add` and `flush` in a savepoint: the unique constraint refuses a second row of one identity.
unfoldable pub add_nonce : RequestNonce → Exec Store IntegrityError Unit
add_nonce row = do
  existing ← gets (λ store. find (has_identity row.trust_domain row.key_id row.nonce) store.nonces)
  raise_if (is_some existing) not_unique
  modify (λ store. record store { nonces = store.nonces ++ row ∷ [] })

abbrev pub uses_other_digest : ℕ → Option RequestNonce → Bool
uses_other_digest request_digest none = false
uses_other_digest request_digest (some existing) = not (existing.request_digest == request_digest)

-- `except IntegrityError`
unfoldable pub refuse : ℕ → ℕ → ℕ → ℕ → Exec Store ReplayError RequestNonce
refuse trust_domain key_id nonce request_digest = do
  existing ← gets (λ store. find (has_identity trust_domain key_id nonce) store.nonces)
  raise_if (uses_other_digest request_digest existing) digest_differs
  raise replay_detected

abbrev pub conclude :
    RequestNonce → Result IntegrityError Unit → Exec Store ReplayError RequestNonce
conclude row (ok done) = pure row
conclude row (err e) = refuse row.trust_domain row.key_id row.nonce row.request_digest

unfoldable pub consume : ℕ → ℕ → ℕ → ℕ → ℕ → Option ℕ → Exec Store ReplayError RequestNonce
consume trust_domain key_id nonce request_digest expires_at now = do
  clock ← gets (λ store. store.clock)
  raise_if (leb expires_at (current now clock)) nonce_expired
  let row : RequestNonce = record {
    trust_domain = trust_domain;
    key_id = key_id;
    nonce = nonce;
    request_digest = request_digest;
    expires_at = expires_at;
    first_used_at = current now clock;
  }
  added ← attempt (atomic (add_nonce row))
  conclude row added
