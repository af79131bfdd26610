-- ===== src/Production/Replay/Refinement.antt =====
-- The contract of the store of nonces, as a map from identities to digests.
use swift.Prelude.{
  ℕ, ◌≡◌, refl, sym, ◌∙◌, ap, ◌&&◌, Option, none, some, List, [], ◌∷◌, ◌++◌, arith, find, leb, ◌==◌,
  if◌then◌else◌, inl, inr, Bool-cases, Option-cases, find-append_some, find-append_none,
}
use swift.Prelude.Exec.{Result, ok, err}
use swift.Production.Replay.{
  RequestNonce, Store, ReplayError, nonce_expired, digest_differs, replay_detected, has_identity,
  current, add_nonce, refuse, consume,
}

-- A signed request, the instant that its check gets as `now`, and the clock when it comes in.
pub record Request : Type 0 where
  pub trust_domain : ℕ
  pub key_id : ℕ
  pub nonce : ℕ
  pub request_digest : ℕ
  pub expires_at : ℕ
  pub now : Option ℕ
  pub arrives : ℕ

-- The digest that an identity was used with first.
abbrev pub Used : Type 0
Used = ℕ → ℕ → ℕ → Option ℕ

abbrev pub mark : Request → Used → Used
mark r used d k n =
    if r.trust_domain == d && r.key_id == k && r.nonce == n
    then some r.request_digest
    else used d k n

-- `none` where the request is accepted.
abbrev pub Verdict : Type 0
Verdict = Option ReplayError

abbrev pub judge : Request → Option ℕ → Used → Verdict × Used
judge r none used = (none, mark r used)
judge r (some digest) used =
    (some (if digest == r.request_digest then replay_detected else digest_differs), used)

abbrev pub judge_request : Request → Used → Verdict × Used
judge_request r used =
    if leb r.expires_at (current r.now r.arrives)
    then (some nonce_expired, used)
    else judge r (used r.trust_domain r.key_id r.nonce) used

abbrev pub judge_all : List Request → Used → List Verdict × Used
judge_all [] used = ([], used)
judge_all (r ∷ rs) used =
    let (verdict, after) = judge_request r used in
    let (verdicts, last) = judge_all rs after in (verdict ∷ verdicts, last)

abbrev pub verdict_of : Result ReplayError RequestNonce → Verdict
verdict_of (ok row) = none
verdict_of (err e) = some e

abbrev pub consume_request : Request → Store → Verdict × Store
consume_request r store =
    let (result, after) =
      consume r.trust_domain r.key_id r.nonce r.request_digest r.expires_at r.now
        (record store { clock = r.arrives }) in
    (verdict_of result, after)

abbrev pub consume_all : List Request → Store → List Verdict × Store
consume_all [] store = ([], store)
consume_all (r ∷ rs) store =
    let (verdict, after) = consume_request r store in
    let (verdicts, last) = consume_all rs after in (verdict ∷ verdicts, last)

abbrev pub digest_of : Option RequestNonce → Option ℕ
digest_of none = none
digest_of (some row) = some row.request_digest

abbrev pub used_in : Store → Used
used_in store d k n = digest_of (find (has_identity d k n) store.nonces)

abbrev row_of : Request → RequestNonce
row_of r = record {
  trust_domain = r.trust_domain;
  key_id = r.key_id;
  nonce = r.nonce;
  request_digest = r.request_digest;
  expires_at = r.expires_at;
  first_used_at = current r.now r.arrives;
}

-- The row of a request whose identity has none yet.
used_in-add :
    (r : Request) (rows : List RequestNonce) (d k n : ℕ)
    → find (has_identity r.trust_domain r.key_id r.nonce) rows ≡ none
    → used_in (record { nonces = rows ++ row_of r ∷ []; clock = r.arrives }) d k n
      ≡ mark r (used_in (record { nonces = rows; clock = r.arrives })) d k n
used_in-add r rows d k n free =
    elim (Bool-cases (r.trust_domain == d && r.key_id == k && r.nonce == n)) [
      | inl same ↦
          let named : (r.trust_domain ≡ d) × (r.key_id ≡ k) × (r.nonce ≡ n) = ground arith in
          let fresh : find (has_identity d k n) rows ≡ none =
            rw (sym named.0, sym named.1, sym named.2) free in
          rw (find-append_none (has_identity d k n) rows (row_of r ∷ []) fresh, same) refl
      | inr other ↦ elim (Option-cases (find (has_identity d k n) rows)) [
        | inr (row, e) ↦
            rw (find-append_some (has_identity d k n) rows (row_of r ∷ []) row e, other, e) refl
        | inl e ↦ rw (find-append_none (has_identity d k n) rows (row_of r ∷ []) e, other, e) refl
      ]
    ]

consume_request-refines :
    (r : Request) (store : Store)
    → ((consume_request r store).0, used_in (consume_request r store).1)
      ≡ judge_request r (used_in store)
unfolding consume add_nonce refuse
consume_request-refines r store = elim (Bool-cases (leb r.expires_at (current r.now r.arrives))) [
  | inl late ↦ rw late refl
  | inr early ↦
      elim (Option-cases (find (has_identity r.trust_domain r.key_id r.nonce) store.nonces)) [
        | inl e ↦ rw (early, e) (λ i. (none, λ d k n. used_in-add r store.nonces d k n e i))
        | inr (row, e) ↦ elim (Bool-cases (row.request_digest == r.request_digest)) [
          | inl d ↦ rw (early, e, e, d) refl
          | inr d ↦ rw (early, e, e, d) refl
        ]
      ]
]

-- The store answers any requests as its contract says, which knows of each identity only the
-- digest of the request that used it first: one out of date is refused, the first one of an
-- identity is accepted, and a further one is a replay, or reuses the nonce with another digest;
-- and what the store knows of the identities is what the contract knows.
pub consume_all-refines :
    (rs : List Request) (store : Store)
    → ((consume_all rs store).0, used_in (consume_all rs store).1) ≡ judge_all rs (used_in store)
consume_all-refines [] store = refl
consume_all-refines (r ∷ rs) store =
    let step = consume_request-refines r store in
    let rest = consume_all-refines rs (consume_request r store).1 in
    ap (λ run. ((consume_request r store).0 ∷ run.0, run.1)) rest
    ∙ ap (λ one. (one.0 ∷ (judge_all rs one.1).0, (judge_all rs one.1).1)) step
