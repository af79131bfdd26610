-- ===== src/Production/Replay/Tests.antt =====
-- The theorems on four requests: one that is new, the same again, its nonce with another digest, and
-- one that is late.
use swift.Prelude.{ℕ, ◌≡◌, refl, none, some, List, [], ◌∷◌}
use swift.Production.Replay.{
  Store, nonce_expired, digest_differs, replay_detected, add_nonce, refuse, consume,
}
use swift.Production.Replay.Refinement.{
  Request, judge_all, consume_all, used_in, consume_all-refines,
}

abbrev request : ℕ → ℕ → ℕ → Request
request nonce request_digest arrives = record {
  trust_domain = 1;
  key_id = 2;
  nonce = nonce;
  request_digest = request_digest;
  expires_at = 100;
  now = none;
  arrives = arrives;
}

abbrev requests : List Request
requests = request 3 7 10 ∷ request 3 7 11 ∷ request 3 8 12 ∷ request 4 7 100 ∷ []

abbrev no_nonces : Store
no_nonces = record { nonces = []; clock = 0 }

answers :
    (consume_all requests no_nonces).0
    ≡ none ∷ some replay_detected ∷ some digest_differs ∷ some nonce_expired ∷ []
unfolding consume add_nonce refuse
answers = refl

consume_all-refines_example :
    ((consume_all requests no_nonces).0, used_in (consume_all requests no_nonces).1)
    ≡ judge_all requests (used_in no_nonces)
consume_all-refines_example = consume_all-refines requests no_nonces
