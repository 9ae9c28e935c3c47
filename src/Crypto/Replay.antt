-- ===== src/Crypto/Replay.antt =====
-- A signed request is accepted once.
use immich_go_server.Prelude.{
  ℤ, String, ◌≡◌, ◌↔◌, true, false, List, [], ◌∷◌, arith, eq_iff, contains, contains-include,
}
use immich_go_server.Crypto.{Request, verify_request, is_stale}

module _ (sign_request : String → Request → String) where
  -- A stream of requests, each with its signature and the time of its arrival, answered in order.
  abbrev pub Arrival : Type 0
  Arrival = Request × String × ℤ

  abbrev pub after : String → ℤ → List String → List Arrival → List String
  after secret max_skew seen [] = seen
  after secret max_skew seen ((r, sig, now) ∷ rest) =
      after secret max_skew (verify_request sign_request secret r sig now max_skew seen).1 rest

  verify_request-grows :
      (secret : String) (r : Request) (sig : String) (now max_skew : ℤ) (seen : List String)
      (k : String)
      → contains k seen ≡ true
      → contains k (verify_request sign_request secret r sig now max_skew seen).1 ≡ true
  unfolding verify_request
  verify_request-grows secret r sig now max_skew seen k h =
      ground (arith, contains-include r.nonce k seen)

  after-grows :
      (secret : String) (max_skew : ℤ) (rest : List Arrival) (seen : List String) (k : String)
      → contains k seen ≡ true
      → contains k (after secret max_skew seen rest) ≡ true
  after-grows secret max_skew [] seen k h = h
  after-grows secret max_skew ((r, sig, now) ∷ rest) seen k h =
      after-grows secret max_skew rest
        (verify_request sign_request secret r sig now max_skew seen).1 k
        (verify_request-grows secret r sig now max_skew seen k h)

  verify_request-marks :
      (secret : String) (r : Request) (sig : String) (now max_skew : ℤ) (seen : List String)
      → (verify_request sign_request secret r sig now max_skew seen).0 ≡ true
      → contains r.nonce (verify_request sign_request secret r sig now max_skew seen).1 ≡ true
  unfolding verify_request
  verify_request-marks secret r sig now max_skew seen h =
      ground (arith, contains-include r.nonce r.nonce seen, eq_iff r.nonce r.nonce)

  verify_request-refuses :
      (secret : String) (r : Request) (sig : String) (now max_skew : ℤ) (seen : List String)
      → contains r.nonce seen ≡ true
      → (verify_request sign_request secret r sig now max_skew seen).0 ≡ false
  unfolding verify_request
  verify_request-refuses secret r sig now max_skew seen h = ground arith

  -- After a request has been accepted, and whatever requests have come in between, any request with the
  -- same nonce is refused, at whatever time and with whatever signature it comes.
  pub verify_request_replay :
      (secret : String) (r again : Request) (sig sig' : String) (now now' max_skew : ℤ)
      (seen : List String) (between : List Arrival)
      → (verify_request sign_request secret r sig now max_skew seen).0 ≡ true
      → again.nonce ≡ r.nonce
      → (verify_request sign_request secret again sig' now' max_skew (
          after secret max_skew
            (verify_request sign_request secret r sig now max_skew seen).1
            between)).0
        ≡ false
  verify_request_replay secret r again sig sig' now now' max_skew seen between accepted same =
      verify_request-refuses secret again sig' now' max_skew _ (
        rw same (
          after-grows secret max_skew between
            (verify_request sign_request secret r sig now max_skew seen).1 r.nonce
            (verify_request-marks secret r sig now max_skew seen accepted)))

  -- A request is accepted exactly when its signature is right, its time is within the window around the
  -- time of arrival and its nonce is new.
  pub verify_request_iff :
      (secret : String) (r : Request) (sig : String) (now max_skew : ℤ) (seen : List String)
      → ((verify_request sign_request secret r sig now max_skew seen).0 ≡ true) ↔ (
          (is_stale r.timestamp now max_skew ≡ false)
          × (contains r.nonce seen ≡ false)
          × (sign_request secret r ≡ sig))
  unfolding verify_request
  verify_request_iff secret r sig now max_skew seen =
      ground (arith, eq_iff (sign_request secret r) sig)
