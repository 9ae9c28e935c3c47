-- ===== src/Crypto.antt =====
-- internal/crypto/hmac.go and the check of a state message in internal/cluster/federation.go. SHA-256,
-- HMAC and the encodings are code outside of the repository: `sign_request` and `sign_payload` stand for
-- the signatures that the two functions of the same names compute.
pub mod Replay
pub mod Tests
use immich_go_server.Prelude.{
  ℕ, ℤ, pos, String, Bool, true, false, not, ◌||◌, List, [], ◌∷◌, if◌then◌else◌, ltb_ℤ, eqb_ℤ,
  add64, sub64, ◌==◌, contains, include,
}
use immich_go_server.Messages.{StatePayload}

-- A request as it is signed, with the body as text.
pub record Request : Type 0 where
  pub method : String
  pub path : String
  pub timestamp : ℤ
  pub nonce : String
  pub body : String

abbrev pub is_stale : ℤ → ℤ → ℤ → Bool
is_stale timestamp now max_skew =
    ltb_ℤ now (sub64 timestamp max_skew) || ltb_ℤ (add64 timestamp max_skew) now

module _ (sign_request : String → Request → String) where
  -- The answer, and the nonces seen afterwards.
  unfoldable pub verify_request :
      String → Request → String → ℤ → ℤ → List String → Bool × List String
  verify_request secret r sig now max_skew seen =
      if is_stale r.timestamp now max_skew
      then (false, seen)
      else if contains r.nonce seen
      then (false, seen)
      else if not (sign_request secret r == sig)
      then (false, seen)
      else (true, include r.nonce seen)

module _ {F : Type 0} (sign_payload : String → String → ℤ → StatePayload F → String) where
  unfoldable pub verify_state_payload : String → StatePayload F → ℤ → ℤ → Bool
  verify_state_payload secret sp now max_skew =
      if sp.signature == "" || eqb_ℤ sp.signed_at (pos 0)
      then false
      else if is_stale sp.signed_at now max_skew
      then false
      else sign_payload secret sp.node_id sp.signed_at (record sp { signature = "" })
        == sp.signature
