-- ===== src/Crypto/Tests.antt =====
-- Two requests under a signature that is the secret and the nonce.
use immich_go_server.Prelude.{
  pos, String, ◌≡◌, refl, true, false, [], ◌∷◌, contains, concat, add64, sub64, wrap, ◌+ℤ◌, ◌-ℤ◌,
}
use immich_go_server.Crypto.{Request, verify_request}
use immich_go_server.Crypto.Replay.{after, verify_request_replay}

abbrev sign : String → Request → String
sign secret r = concat secret r.nonce

abbrev request : String → Request
request nonce = record {
  method = "GET";
  path = "/api/cluster/state";
  timestamp = pos 1000;
  nonce = nonce;
  body = "";
}

accepted : (verify_request sign "s" (request "1") "s1" (pos 1010) (pos 300) []).0 ≡ true
unfolding verify_request contains add64 sub64 wrap ◌+ℤ◌ ◌-ℤ◌
accepted = refl

verify_request_replay_example :
    (verify_request sign "s" (request "1") "s1" (pos 1020) (pos 300) (
      after sign "s"
        (pos 300)
        (verify_request sign "s" (request "1") "s1" (pos 1010) (pos 300) []).1
        ((request "2", "s2", pos 1015) ∷ []))).0
    ≡ false
verify_request_replay_example =
    verify_request_replay sign "s" (request "1") (request "1") "s1" "s1" (pos 1010) (pos 1020)
      (pos 300) [] ((request "2", "s2", pos 1015) ∷ []) accepted refl
