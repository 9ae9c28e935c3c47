-- ===== src/Discovery/Tests.antt =====
-- A beacon of one peer, under a signature that is the secret and the nonce.
use immich_go_server.Prelude.{pos, String, ◌≡◌, ◌⊎◌, [], some, true, false, arith, ok, concat}
use immich_go_server.Discovery.{Beacon, Listener, prune, handle_packet}
use immich_go_server.Discovery.Heard.{IsKnown, IsNews, handle_packet-IsKnown}

abbrev sign : String → Beacon → String
sign secret b = concat secret b.nonce

abbrev beacon : Beacon
beacon = record {
  node_id = "n2";
  addr = "10.0.0.2:2283";
  timestamp = pos 1000;
  nonce = "1";
  sig = "s1";
}

abbrev listener : Listener
listener = record { secret = "s"; max_skew = pos 300; reg = []; seen = []; seen_cap = 1024 }

handle_packet-IsKnown_example :
    (((handle_packet sign (some beacon) (pos 1010) listener).0 ≡ ok true)
      × IsNews sign beacon (pos 1010) listener
      × IsKnown "n2" "10.0.0.2:2283"
          (pos 1010)
          (prune (pos 900) (handle_packet sign (some beacon) (pos 1010) listener).1.reg).1)
    ⊎ (((handle_packet sign (some beacon) (pos 1010) listener).0 ≡ ok false)
        × ¬ IsNews sign beacon (pos 1010) listener
        × ((handle_packet sign (some beacon) (pos 1010) listener).1 ≡ listener))
handle_packet-IsKnown_example =
    handle_packet-IsKnown sign beacon (pos 1010) (pos 900) listener (ground arith)
