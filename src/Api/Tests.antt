-- ===== src/Api/Tests.antt =====
-- A range within ten bytes, and a node that gives up one of its two directories.
use immich_go_server.Crypto.{Request, is_stale}
use immich_go_server.Api.Access.{Headers, sign_headers, IsLetInOnce, auth-sign_headers}
use immich_go_server.Prelude.{
  concat, add64, sub64, wrap, ◌+ℤ◌, ◌-ℤ◌, format_int, contains, ◌+◌, ℕ, false, ℤ, pos, String, ◌≡◌,
  refl, not, ◌&&◌, ◌==◌, [], ◌∷◌, some, retain, arith, codes,
}
use immich_go_server.Model.{Directory, tier_hot}
use immich_go_server.Store.{Store, working, rows_of}
use immich_go_server.Api.{parse_byte_range, handle_rehost_directory}
use immich_go_server.Api.Ranges.{IsWithin, parse_byte_range-IsWithin}
use immich_go_server.Api.Rehost.{handle_rehost_directory_rows}

third_byte : parse_byte_range (codes "bytes=2-4") (pos 10) ≡ some (pos 2, pos 4)
unfolding parse_byte_range
third_byte = refl

parse_byte_range-IsWithin_example : IsWithin (pos 10) (pos 2, pos 4)
parse_byte_range-IsWithin_example =
    parse_byte_range-IsWithin (pos 10) (ground arith) (codes "bytes=2-4") (pos 2, pos 4) third_byte

abbrev dir : String → Directory ℤ
dir key = record {
  dir_key = key;
  node_id = "n1";
  disk_serial = "d1";
  tier = tier_hot;
  temperature = pos 0;
  total_bytes = pos 7;
  access_score = pos 0;
  last_eval_at = pos 10;
}

abbrev store : Store ℤ
store = record {
  node_id = "n1";
  disk = [];
  node = [];
  replica = [];
  directory = ("2026/05", dir "2026/05") ∷ ("2026/06", dir "2026/06") ∷ [];
  asset = [];
  task = [];
  server_config = [];
  asset_meta = [];
  device_asset = [];
  faults = [];
}

handle_rehost_directory_rows_example :
    ((handle_rehost_directory "n1" "POST" (some ("2026/05", "n1")) (working store)).0 ≡ 200)
    × (rows_of
          (handle_rehost_directory "n1" "POST" (some ("2026/05", "n1")) (working store)).1.directory
        ≡ retain
            (λ d. not ("n1" == "n1" && (d.dir_key == "2026/05" && d.node_id == "n1")))
            (rows_of store.directory))
handle_rehost_directory_rows_example =
    handle_rehost_directory_rows store "2026/05" "n1" (λ e. cc) (λ e. cc)

abbrev sign : String → Request → String
sign secret r = concat secret r.nonce

-- The handler counts how often it is reached.
abbrev count_up : ℕ → ℕ × ℕ
count_up n = (n, n + 1)

within : is_stale (pos 1000) (pos 1010) (pos 300) ≡ false
unfolding add64 sub64 wrap ◌+ℤ◌ ◌-ℤ◌
within = refl

abbrev headers : Headers
headers = record { node_id = "n2"; timestamp = format_int (pos 1000); nonce = "7"; sig = "key7" }

signed :
    sign_headers sign "n2" "key" "GET" "/api/cluster/state" "" (pos 1000) (some "7") ≡ some headers
unfolding sign_headers
signed = refl

auth-sign_headers_example :
    IsLetInOnce sign "key"
      (pos 1010)
      (pos 300)
      count_up
      "GET"
      "/api/cluster/state"
      ""
      headers
      ("6" ∷ [])
      0
unfolding contains
auth-sign_headers_example =
    auth-sign_headers sign "key" (pos 1010) (pos 300) count_up "n2" "GET" "/api/cluster/state" ""
      "7" 1000 headers ("6" ∷ []) 0 (omega arith) within refl signed
