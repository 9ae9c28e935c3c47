-- ===== src/Claim/Tests.antt =====
-- A disk that another node saw a hundred seconds ago.
use immich_go_server.Prelude.{ℤ, pos, ◌≡◌, false, arith, ◌+ℤ◌, ◌-ℤ◌, ◌≤ℤ◌, IsInt64}
use immich_go_server.Model.{Disk, tier_warm}
use immich_go_server.Claim.{accrue_online_seconds}
use immich_go_server.Claim.Laws.{accrue_online_seconds_bounds}

abbrev disk : Disk ℤ
disk = record {
  disk_serial = "d1";
  label = "";
  capacity_bytes = pos 100;
  free_bytes = pos 60;
  tier = tier_warm;
  mounted_node_id = "n1";
  online_seconds = pos 50;
  online_score = pos 0;
  first_seen_at = pos 0;
  last_tick_at = pos 0;
  last_seen_at = pos 900;
  suspect = false;
  blob_root = "/d";
}

hundred_fits : IsInt64 (pos 1000 -ℤ pos 900)
unfolding ◌-ℤ◌
hundred_fits = (omega arith, omega arith)

fifty_fits : IsInt64 (pos 50)
fifty_fits = (omega arith, omega arith)

sum_fits : IsInt64 (pos 50 +ℤ (pos 1000 -ℤ pos 900))
unfolding ◌-ℤ◌ ◌+ℤ◌
sum_fits = (omega arith, omega arith)

accrue_online_seconds_bounds_example :
    (pos 50 ≤ℤ accrue_online_seconds (pos 50) (pos 900) (pos 1000))
    × (pos 900 ≤ℤ pos 1000
        → accrue_online_seconds (pos 50) (pos 900) (pos 1000) ≡ pos 50 +ℤ (pos 1000 -ℤ pos 900))
    × (pos 1000 ≤ℤ pos 900 → accrue_online_seconds (pos 50) (pos 900) (pos 1000) ≡ pos 50)
accrue_online_seconds_bounds_example =
    accrue_online_seconds_bounds (pos 50) (pos 900) (pos 1000) fifty_fits hundred_fits sum_fits
