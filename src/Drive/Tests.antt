-- ===== src/Drive/Tests.antt =====
-- A disk that another node has held for 500 seconds and has just been seen on.
use immich_go_server.Prelude.{ℤ, pos, String, ◌≡◌, refl, [], ◌∷◌, Option, some, lookup, Result, ok}
use immich_go_server.Float64.{hundredths}
use immich_go_server.Model.{Disk}
use immich_go_server.Worker.Tests.{world, disk}
use immich_go_server.Drive.{Drives, DiskIdFile, ClaimError, claim_disk}
use immich_go_server.Drive.Claiming.{IsReset, calm, claim_disk-IsReset}

abbrev id_file : DiskIdFile
id_file = record { disk_id = "d1"; generated_at = pos 1; host_node_id = "n2"; label = "old" }

abbrev row : Disk ℤ
row = record (disk "d1" "/d1") {
  mounted_node_id = "n2";
  online_seconds = pos 500;
  last_seen_at = pos 99;
}

abbrev drives : Drives ℤ
drives = record {
  store = record world.host.store { disk = ("d1", row) ∷ [] };
  ids = ("/mnt", id_file) ∷ [];
  stats =
      (
        "/mnt",
        some (record {
          disk_id = "d1";
          online_seconds = pos 500;
          first_seen_at = pos 1;
          last_tick_at = pos 99;
          updated_at = pos 99;
        }),
      )
      ∷ [];
  outcomes = [];
}

abbrev room : String → Option (ℤ × ℤ)
room dir = some (pos 60, pos 100)

abbrev after : Result ClaimError Unit × Drives ℤ
after = claim_disk hundredths "fresh" (pos 100000) room "/mnt" "n1" (pos 100) (pos 60) (calm drives)

claim_disk-IsReset_example : (after.0 ≡ ok tt) × IsReset "d1" "/mnt" "n1" (pos 100) after.1
unfolding lookup
claim_disk-IsReset_example =
    claim_disk-IsReset hundredths "fresh" (pos 100000) room drives id_file "/mnt" "n1" (pos 100)
      (pos 60) refl (λ e. cc) (λ e. cc) (λ old e. let same : some row ≡ some old = e in cc)
