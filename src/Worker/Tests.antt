-- ===== src/Worker/Tests.antt =====
-- A node with two disks and one asset on the first, a replica task for the second and a task of no known kind.
use mathlib.Core.List.{Nodup-nil, Nodup-cons}
use immich_go_server.Migration.Copied.{mem_iff}
use immich_go_server.Prelude.{
  ℤ, pos, String, ◌≡◌, refl, true, false, [], ◌∷◌, none, some, lookup, contains, All, ok, Result,
}
use immich_go_server.Float64.{hundredths}
use immich_go_server.Config.{default}
use immich_go_server.Model.{Asset, Disk, tier_hot}
use immich_go_server.Store.{Store, TaskRow}
use immich_go_server.World.{World, Failure}
use immich_go_server.Worker.{DiskLocator, tree, run_job}
use immich_go_server.Worker.Delivery.{IsUnderWay, IsDelivered, run_job-IsDelivered}
use immich_go_server.Worker.Tasks.{run_once}
use immich_go_server.Worker.Tasks.Settles.{IsAfter, run_once_settles}

abbrev pub disk : String → String → Disk ℤ
disk serial root = record {
  disk_serial = serial;
  label = "";
  tier = tier_hot;
  capacity_bytes = pos 100;
  free_bytes = pos 80;
  mounted_node_id = "n1";
  online_seconds = pos 0;
  online_score = pos 0;
  first_seen_at = pos 0;
  last_seen_at = pos 0;
  last_tick_at = pos 0;
  suspect = false;
  blob_root = root;
}

abbrev pub row : String → String → TaskRow
row id kind = record {
  task = record {
    task_id = id;
    kind = kind;
    dir_key = "";
    asset_id = "a";
    src_disk = "d1";
    dst_disk = "d2";
    status = "QUEUED";
  };
  created_at = pos 5;
}

abbrev store : Store ℤ
store = record {
  node_id = "n1";
  disk = ("d1", disk "d1" "/d1") ∷ ("d2", disk "d2" "/d2") ∷ [];
  node = [];
  replica =
      (
        "a@d1",
        record {
          replica_id = "a@d1";
          asset_id = "a";
          disk_serial = "d1";
          node_id = "n1";
          checksum = "sum";
          status = "HEALTHY";
        },
      )
      ∷ [];
  directory = [];
  asset =
      (
        "a",
        record {
          asset_id = "a";
          size_bytes = pos 3;
          checksum = "sum";
          dir_key = "2026/06";
          original_path = "p.jpg";
        },
      )
      ∷ [];
  task = ("rep-a", row "rep-a" "REPLICA") ∷ ("odd", row "odd" "ODD") ∷ [];
  server_config = [];
  asset_meta = [];
  device_asset = [];
  faults = [];
}

abbrev pub world : World ℤ
world = record {
  host = record {
    store = store;
    files =
        record { root = "/d1"; dir_key = "2026/06"; asset_id = "a"; bytes = 7 ∷ 8 ∷ 9 ∷ [] } ∷ [];
    blob_root = "";
    manifests = [];
  };
  peers = [];
  deliveries = [];
  outcomes = [];
}

-- Every disk is on the node itself.
abbrev here : DiskLocator ℤ
here = record { disk_node = λ disk s. (some "n1", s); peer_url = λ node. none }

abbrev once : Result Failure Unit × World ℤ
once = run_once hundredths here (default hundredths) "n1" "mig-1" (pos 100) world

run_once_settles_example :
    (once.0 ≡ ok tt)
    × ((row' : TaskRow) × (lookup "rep-a" once.1.host.store.task ≡ some row')
        × IsAfter true (row "rep-a" "REPLICA") row')
unfolding lookup
run_once_settles_example =
    run_once_settles hundredths here (default hundredths) "n1" "mig-1" (pos 100) world "rep-a"
      (row "rep-a" "REPLICA") (λ disk s T h. h) refl (refl, refl, (refl, refl, tt)) refl

abbrev asset_a : Asset
asset_a = record {
  asset_id = "a";
  size_bytes = pos 3;
  checksum = "sum";
  dir_key = "2026/06";
  original_path = "p.jpg";
}

abbrev copied : Result Failure Unit × World ℤ
copied =
    run_job hundredths here (default hundredths) "n1" "mig-1" (pos 100) false
      (tree "/d1" "2026/06" world.host.files) "d1" "d2" "/d2" "2026/06" (asset_a ∷ []) world

run_job-IsDelivered_example :
    IsUnderWay (tree "/d1" "2026/06" world.host.files) "/d2" "2026/06" copied.1
    × (copied.0 ≡ ok tt
        → All
            (IsDelivered (tree "/d1" "2026/06" world.host.files) "/d2" "2026/06" copied.1)
            (asset_a ∷ []))
unfolding lookup contains
run_job-IsDelivered_example =
    run_job-IsDelivered hundredths here (default hundredths) "n1" "mig-1" (pos 100) false
      (tree "/d1" "2026/06" world.host.files) "d1" "d2" "/d2" "2026/06" (asset_a ∷ []) world
      (Nodup-cons.1 ((λ m. cc ((mem_iff "a" []).1 m)), Nodup-nil)) ((λ id t e. cc), (λ id e. cc))
