-- ===== src/Store/Tests.antt =====
-- A database with a disk, an asset and its replica.
use mathlib.Core.Bool.{false≢true}
use immich_go_server.Prelude.{
  ℤ, pos, String, ◌≡◌, ◌≢◌, ◌⊎◌, refl, false, not, [], ◌∷◌, none, some, lookup, ◌==◌, eq_iff,
  if◌then◌else◌, leb_ℤ, sub64, wrap, ◌-ℤ◌, retain, ok, err,
}
use immich_go_server.Float64.{hundredths}
use immich_go_server.Model.{Directory, Disk, Asset, Replica, Task, tier_warm}
use immich_go_server.Store.{Store, working, rows_of, disk_owned}
use immich_go_server.Store.Disks.{claim_or_touch_disk}
use immich_go_server.Store.Disks.Claims.Outcome.{IsFree, IsHeld, held, claim_or_touch_disk_outcome}
use immich_go_server.Store.Disks.Claims.{claim_or_touch_disk_exclusive}
use immich_go_server.Store.Directories.{save_directory}
use immich_go_server.Store.Directories.Newest.{save_directory_commute}
use immich_go_server.Store.Tasks.{submit_task, update_task_status, with_status}
use immich_go_server.Store.Tasks.Lifecycle.{queued, submit_task_again}
use immich_go_server.Store.Uploads.{delete_asset}
use immich_go_server.Store.Uploads.Deletion.{delete_asset_gone}

abbrev disk : Disk ℤ
disk = record {
  disk_serial = "d1";
  label = "";
  capacity_bytes = pos 100;
  free_bytes = pos 60;
  tier = tier_warm;
  mounted_node_id = "";
  online_seconds = pos 50;
  online_score = pos 0;
  first_seen_at = pos 0;
  last_tick_at = pos 0;
  last_seen_at = pos 900;
  suspect = false;
  blob_root = "/d";
}

abbrev dir : String → ℤ → Directory ℤ
dir node time = record {
  dir_key = "2026/06";
  node_id = node;
  disk_serial = "d1";
  tier = tier_warm;
  temperature = pos 0;
  total_bytes = pos 7;
  access_score = pos 0;
  last_eval_at = time;
}

abbrev asset : Asset
asset = record {
  asset_id = "a";
  size_bytes = pos 3;
  checksum = "sum";
  dir_key = "2026/06";
  original_path = "p.jpg";
}

abbrev replica : Replica
replica = record {
  replica_id = "a@d1";
  asset_id = "a";
  disk_serial = "d1";
  node_id = "n1";
  checksum = "sum";
  status = "HEALTHY";
}

abbrev store : Store ℤ
store = record {
  node_id = "n1";
  disk = ("d1", disk) ∷ [];
  node = [];
  replica = ("a@d1", replica) ∷ [];
  directory = ("2026/06", dir "n1" (pos 10)) ∷ [];
  asset = ("a", asset) ∷ [];
  task = [];
  server_config = [];
  asset_meta = [];
  device_asset = [];
  faults = [];
}

abbrev task : String → Task
task dst = record {
  task_id = "mig-2026/06";
  kind = "MIGRATION";
  dir_key = "2026/06";
  asset_id = "";
  src_disk = "d1";
  dst_disk = dst;
  status = "";
}

disk_there : lookup "d1" store.disk ≡ some disk
unfolding lookup
disk_there = refl

claim_or_touch_disk_outcome_example :
    (IsFree disk "n1" (pos 1000) (pos 60)
      × IsHeld hundredths store disk disk_there
          (held disk "n1" (pos 1000) (pos 60))
          (claim_or_touch_disk hundredths "d1" "n1" (pos 1000) (pos 60) (working store)))
    ⊎ ((¬ IsFree disk "n1" (pos 1000) (pos 60))
        × (claim_or_touch_disk hundredths "d1" "n1" (pos 1000) (pos 60) (working store)
            ≡ (err (disk_owned "d1" ""), working store)))
claim_or_touch_disk_outcome_example =
    claim_or_touch_disk_outcome hundredths store disk disk_there "n1" (pos 1000) (pos 60)

recent : leb_ℤ (pos 60) (sub64 (pos 1030) (pos 1000)) ≡ false
unfolding sub64 wrap ◌-ℤ◌
recent = refl

apart : store.node_id ≢ "n2"
apart e = false≢true ((eq_iff "n1" "n2").1 e)

claim_or_touch_disk_exclusive_example :
    (claim_or_touch_disk hundredths "d1" "n2"
      (pos 1030)
      (pos 60)
      (claim_or_touch_disk hundredths "d1" "n1" (pos 1000) (pos 60) (working store)).1).0
    ≡ err (disk_owned "d1" "n1")
claim_or_touch_disk_exclusive_example =
    claim_or_touch_disk_exclusive hundredths store disk disk_there "n1" "n2" (pos 1000) (pos 1030)
      (pos 60) refl (λ e. cc) apart recent

save_directory_commute_example :
    lookup "2026/06"
      (save_directory
        (pos 1000)
        (dir "n3" (pos 30))
        (working (save_directory (pos 1000) (dir "n2" (pos 20)) (working store)).1)).1.directory
    ≡ lookup "2026/06"
        (save_directory
          (pos 1000)
          (dir "n2" (pos 20))
          (working (save_directory (pos 1000) (dir "n3" (pos 30)) (working store)).1)).1.directory
save_directory_commute_example =
    save_directory_commute (pos 1000) (dir "n2" (pos 20)) (dir "n3" (pos 30)) store "2026/06" refl
      refl refl refl

no_task : lookup "mig-2026/06" store.task ≡ none
unfolding lookup
no_task = refl

submit_task_again_example :
    lookup "mig-2026/06"
      (submit_task (pos 2000) (task "d3") (
        working
          (update_task_status "mig-2026/06" "DONE"
            (working (submit_task (pos 1000) (task "d2") (working store)).1)).1)).1.task
    ≡ some (with_status "DONE" (queued (pos 1000) (task "d2")))
submit_task_again_example =
    submit_task_again (pos 1000) (pos 2000) (task "d2") (task "d3") "DONE" store no_task refl

asset_there : lookup "a" store.asset ≡ some asset
unfolding lookup
asset_there = refl

delete_asset_gone_example :
    ((delete_asset "a" (working store)).0 ≡ ok (some asset))
    × (lookup "a" (delete_asset "a" (working store)).1.asset_meta ≡ none)
    × ((k : String)
        → lookup k (delete_asset "a" (working store)).1.asset
          ≡ (if "a" == k then none else lookup k store.asset))
    × (rows_of (delete_asset "a" (working store)).1.replica
        ≡ retain (λ r. not (r.asset_id == "a")) (rows_of store.replica))
    × ((delete_asset "a" (working store)).1.device_asset
        ≡ retain (λ r. not (r.asset_id == "a")) store.device_asset)
delete_asset_gone_example = delete_asset_gone "a" asset store asset_there
